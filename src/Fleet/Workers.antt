-- ===== src/Fleet/Workers.antt =====
-- The state of the page, and its handlers. The waits for answers and for the interval end a step, and an
-- interval is named by its generation.
use cronova.Base.{
  ℕ, suc, Bool, true, false, ◌&&◌, ◌||◌, not, List, [], ◌∷◌, length, Option, none, some, Text,
  text_eq, if◌then◌else◌, ◌==◌,
}
use cronova.Run.Poll.{clear_interval}

-- A worker; its group is one of its labels.
pub record Worker : Type 0 where
  pub worker_id : Text
  pub name : Text
  pub labels : List (Text × Text)
  pub state : Text
  pub draining : Bool
  pub active_tasks : ℕ
  pub version : Text
  pub last_heartbeat : Text
  pub created_at : Text

abbrev pub same_bool : Bool → Bool → Bool
same_bool true b = b
same_bool false b = not b

unfoldable pub same_labels : List (Text × Text) → List (Text × Text) → Bool
unfolding text_eq
same_labels [] [] = true
same_labels [] (m ∷ ms) = false
same_labels (l ∷ ls) [] = false
same_labels ((j, v) ∷ ls) ((k, w) ∷ ms) = text_eq j k && text_eq v w && same_labels ls ms

-- `JSON.stringify(v) === JSON.stringify(w)`
unfoldable pub same_worker : Worker → Worker → Bool
unfolding text_eq same_labels
same_worker v w =
    text_eq v.worker_id w.worker_id
    && text_eq v.name w.name
    && same_labels v.labels w.labels
    && text_eq v.state w.state
    && same_bool v.draining w.draining
    && v.active_tasks == w.active_tasks
    && text_eq v.version w.version
    && text_eq v.last_heartbeat w.last_heartbeat
    && text_eq v.created_at w.created_at

unfoldable pub same_workers : List Worker → List Worker → Bool
unfolding same_worker
same_workers [] [] = true
same_workers [] (w ∷ ws) = false
same_workers (v ∷ vs) [] = false
same_workers (v ∷ vs) (w ∷ ws) = same_worker v w && same_workers vs ws

-- Whether the view is this page, `WK`, what its table shows if it is drawn, the count beside the page's
-- name, `wkPollGen`, the intervals that are set, and `wkPoll`.
pub record Fleet : Type 0 where
  pub on_page : Bool
  pub wk : Option (List Worker)
  pub drawn : Option (List Worker)
  pub count : ℕ
  pub gen : ℕ
  pub timers : List ℕ
  pub wk_poll : Option ℕ

-- `stopWorkersPoll`
unfoldable pub stop_workers_poll : Fleet → Fleet
unfolding clear_interval
stop_workers_poll s = record s {
  timers = elim s.wk_poll [ none ↦ s.timers | some g ↦ clear_interval g s.timers ];
  wk_poll = none;
}

-- `startWorkersPoll`
unfoldable pub start_workers_poll : Fleet → Fleet
start_workers_poll s = record s {
  gen = suc s.gen;
  timers = suc s.gen ∷ s.timers;
  wk_poll = some (suc s.gen);
}

-- `renderWorkers`
unfoldable pub render_workers : Fleet → Fleet
render_workers s =
    if s.on_page then elim s.wk [ none ↦ s | some ws ↦ record s { drawn = some ws } ] else s

-- `WK.workers = ws` and the count
unfoldable pub keep_workers : List Worker → Fleet → Fleet
keep_workers ws s = record s { wk = some ws; count = length ws }

-- `gen !== wkPollGen || view !== "workers"`
unfoldable pub is_stale_poll : ℕ → Fleet → Bool
is_stale_poll g s = not (g == s.gen) || not s.on_page

-- The answer to the interval's request: `busy` says whether a dialog is open or the focus is in the page.
unfoldable pub workers_polled : ℕ → List Worker → Bool → Fleet → Fleet
unfolding is_stale_poll clear_interval same_workers keep_workers render_workers
workers_polled g ws busy s =
    let stopped = record s { timers = clear_interval g s.timers } in
    if is_stale_poll g s then stopped else elim s.wk [
      | none ↦ stopped
      | some old ↦
          if same_workers ws old
          then s
          else if busy
          then keep_workers ws s
          else render_workers (keep_workers ws s)
    ]

-- The page is opened, in the mode that has it, or left; a call of showWorkers has its answer, or fails;
-- an interval's function is called, and later has its answer, or fails; the request of refreshWorkers,
-- after a worker is drained or removed, has its answer, which it keeps in the object that `WK` was at
-- the request, named by its generation too.
pub data FleetEvent : Type 0 where
  workers_opened workers_left : FleetEvent
  workers_came : List Worker → FleetEvent
  workers_failed : FleetEvent
  poll_ticked : ℕ → FleetEvent
  poll_came : ℕ → List Worker → Bool → FleetEvent
  poll_failed : ℕ → FleetEvent
  refresh_came : ℕ → List Worker → FleetEvent

unfoldable pub fleet_step : FleetEvent → Fleet → Fleet
unfolding stop_workers_poll start_workers_poll render_workers keep_workers is_stale_poll
    clear_interval workers_polled
fleet_step workers_opened s = stop_workers_poll (record s { on_page = true; drawn = none })
fleet_step workers_left s = record s { on_page = false; drawn = none }
fleet_step (workers_came ws) s = start_workers_poll (render_workers (keep_workers ws s))
fleet_step workers_failed s = record s { wk = none; drawn = none }
fleet_step (poll_ticked g) s =
    if is_stale_poll g s then record s { timers = clear_interval g s.timers } else s
fleet_step (poll_came g ws busy) s = workers_polled g ws busy s
fleet_step (poll_failed g) s = s
fleet_step (refresh_came g ws) s = elim s.wk [
  | none ↦ s
  | some old ↦ render_workers (keep_workers (if g == s.gen then ws else old) s)
]

unfoldable pub fleet_run : List FleetEvent → Fleet → Fleet
unfolding fleet_step
fleet_run [] s = s
fleet_run (e ∷ es) s = fleet_run es (fleet_step e s)
