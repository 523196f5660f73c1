-- ===== src/Fleet/Samples.antt =====
-- Tests of the page of the workers, and its theorems at concrete events.
use cronova.Base.{◌≡◌, refl, true, false, List, [], ◌∷◌, none, some, Text, codes}
use cronova.Fleet.Workers.{
  Worker, same_workers, same_worker, Fleet, workers_left, workers_came, poll_ticked, poll_came,
  poll_failed, refresh_came, FleetEvent, fleet_step, fleet_run,
}
use cronova.Fleet.Drawn.{IsFresh, fleet_run-drawn}
use cronova.Fleet.Behind.{IsLagging, fleet_run-behind}

abbrev worker_of : Text → Text → Worker
worker_of id state = record {
  worker_id = id;
  name = id;
  labels = (codes "group", codes "default") ∷ [];
  state = state;
  draining = false;
  active_tasks = 0;
  version = codes "1.2";
  last_heartbeat = codes "12:00";
  created_at = codes "11:00";
}

abbrev was_online : List Worker
was_online = worker_of (codes "w1") (codes "online") ∷ []

abbrev now_lost : List Worker
now_lost = worker_of (codes "w1") (codes "lost") ∷ []

abbrev no_fleet : Fleet
no_fleet = record {
  on_page = true;
  wk = none;
  drawn = none;
  count = 0;
  gen = 0;
  timers = [];
  wk_poll = none;
}

-- Leaving the page lets its interval stop itself.
fleet_run_test :
    (fleet_run (workers_came was_online ∷ workers_left ∷ poll_ticked 1 ∷ []) no_fleet).timers ≡ []
unfolding fleet_run
fleet_run_test = refl

abbrev poll_events : List FleetEvent
poll_events =
    poll_ticked 1 ∷ poll_came 1 now_lost false ∷ refresh_came 1 was_online ∷ poll_failed 1 ∷ []

fleet_run-drawn_example :
    let now = fleet_run (workers_came was_online ∷ poll_events) no_fleet in
    ((ws : List Worker) × IsFresh ws now)
    × IsFresh now_lost (fleet_step (poll_came now.gen now_lost false) now)
fleet_run-drawn_example = fleet_run-drawn was_online now_lost poll_events no_fleet refl refl

abbrev open_fleet : Fleet
open_fleet = record {
  on_page = true;
  wk = some was_online;
  drawn = some was_online;
  count = 1;
  gen = 1;
  timers = 1 ∷ [];
  wk_poll = some 1;
}

fleet_run-behind_example : IsLagging now_lost was_online (
    fleet_run
      (poll_came 1 now_lost true ∷ poll_ticked 1 ∷ poll_came 1 now_lost false ∷ [])
      open_fleet)
unfolding same_workers same_worker
fleet_run-behind_example =
    fleet_run-behind now_lost was_online (poll_ticked 1 ∷ poll_came 1 now_lost false ∷ [])
      open_fleet (refl, refl, refl, refl) refl refl
