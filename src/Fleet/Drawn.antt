-- ===== src/Fleet/Drawn.antt =====
-- The table of the page against the workers that it keeps.
use cronova.Base.{
  ℕ, ◌≡◌, refl, sym, subst, Bool, true, false, not, Bool-cases, inl, inr, List, [], ◌∷◌, length,
  all, some, Text, text_eq_iff, if◌then◌else◌, ◌==◌, ==_iff, arith,
}
use cronova.Fleet.Workers.{
  Worker, same_bool, same_worker, same_labels, same_workers, Fleet, start_workers_poll,
  render_workers, keep_workers, is_stale_poll, workers_polled, FleetEvent, workers_opened,
  workers_left, workers_came, workers_failed, poll_ticked, poll_came, poll_failed, refresh_came,
  fleet_step, fleet_run,
}

-- An event that leaves the page open: it is not opened anew, left, or replaced by an error; and no answer
-- to its poll comes while a dialog is open or the focus is in the page.
abbrev pub leaves_shown : FleetEvent → Bool
leaves_shown workers_opened = false
leaves_shown workers_left = false
leaves_shown workers_failed = false
leaves_shown (poll_came g ws busy) = not busy
leaves_shown (workers_came ws) = true
leaves_shown (poll_ticked g) = true
leaves_shown (poll_failed g) = true
leaves_shown (refresh_came g ws) = true

-- The page is open, and its table and the count are of the workers that are kept.
abbrev pub IsFresh : List Worker → Fleet → Type 0
IsFresh ws s = (s.on_page ≡ true) × (s.wk ≡ some ws) × (s.drawn ≡ some ws) × (s.count ≡ length ws)

same_bool_eq : (a b : Bool) → same_bool a b ≡ true → a ≡ b
same_bool_eq true b h = sym h
same_bool_eq false true h = absurd (cc)
same_bool_eq false false h = refl

same_labels_eq : (ls ms : List (Text × Text)) → same_labels ls ms ≡ true → ls ≡ ms
unfolding same_labels
same_labels_eq [] [] h = refl
same_labels_eq [] (m ∷ ms) h = absurd (cc)
same_labels_eq (l ∷ ls) [] h = absurd (cc)
same_labels_eq ((j, v) ∷ ls) ((k, w) ∷ ms) h =
    let name : j ≡ k = (text_eq_iff j k).0 (ground arith) in
    let value : v ≡ w = (text_eq_iff v w).0 (ground arith) in
    let rest : ls ≡ ms = same_labels_eq ls ms (ground arith) in λ i. (name i, value i) ∷ rest i

same_worker_eq : (v w : Worker) → same_worker v w ≡ true → v ≡ w
unfolding same_worker
same_worker_eq v w h =
    let id : v.worker_id ≡ w.worker_id = (text_eq_iff v.worker_id w.worker_id).0 (ground arith) in
    let nm : v.name ≡ w.name = (text_eq_iff v.name w.name).0 (ground arith) in
    let lb : v.labels ≡ w.labels = same_labels_eq v.labels w.labels (ground arith) in
    let st : v.state ≡ w.state = (text_eq_iff v.state w.state).0 (ground arith) in
    let dr : v.draining ≡ w.draining = same_bool_eq v.draining w.draining (ground arith) in
    let n : v.active_tasks ≡ w.active_tasks =
      (==_iff v.active_tasks w.active_tasks).0 (ground arith) in
    let ver : v.version ≡ w.version = (text_eq_iff v.version w.version).0 (ground arith) in
    let hb : v.last_heartbeat ≡ w.last_heartbeat =
      (text_eq_iff v.last_heartbeat w.last_heartbeat).0 (ground arith) in
    let cr : v.created_at ≡ w.created_at =
      (text_eq_iff v.created_at w.created_at).0 (ground arith) in
    λ i. record {
      worker_id = id i;
      name = nm i;
      labels = lb i;
      state = st i;
      draining = dr i;
      active_tasks = n i;
      version = ver i;
      last_heartbeat = hb i;
      created_at = cr i;
    }

same_workers_eq : (vs ws : List Worker) → same_workers vs ws ≡ true → vs ≡ ws
unfolding same_workers
same_workers_eq [] [] h = refl
same_workers_eq [] (w ∷ ws) h = absurd (cc)
same_workers_eq (v ∷ vs) [] h = absurd (cc)
same_workers_eq (v ∷ vs) (w ∷ ws) h =
    let first : v ≡ w = same_worker_eq v w (ground arith) in
    let rest : vs ≡ ws = same_workers_eq vs ws (ground arith) in cc

-- What is kept is drawn.
render_workers-IsFresh :
    (ws : List Worker) (s : Fleet)
    → s.on_page ≡ true
    → IsFresh ws (render_workers (keep_workers ws s))
unfolding render_workers keep_workers
render_workers-IsFresh ws s h = rw h (refl, refl, refl, refl)

-- The workers that are kept after an event.
abbrev pub next_workers : FleetEvent → Fleet → List Worker → List Worker
next_workers (workers_came ws) s old = ws
next_workers (poll_came g ws busy) s old =
    if is_stale_poll g s then old else if same_workers ws old then old else ws
next_workers (refresh_came g ws) s old = if g == s.gen then ws else old
next_workers workers_opened s old = old
next_workers workers_left s old = old
next_workers workers_failed s old = old
next_workers (poll_ticked g) s old = old
next_workers (poll_failed g) s old = old

workers_polled-IsFresh :
    (g : ℕ) (ws old : List Worker) (s : Fleet)
    → IsFresh old s
    → IsFresh (next_workers (poll_came g ws false) s old) (workers_polled g ws false s)
unfolding workers_polled
workers_polled-IsFresh g ws old s f = elim (Bool-cases (is_stale_poll g s)) [
  | inl stale ↦ rw stale f
  | inr own ↦ elim (Bool-cases (same_workers ws old)) [
    | inl same ↦ rw (own, f.1, same) f
    | inr new ↦ rw (own, f.1, new) (render_workers-IsFresh ws s f.0)
  ]
]

fleet_step-IsFresh :
    (e : FleetEvent) (old : List Worker) (s : Fleet)
    → leaves_shown e ≡ true
    → IsFresh old s
    → IsFresh (next_workers e s old) (fleet_step e s)
unfolding fleet_step start_workers_poll
fleet_step-IsFresh workers_opened old s h f = absurd (cc)
fleet_step-IsFresh workers_left old s h f = absurd (cc)
fleet_step-IsFresh workers_failed old s h f = absurd (cc)
fleet_step-IsFresh (workers_came ws) old s h f = render_workers-IsFresh ws s f.0
fleet_step-IsFresh (poll_ticked g) old s h f = elim (Bool-cases (is_stale_poll g s)) [
  | inl stale ↦ rw stale f
  | inr own ↦ rw own f
]
fleet_step-IsFresh (poll_came g ws true) old s h f = absurd (cc)
fleet_step-IsFresh (poll_came g ws false) old s h f = workers_polled-IsFresh g ws old s f
fleet_step-IsFresh (poll_failed g) old s h f = f
fleet_step-IsFresh (refresh_came g ws) old s h f =
    rw f.1 (render_workers-IsFresh (if g == s.gen then ws else old) s f.0)

fleet_run-IsFresh :
    (es : List FleetEvent) (old : List Worker) (s : Fleet)
    → all leaves_shown es ≡ true
    → IsFresh old s
    → (ws : List Worker) × IsFresh ws (fleet_run es s)
unfolding fleet_run
fleet_run-IsFresh [] old s h f = (old, f)
fleet_run-IsFresh (e ∷ es) old s h f =
    fleet_run-IsFresh es (next_workers e s old) (fleet_step e s) (ground arith)
      (fleet_step-IsFresh e old s (ground arith) f)

-- The first answer on an open page.
workers_came-IsFresh :
    (ws : List Worker) (s : Fleet) → s.on_page ≡ true → IsFresh ws (fleet_step (workers_came ws) s)
unfolding fleet_step start_workers_poll
workers_came-IsFresh ws s h = render_workers-IsFresh ws s h

pub is_stale_poll-own : (s : Fleet) → s.on_page ≡ true → is_stale_poll s.gen s ≡ false
unfolding is_stale_poll
is_stale_poll-own s h = rw (h, (==_iff s.gen s.gen).1 refl) refl

poll_came-IsFresh :
    (ws old : List Worker) (s : Fleet)
    → IsFresh old s
    → IsFresh ws (fleet_step (poll_came s.gen ws false) s)
unfolding fleet_step workers_polled
poll_came-IsFresh ws old s f = elim (Bool-cases (same_workers ws old)) [
  | inl same ↦
      rw (is_stale_poll-own s f.0, f.1, same)
        (subst (λ l. IsFresh l s) (sym (same_workers_eq ws old same)) f)
  | inr new ↦ rw (is_stale_poll-own s f.0, f.1, new) (render_workers-IsFresh ws s f.0)
]

-- On an open page, from the first answer on, while it is left open and no answer to its poll comes in
-- the midst of a dialog or with the focus in the page: its table and the count are those of the workers
-- that are kept; and an answer to the poll that is current is what they are then.
pub fleet_run-drawn :
    (first last : List Worker) (es : List FleetEvent) (s : Fleet)
    → s.on_page ≡ true
    → all leaves_shown es ≡ true
    → let now = fleet_run (workers_came first ∷ es) s in
      ((ws : List Worker) × IsFresh ws now)
      × IsFresh last (fleet_step (poll_came now.gen last false) now)
unfolding fleet_run
fleet_run-drawn first last es s p h =
    let start = fleet_step (workers_came first) s in
    let fresh = fleet_run-IsFresh es first start h (workers_came-IsFresh first s p) in
    (fresh, poll_came-IsFresh last fresh.0 (fleet_run es start) fresh.1)
