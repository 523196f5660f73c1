-- ===== src/Fleet/Behind.antt =====
-- A table that stays behind the workers that the page keeps.
use cronova.Base.{
  ◌≡◌, refl, Bool, true, false, Bool-cases, inl, inr, List, [], ◌∷◌, all, some, arith,
}
use cronova.Fleet.Workers.{
  Worker, same_workers, Fleet, keep_workers, is_stale_poll, workers_polled, FleetEvent,
  workers_opened, workers_left, workers_came, workers_failed, poll_ticked, poll_came, poll_failed,
  refresh_came, fleet_step, fleet_run,
}
use cronova.Fleet.Drawn.{IsFresh, is_stale_poll-own}

-- The poll goes on, and all its answers are these workers.
abbrev pub repeats : List Worker → FleetEvent → Bool
repeats ws (poll_came g vs busy) = same_workers vs ws
repeats ws (poll_ticked g) = true
repeats ws (poll_failed g) = true
repeats ws workers_opened = false
repeats ws workers_left = false
repeats ws workers_failed = false
repeats ws (workers_came vs) = false
repeats ws (refresh_came g vs) = false

abbrev pub IsLagging : List Worker → List Worker → Fleet → Type 0
IsLagging new old s = (s.wk ≡ some new) × (s.drawn ≡ some old)

fleet_step-IsLagging :
    (e : FleetEvent) (new old : List Worker) (s : Fleet)
    → repeats new e ≡ true
    → IsLagging new old s
    → IsLagging new old (fleet_step e s)
unfolding fleet_step workers_polled
fleet_step-IsLagging (poll_came g vs busy) new old s h b = elim (Bool-cases (is_stale_poll g s)) [
  | inl stale ↦ rw stale b
  | inr own ↦ rw (own, b.0, h) b
]
fleet_step-IsLagging (poll_ticked g) new old s h b = elim (Bool-cases (is_stale_poll g s)) [
  | inl stale ↦ rw stale b
  | inr own ↦ rw own b
]
fleet_step-IsLagging (poll_failed g) new old s h b = b
fleet_step-IsLagging workers_opened new old s h b = absurd (cc)
fleet_step-IsLagging workers_left new old s h b = absurd (cc)
fleet_step-IsLagging workers_failed new old s h b = absurd (cc)
fleet_step-IsLagging (workers_came vs) new old s h b = absurd (cc)
fleet_step-IsLagging (refresh_came g vs) new old s h b = absurd (cc)

fleet_run-IsLagging :
    (es : List FleetEvent) (new old : List Worker) (s : Fleet)
    → all (repeats new) es ≡ true
    → IsLagging new old s
    → IsLagging new old (fleet_run es s)
unfolding fleet_run
fleet_run-IsLagging [] new old s h b = b
fleet_run-IsLagging (e ∷ es) new old s h b =
    fleet_run-IsLagging es new old (fleet_step e s) (ground arith)
      (fleet_step-IsLagging e new old s (ground arith) b)

-- An answer to the poll that comes while a dialog is open or the focus is in the page is kept but not
-- drawn; and as long as the later answers are the same workers, no later tick draws it, whether or not a
-- dialog is open or the focus is in the page then.
pub fleet_run-behind :
    (new old : List Worker) (es : List FleetEvent) (s : Fleet)
    → IsFresh old s
    → same_workers new old ≡ false
    → all (repeats new) es ≡ true
    → IsLagging new old (fleet_run (poll_came s.gen new true ∷ es) s)
unfolding fleet_run fleet_step workers_polled keep_workers
fleet_run-behind new old es s f n h =
    fleet_run-IsLagging es new old (fleet_step (poll_came s.gen new true) s) h
      (rw (is_stale_poll-own s f.0, f.1, n) (refl, f.2))
