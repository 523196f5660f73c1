-- ===== src/Dag/Save/Invalid.antt =====
-- An edit that makes the definition invalid while an earlier save is still armed.
use cronova.Base.{◌≡◌, ◌≢◌, inl, inr, true, false, List, [], ◌∷◌, none, List-cases, arith}
use cronova.Dag.Model.{Task, Form}
use cronova.Dag.Validate.{validate}
use cronova.Dag.Spec.{dag_spec_from}
use cronova.Schedule.{compute_schedule}
use cronova.Dag.Save.{Editor, edit, fire, schedule_save, save_dag, dispatch, flush_save, step, run}

-- Where a timeout is armed, no request is under way and no deletion either, an edit that leaves the
-- definition invalid does not disarm it: when it fires, the invalid definition is sent.
fire-sends_invalid :
    (e : Editor) (ts : List Task) (f : Form)
    → e.armed ≡ true
    → e.inflight ≡ none
    → e.deleting ≡ false
    → validate ts f ≢ []
    → (run e (edit ts f ∷ fire ∷ [])).sent ≡ dag_spec_from ts (compute_schedule f) ∷ e.sent
unfolding run step save_dag schedule_save flush_save dispatch
fire-sends_invalid e ts f a i d bad = elim (List-cases (validate ts f)) [
  | inl ok ↦ absurd (bad ok)
  | inr (x, xs, n) ↦ ground arith
]
