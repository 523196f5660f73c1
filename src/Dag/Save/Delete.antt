-- ===== src/Dag/Save/Delete.antt =====
-- Saves and the deletion of a definition.
use cronova.Base.{
  Option-cases, inl, inr, ◌≡◌, refl, ◌∙◌, true, false, List, [], ◌∷◌, none, All, arith,
}
use cronova.Dag.Save.Marks.{SameMachine, on_success-SameMachine, on_error-SameMachine}
use cronova.Dag.Save.{
  Editor, Event, edit, fire, reply_ok, reply_error, await_saves, begin_deletion, end_deletion,
  render, step, run, with_doc, save_dag, flush_save, settle, on_success, on_error, flush_pending,
  begin_delete, end_delete, reflect,
}

abbrev pub IsEnd : Event → Type 0
IsEnd end_deletion = Unit
IsEnd _ = ⊥

-- The step sends nothing and leaves the deletion under way.
abbrev Holds : Editor → Editor → Type 0
Holds e e' = (e'.sent ≡ e.sent) × (e'.deleting ≡ e.deleting)

save_dag-deleting : (e : Editor) → e.deleting ≡ true → Holds e (save_dag e)
unfolding save_dag
save_dag-deleting e d = ground arith

flush_save-deleting : (e : Editor) → e.deleting ≡ true → Holds e (flush_save e)
unfolding flush_save
flush_save-deleting e d = ground arith

settle-deleting : (e : Editor) → e.deleting ≡ true → Holds e (settle e)
unfolding settle flush_save
settle-deleting e d = ground arith

settle-marked : (e e' : Editor) → SameMachine e e' → e.deleting ≡ true → Holds e (settle e')
settle-marked e e' m d = ground (arith, settle-deleting e')

step-deleting : (e : Editor) (v : Event) → ¬ IsEnd v → e.deleting ≡ true → Holds e (step e v)
unfolding step
step-deleting e (edit ts f) h d =
    save_dag-deleting (with_doc e (record (e.doc) { tasks = ts; dag = f })) d
step-deleting e fire h d = ground (arith, flush_save-deleting (record e { armed = false }) d)
step-deleting e (reply_ok hash) h d = elim (Option-cases e.inflight) [
  | inl i ↦ rw (i, step) (refl, refl)
  | inr (seq, i) ↦
      rw (i, step) (settle-marked e (on_success hash seq e) (on_success-SameMachine hash seq e) d)
]
step-deleting e (reply_error code) h d = elim (Option-cases e.inflight) [
  | inl i ↦ rw (i, step) (refl, refl)
  | inr (seq, i) ↦
      rw (i, step) (settle-marked e (on_error code seq e) (on_error-SameMachine code seq e) d)
]
step-deleting e await_saves h d =
    unfold flush_pending in
    ground (arith, flush_save-deleting (record e { timer_set = false; armed = false }) d)
step-deleting e begin_deletion h d = unfold begin_delete in ground arith
step-deleting e end_deletion h d = absurd (h tt)
step-deleting e render h d = unfold reflect in ground arith

-- While a deletion is under way, no save is sent, whatever else happens.
pub run-deleting :
    (e : Editor) (vs : List Event)
    → e.deleting ≡ true
    → All (λ v. ¬ IsEnd v) vs
    → (run e vs).sent ≡ e.sent
unfolding run
run-deleting e [] d h = refl
run-deleting e (v ∷ vs) d h =
    let one_step = step-deleting e v h.0 d in
    run-deleting (step e v) vs (one_step.1 ∙ d) h.1 ∙ one_step.0

-- Nothing is armed, waiting or under way.
record IsIdle (e : Editor) : Type 0 where
  not_set : e.timer_set ≡ false
  not_armed : e.armed ≡ false
  not_pending : e.pending ≡ false
  not_sent : e.inflight ≡ none

abbrev pub IsEdit : Event → Type 0
IsEdit (edit ts f) = Unit
IsEdit _ = ⊥

step-IsIdle :
    (e : Editor) (v : Event)
    → ¬ IsEdit v
    → IsIdle e
    → IsIdle (step e v) × ((step e v).sent ≡ e.sent)
unfolding step
step-IsIdle e (edit ts f) h i = absurd (h tt)
step-IsIdle e fire h i = ground arith
step-IsIdle e (reply_ok hash) h i = ground arith
step-IsIdle e (reply_error code) h i = ground arith
step-IsIdle e await_saves h i = unfold flush_pending in ground arith
step-IsIdle e begin_deletion h i = unfold begin_delete in ground arith
step-IsIdle e end_deletion h i = unfold end_delete in ground arith
step-IsIdle e render h i = unfold reflect in ground arith

run-IsIdle :
    (e : Editor) (vs : List Event) → All (λ v. ¬ IsEdit v) vs → IsIdle e → (run e vs).sent ≡ e.sent
unfolding run
run-IsIdle e [] h i = refl
run-IsIdle e (v ∷ vs) h i =
    let one_step = step-IsIdle e v h.0 i in run-IsIdle (step e v) vs h.1 one_step.0 ∙ one_step.1

begin-end-IsIdle :
    (e : Editor) → e.inflight ≡ none → IsIdle (step (step e begin_deletion) end_deletion)
unfolding step begin_delete end_delete
begin-end-IsIdle e i = ground arith

sent_kept : (e : Editor) → (step (step e begin_deletion) end_deletion).sent ≡ e.sent
unfolding step begin_delete end_delete
sent_kept e = refl

-- A deletion that begins with no request under way and ends, by its failure too, forgets the
-- saves that were due: no later event but an edit sends one.
end_deletion_forgets :
    (e : Editor) (vs : List Event)
    → e.inflight ≡ none
    → All (λ v. ¬ IsEdit v) vs
    → (run e (begin_deletion ∷ end_deletion ∷ vs)).sent ≡ e.sent
unfolding run
end_deletion_forgets e vs i h =
    run-IsIdle (step (step e begin_deletion) end_deletion) vs h (begin-end-IsIdle e i) ∙ sent_kept e
