-- ===== src/Dag/Edit/Delete.antt =====
-- Deleting a task takes its name out of the definition.
use cronova.Base.{
  ◌≡◌, refl, false, Bool-cases, inl, inr, List, [], ◌∷◌, map, Text, text_eq, includes, not, keep,
  All, arith,
}
use cronova.Dag.Model.{Task}
use cronova.Dag.Validate.{ids}
use cronova.Dag.Edit.{with_deps, delete_task}

includes-keep : (i : Text) (ds : List Text) → includes i (keep (λ d. not (text_eq d i)) ds) ≡ false
includes-keep i [] = refl
includes-keep i (d ∷ ds) = ground (arith, includes-keep i ds)

remaining : Text → List Task → List Task
remaining i ts = keep (λ x. not (text_eq x.id i)) ts

cut : Text → List Task → List Task
cut i ts = map (with_deps (keep (λ d. not (text_eq d i)))) ts

includes-ids-cut : (i : Text) (ts : List Task) → includes i (ids (cut i (remaining i ts))) ≡ false
unfolding cut remaining
includes-ids-cut i [] = refl
includes-ids-cut i (t ∷ ts) = elim (Bool-cases (text_eq t.id i)) [
  | inl e ↦ rw e (includes-ids-cut i ts)
  | inr e ↦ rw (e, e) (includes-ids-cut i ts)
]

All-cut : (i : Text) (ts : List Task) → All (λ t. includes i t.deps ≡ false) (cut i ts)
unfolding cut
All-cut i [] = tt
All-cut i (t ∷ ts) = (includes-keep i t.deps, All-cut i ts)

-- After a deletion no task has the name and no task depends on it.
delete_task-gone :
    (i : Text) (ts : List Task)
    → (includes i (ids (delete_task i ts).0) ≡ false)
      × All (λ t. includes i t.deps ≡ false) (delete_task i ts).0
unfolding delete_task cut remaining
delete_task-gone i ts = (includes-ids-cut i ts, All-cut i (remaining i ts))
