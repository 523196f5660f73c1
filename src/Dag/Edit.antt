-- ===== src/Dag/Edit.antt =====
-- Editing the tasks: `addTask`, `deleteTask`, `duplicateTask` and `renameActiveTask` of
-- internal/web/static/views.js. What follows on the tasks themselves, the save and the page that is
-- shown next, is the list of effects.
pub mod FreshId
pub mod Delete
mod Samples
use cronova.Base.{
  ℕ, zero, suc, ◌+◌, ◌==◌, Bool, true, false, ◌&&◌, ◌||◌, not, List, [], ◌∷◌, ◌++◌, map, Option,
  none, some, Text, codes, text_eq, includes, is_empty, if◌then◌else◌, any, keep, find, length,
  print_nat, ltb,
}
use cronova.Dag.Model.{Task, num, pos, blank_task}
use cronova.Dag.Validate.{Err, empty_id, task_id, dup, id_re, ids}

-- `saveDag()`, `toast(t(key), kind)`, the page that is rendered or shown and the assignment to
-- `activeTaskId`.
pub data Effect : Type 0 where
  save render_dag render_task render_structure close_edge_menu : Effect
  warn : Err → Effect
  inform : Text → Effect
  show_task : Text → Effect
  set_active : Text → Effect

-- `do { id = candidate(n); n++ } while (taken)`, with fuel.
unfoldable pub fresh_id : (ℕ → Text) → List Text → ℕ → ℕ → Option Text
fresh_id candidate taken zero n = none
fresh_id candidate taken (suc fuel) n =
    let next = fresh_id candidate taken fuel (suc n) in
    if includes (candidate n) taken then next else some (candidate n)

-- One round more than there are names.
abbrev pub rounds : List Task → ℕ
rounds ts = suc (length ts)

-- `"task_" + n`
unfoldable pub task_name : ℕ → Text
task_name n = codes "task_" ++ print_nat n

-- `${taskID}_copy${n > 1 ? "_" + n : ""}`
unfoldable pub copy_name : Text → ℕ → Text
copy_name i n = i ++ (codes "_copy" ++ (if ltb 1 n then codes "_" ++ print_nat n else []))

-- The result is `none` where the search for a name does not end.
unfoldable pub add_task : List Task → Option (List Task × List Effect)
unfolding fresh_id task_name
add_task ts = elim (fresh_id task_name (ids ts) (rounds ts) (length ts + 1)) [
  | none ↦ none
  | some i ↦ some (ts ++ record blank_task { id = i } ∷ [], save ∷ show_task i ∷ [])
]

abbrev pub with_deps : (List Text → List Text) → Task → Task
with_deps f x = record x { deps = f (x.deps) }

-- `deleteTask` once the dialog is confirmed.
unfoldable pub delete_task : Text → List Task → List Task × List Effect
delete_task i ts = (
  map (with_deps (keep (λ d. not (text_eq d i)))) (keep (λ x. not (text_eq x.id i)) ts),
  save ∷ render_dag ∷ [],
)

unfoldable pub duplicate_task : Text → List Task → Option (List Task × List Effect)
unfolding fresh_id copy_name
duplicate_task i ts = elim (find (λ x. text_eq x.id i) ts) [
  | none ↦ some (ts, [])
  | some src ↦ elim (fresh_id (copy_name i) (ids ts) (rounds ts) 1) [
    | none ↦ none
    | some nid ↦ some (ts ++ record src { id = nid } ∷ [], save ∷ render_dag ∷ [])
  ]
]

-- `const i = deps.indexOf(old); if (i >= 0) deps[i] = new`
unfoldable pub replace_first : Text → Text → List Text → List Text
replace_first old new [] = []
replace_first old new (d ∷ ds) =
    let rest = replace_first old new ds in if text_eq d old then new ∷ ds else d ∷ rest

-- The tasks with the one at position `k` renamed and the dependencies of the others rewritten.
unfoldable pub rename_at : ℕ → Text → Text → List Task → List Task
unfolding replace_first
rename_at k old new [] = []
rename_at zero old new (t ∷ ts) = record t { id = new } ∷ map (with_deps (replace_first old new)) ts
rename_at (suc k) old new (t ∷ ts) = with_deps (replace_first old new) t ∷ rename_at k old new ts

-- `D.tasks.some((x) => x !== tk && x.id === id)` for the task `tk` at position `k`.
unfoldable pub other_has : ℕ → Text → List Task → Bool
other_has k i [] = false
other_has zero i (t ∷ ts) = includes i (ids ts)
other_has (suc k) i (t ∷ ts) = text_eq t.id i || other_has k i ts

pub name_error : ℕ → Text → List Task → Option Err
unfolding id_re other_has
name_error k new ts =
    if is_empty new
    then some empty_id
    else if not (id_re new)
    then some task_id
    else if other_has k new ts
    then some dup
    else none

unfoldable pub rename_active_task : ℕ → Text → Text → List Task → List Task × List Effect
unfolding name_error rename_at
rename_active_task k old new ts = if text_eq new old then (ts, []) else elim (name_error k new ts) [
  | some e ↦ (ts, warn e ∷ render_task ∷ [])
  | none ↦ (rename_at k old new ts, set_active new ∷ save ∷ render_task ∷ [])
]
