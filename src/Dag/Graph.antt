-- ===== src/Dag/Graph.antt =====
-- The graph editor of the structure page: pending sessions, the two-click connection, the drop of
-- an edge and the new task (internal/web/static/views.js). A handler returns the definition and
-- what it does beside.
pub mod Session
pub mod Acyclic
pub mod Drop
mod Samples
use cronova.Base.{
  ℕ, suc, ◌+◌, Bool, true, false, ◌&&◌, ◌||◌, not, List, [], ◌∷◌, ◌++◌, Option, none, some, Text,
  codes, text_eq, includes, is_empty, if◌then◌else◌, find, any, strip_prefix,
}
use cronova.Dag.Model.{Task, Form, blank_task}
use cronova.Dag.Validate.{Err, task_id, dup, cycle, id_re, ids, named, cyclic, validate}
use cronova.Dag.Save.{Doc, errors_of}
use cronova.Dag.Edit.{
  Effect, save, render_dag, render_structure, close_edge_menu, warn, inform, show_task, with_deps,
}

abbrev pub Handled : Type 0
Handled = Doc × List Effect

-- `D.graphBase`, or the tasks as they are where there is no snapshot.
abbrev pub base_of : Doc → List Task
base_of d = elim (d.graph_base) [ some ts ↦ ts | none ↦ d.tasks ]

-- The snapshot is taken by value, before the first change of a session.
unfoldable pub graph_mutate : (List Task → List Task) → Doc → Handled
graph_mutate f d = (
  record d {
    tasks = f (d.tasks);
    graph_base = some (base_of d);
    graph_dirty = suc (d.graph_dirty);
    diff_cache = none;
  },
  render_dag ∷ [],
)

abbrev pub closed_session : Doc → Doc
closed_session d = record d {
  graph_base = none;
  graph_dirty = 0;
  graph_pending = none;
  diff_cache = none;
  diff_open = false;
}

-- What the indicator shows is in `reflect` of the save pipeline.
unfoldable pub graph_save_session : Doc → Handled
graph_save_session d = elim (errors_of d) [
  | e ∷ es ↦ (d, warn e ∷ [])
  | [] ↦ (closed_session d, save ∷ render_structure ∷ [])
]

unfoldable pub graph_discard_session : Doc → Handled
graph_discard_session d = (
  closed_session (record d { tasks = base_of d }),
  inform (codes "diff_discarded") ∷ render_dag ∷ [],
)

-- `addTaskFromGraph` with the answer of the dialog; `none` is a cancelled one.
unfoldable pub add_task_from_graph : Option Text → Doc → Handled
unfolding graph_mutate
add_task_from_graph none d = (d, [])
add_task_from_graph (some i) d =
    let new = record blank_task { id = i; command = codes "echo TODO" } in
    if is_empty i
    then (d, [])
    else if not (id_re i)
    then (d, warn task_id ∷ [])
    else if includes i (ids (d.tasks))
    then (d, warn dup ∷ [])
    else graph_mutate (λ ts. ts ++ new ∷ []) d

-- A change of the first task of that name: what `find` returns is changed in place.
unfoldable pub edit_first : Text → (List Text → List Text) → List Task → List Task
edit_first i f [] = []
edit_first i f (t ∷ ts) =
    let rest = edit_first i f ts in if text_eq t.id i then with_deps f t ∷ ts else t ∷ rest

-- `deps.push(up)`, and `deps.splice(deps.indexOf(up), 1)`
abbrev pub push : Text → List Text → List Text
push up ds = ds ++ up ∷ []

unfoldable pub remove_first : Text → List Text → List Text
remove_first up [] = []
remove_first up (d ∷ ds) = let rest = remove_first up ds in if text_eq d up then ds else d ∷ rest

-- The check with the dependency pushed; it is popped again before any change.
unfoldable pub would_cycle : Text → Text → List Task → Bool
unfolding edit_first
would_cycle up down ts = cyclic (named (edit_first down (push up) ts))

-- `graphToggleDep` once the task is found.
unfoldable pub toggle_found : Task → Text → Text → Bool → Doc → Handled
unfolding graph_mutate edit_first remove_first would_cycle
toggle_found dt up down allow_remove d =
    if includes up dt.deps
    then (if allow_remove
        then graph_mutate (edit_first down (remove_first up)) d
        else (d, inform (codes "ge_dup_dep") ∷ render_structure ∷ []))
    else if would_cycle up down d.tasks
    then (d, warn cycle ∷ render_structure ∷ [])
    else graph_mutate (edit_first down (push up)) d

unfoldable pub graph_toggle_dep : Text → Text → Bool → Doc → Handled
unfolding toggle_found
graph_toggle_dep up down allow_remove d = elim (find (λ x. text_eq x.id down) d.tasks) [
  | none ↦ (d, render_structure ∷ [])
  | some dt ↦
      if text_eq up down then (d, render_structure ∷ []) else toggle_found dt up down allow_remove d
]

unfoldable pub graph_drop_allowed : Text → Text → List Task → Bool
unfolding would_cycle
graph_drop_allowed up down ts = elim (find (λ x. text_eq x.id down) ts) [
  | none ↦ false
  | some dt ↦ not (text_eq up down) && not (includes up dt.deps) && not (would_cycle up down ts)
]

-- `id.startsWith("__ext__")`
is_stub : Text → Bool
unfolding strip_prefix
is_stub i = elim (strip_prefix (codes "__ext__") i) [ some r ↦ true | none ↦ false ]

-- The node is clicked while a connection is being made: `pending` is the node clicked first.
unfoldable pub connect : Option Text → Text → Doc → Handled
unfolding graph_toggle_dep
connect none i d = (record d { graph_pending = some i }, render_structure ∷ [])
connect (some p) i d =
    if text_eq p i
    then (record d { graph_pending = none }, render_structure ∷ [])
    else graph_toggle_dep p i true (record d { graph_pending = none })

abbrev waiting : Option Text → Bool
waiting none = false
waiting (some p) = true

unfoldable pub on_graph_node_activate : Text → Bool → Doc → Handled
unfolding is_stub connect
on_graph_node_activate i shift d =
    if is_stub i
    then (d, [])
    else if d.connect_mode || shift || waiting d.graph_pending
    then (let done = connect d.graph_pending i d in (done.0, close_edge_menu ∷ done.1))
    else (d, close_edge_menu ∷ show_task i ∷ [])
