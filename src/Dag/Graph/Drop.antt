-- ===== src/Dag/Graph/Drop.antt =====
-- What the editor shows while an edge is dragged is what the drop does.
use cronova.Base.{
  suc, ◌≡◌, refl, inl, inr, false, Option-cases, find, Text, text_eq, arith, if◌then◌else◌,
}
use cronova.Dag.Save.{Doc}
use cronova.Dag.Graph.{
  graph_mutate, edit_first, push, toggle_found, graph_toggle_dep, graph_drop_allowed,
}

-- A drop is counted as a change, and gives the task below the dependency, exactly where it is shown
-- as allowed; elsewhere it changes neither the tasks nor the count.
pub graph_toggle_dep-graph_drop_allowed :
    (up down : Text) (d : Doc)
    → ((graph_toggle_dep up down false d).0.graph_dirty
        ≡ (if graph_drop_allowed up down d.tasks then suc d.graph_dirty else d.graph_dirty))
      × ((graph_toggle_dep up down false d).0.tasks ≡ (
          if graph_drop_allowed up down d.tasks
          then edit_first down (push up) d.tasks
          else d.tasks))
unfolding graph_toggle_dep graph_drop_allowed toggle_found graph_mutate
graph_toggle_dep-graph_drop_allowed up down d =
    elim (Option-cases (find (λ x. text_eq x.id down) d.tasks)) [
      | inl n ↦ rw (n, graph_toggle_dep, graph_drop_allowed) (refl, refl)
      | inr (t, n) ↦ rw (n, graph_toggle_dep, graph_drop_allowed) (ground arith, ground arith)
    ]
