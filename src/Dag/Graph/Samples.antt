-- ===== src/Dag/Graph/Samples.antt =====
-- The theorems about the graph editor at a small definition.
use cronova.Base.{◌≡◌, if◌then◌else◌, refl, true, false, List, [], ◌∷◌, none, some, codes, text_eq}
use cronova.Dag.Model.{by_id}
use cronova.Dag.Cycle.{has_cycle, inherited}
use cronova.Dag.Cycle.Samples.{chain}
use cronova.Dag.Validate.{cyclic, named}
use cronova.Dag.Save.{Doc}
use cronova.Schedule.Samples.{empty_form}
use cronova.Dag.Graph.{
  graph_discard_session, graph_toggle_dep, graph_drop_allowed, edit_first, push,
}
use cronova.Dag.Graph.Drop.{graph_toggle_dep-graph_drop_allowed}
use cronova.Dag.Graph.Session.{
  Action, drop_edge, remove_edge, new_task, activate, act_all, graph_discard_session-act_all,
}
use cronova.Dag.Graph.Acyclic.{Own, act_all-acyclic}

abbrev chain_doc : Doc
chain_doc = record {
  tasks = chain;
  dag = empty_form;
  graph_base = none;
  graph_dirty = 0;
  graph_pending = none;
  diff_cache = none;
  diff_open = false;
  connect_mode = true;
  active_task_id = none;
}

-- A cycle that is refused, an edge taken away, the edge that is then allowed, and a new task.
abbrev changes : List Action
changes =
    drop_edge (codes "c") (codes "a")
    ∷ remove_edge (codes "a") (codes "b")
    ∷ activate (codes "b") false
    ∷ activate (codes "a") false
    ∷ new_task (some (codes "d"))
    ∷ []

graph_discard_session-act_all_example :
    (graph_discard_session (act_all chain_doc changes)).0.tasks ≡ chain
graph_discard_session-act_all_example = graph_discard_session-act_all chain_doc changes refl

chain-Own : Own chain
unfolding inherited text_eq
chain-Own = (refl, (refl, (refl, tt)))

chain-acyclic : cyclic (named chain) ≡ false
unfolding has_cycle text_eq by_id
chain-acyclic = refl

d-own : inherited (codes "d") ≡ false
unfolding inherited text_eq
d-own = refl

act_all-acyclic_example : cyclic (named (act_all chain_doc changes).tasks) ≡ false
act_all-acyclic_example =
    act_all-acyclic chain_doc changes chain-Own chain-acyclic (tt, (tt, (tt, (tt, (d-own, tt)))))

graph_toggle_dep-graph_drop_allowed_example :
    ((graph_toggle_dep (codes "c") (codes "a") false chain_doc).0.graph_dirty
      ≡ (if graph_drop_allowed (codes "c") (codes "a") chain then 1 else 0))
    × ((graph_toggle_dep (codes "c") (codes "a") false chain_doc).0.tasks ≡ (
        if graph_drop_allowed (codes "c") (codes "a") chain
        then edit_first (codes "a") (push (codes "c")) chain
        else chain))
graph_toggle_dep-graph_drop_allowed_example =
    graph_toggle_dep-graph_drop_allowed (codes "c") (codes "a") chain_doc
