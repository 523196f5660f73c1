-- ===== src/Dag/Graph/Session.antt =====
-- A session of pending graph changes can be taken back.
use cronova.Base.{
  ◌≡◌, refl, ◌∙◌, inl, inr, Bool, true, false, Option-cases, List, [], ◌∷◌, Option, none, some,
  Text, arith, find, text_eq,
}
use cronova.Dag.Model.{Task}
use cronova.Dag.Save.{Doc}
use cronova.Dag.Graph.{
  base_of, graph_mutate, graph_discard_session, add_task_from_graph, toggle_found, graph_toggle_dep,
  connect, on_graph_node_activate,
}

-- The handlers that change the graph.
pub data Action : Type 0 where
  activate : Text → Bool → Action
  drop_edge : Text → Text → Action
  remove_edge : Text → Text → Action
  new_task : Option Text → Action

unfoldable pub act : Doc → Action → Doc
act d (activate i shift) = (on_graph_node_activate i shift d).0
act d (drop_edge up down) = (graph_toggle_dep up down false d).0
act d (remove_edge up down) = (graph_toggle_dep up down true d).0
act d (new_task answer) = (add_task_from_graph answer d).0

unfoldable pub act_all : Doc → List Action → Doc
act_all d [] = d
act_all d (a ∷ as_) = act_all (act d a) as_

-- The base stays.
abbrev Keeps : Doc → Doc → Type 0
Keeps d d' = base_of d' ≡ base_of d

graph_mutate-Keeps : (f : List Task → List Task) (d : Doc) → Keeps d (graph_mutate f d).0
unfolding graph_mutate
graph_mutate-Keeps f d = ground arith

toggle_found-Keeps :
    (t : Task) (up down : Text) (b : Bool) (d : Doc) → Keeps d (toggle_found t up down b d).0
unfolding toggle_found graph_mutate
toggle_found-Keeps t up down b d = ground arith

graph_toggle_dep-Keeps :
    (up down : Text) (b : Bool) (d : Doc) → Keeps d (graph_toggle_dep up down b d).0
unfolding graph_toggle_dep
graph_toggle_dep-Keeps up down b d = elim (Option-cases (find (λ x. text_eq x.id down) d.tasks)) [
  | inl n ↦ rw (n, graph_toggle_dep) refl
  | inr (t, n) ↦ rw (n, graph_toggle_dep) (ground (arith, toggle_found-Keeps t up down b d))
]

add_task_from_graph-Keeps :
    (answer : Option Text) (d : Doc) → Keeps d (add_task_from_graph answer d).0
unfolding add_task_from_graph
add_task_from_graph-Keeps none d = refl
add_task_from_graph-Keeps (some i) d = ground arith

connect-Keeps : (p : Option Text) (i : Text) (d : Doc) → Keeps d (connect p i d).0
unfolding connect
connect-Keeps none i d = refl
connect-Keeps (some p) i d =
    ground (arith, graph_toggle_dep-Keeps p i true (record d { graph_pending = none }))

act-Keeps : (d : Doc) (a : Action) → Keeps d (act d a)
unfolding act on_graph_node_activate
act-Keeps d (activate i shift) = ground (arith, connect-Keeps d.graph_pending i d)
act-Keeps d (drop_edge up down) = graph_toggle_dep-Keeps up down false d
act-Keeps d (remove_edge up down) = graph_toggle_dep-Keeps up down true d
act-Keeps d (new_task answer) = add_task_from_graph-Keeps answer d

act_all-Keeps : (d : Doc) (as_ : List Action) → Keeps d (act_all d as_)
unfolding act_all
act_all-Keeps d [] = refl
act_all-Keeps d (a ∷ as_) = act_all-Keeps (act d a) as_ ∙ act-Keeps d a

-- Where no session is open: after any clicks, dropped and removed edges and new tasks, discarding
-- the session gives the tasks back as they were.
pub graph_discard_session-act_all :
    (d : Doc) (as_ : List Action)
    → d.graph_base ≡ none
    → (graph_discard_session (act_all d as_)).0.tasks ≡ d.tasks
unfolding graph_discard_session
graph_discard_session-act_all d as_ n = act_all-Keeps d as_ ∙ ground arith
