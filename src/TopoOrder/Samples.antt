-- ===== src/TopoOrder/Samples.antt =====
-- The order of small definitions.
use cronova.Base.{List, [], ◌∷◌, codes}
use cronova.Dag.Model.{Task}
use cronova.Dag.Cycle.Samples.{node}
use cronova.TopoOrder.Passes.{Waits}

-- Listed backwards, with two tasks that wait for each other.
abbrev backwards : List Task
backwards =
    node (codes "x") (codes "y" ∷ [])
    ∷ node (codes "b") (codes "a" ∷ [])
    ∷ node (codes "y") (codes "x" ∷ [])
    ∷ node (codes "a") (codes "gone" ∷ [])
    ∷ []
