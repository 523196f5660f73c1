-- ===== src/Dag/Edit/Samples.antt =====
-- The theorems about editing at small definitions.
use cronova.Base.{List, [], ◌∷◌, codes}
use cronova.Dag.Model.{Task}
use cronova.Dag.Cycle.Samples.{node}

abbrev taken : List Task
taken = node (codes "task_2") [] ∷ []
