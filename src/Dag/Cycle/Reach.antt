-- ===== src/Dag/Cycle/Reach.antt =====
-- Dependency edges between named tasks, and the walks along them.
use mathlib.Core.List.{Memᴰ}
use cronova.Base.{◌≡◌, List, some, Text}
use cronova.Dag.Model.{Task, by_id}

-- The task named `x` depends on `y`.
pub record Edge (ts : List Task) (x y : Text) : Type 0 where
  pub task : Task
  pub named : by_id ts x ≡ some task
  pub listed : Memᴰ y task.deps

-- One edge or more, from `x` on.
pub data Walk (ts : List Task) (x : Text) : Text → Type 0 where
  one : {y : Text} → Edge ts x y → Walk ts x y
  onward : {y z : Text} → Walk ts x y → Edge ts y z → Walk ts x z

abbrev pub Cyclic : List Task → Type 0
Cyclic ts = (x : Text) × Walk ts x x
