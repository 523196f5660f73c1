-- ===== src/Layout/Columns.antt =====
-- The columns of the graph: each node stands one to the right of the rightmost of its dependencies.
use cronova.Base.{ℕ, ◌+◌, ◌≤◌, ◌≡◌, List, [], some, Text}
use cronova.Layout.{Level, Levels, edge_ends}

-- The levels alone, as each search starts with them.
abbrev unseen : List (Text × Level) → Levels
unseen level = record { level = level; seen = [] }

-- The edge from one node to another ends fifty pixels or more to the right of its start.
abbrev pub IsRightwards : List (Text × Level) → Text → Text → Type 0
IsRightwards level from to = (x y : ℕ) × (edge_ends level from to ≡ some (x, y)) × (x + 50 ≤ y)
