-- ===== src/Layout.antt =====
-- The layout of a graph of tasks: renderGraph of internal/web/static/base.js, from the nodes to the ends
-- of the edges. `byId` and `level` are plain objects, so names that every object inherits are found in
-- them before they are set. (An id `__proto__`, whose assignment would change the prototype, is read as
-- any other inherited name.)
use cronova.Base.{
  ℕ, zero, suc, ◌+◌, ◌*◌, Bool, true, false, not, List, [], ◌∷◌, ◌++◌, map, keep, length, Option,
  none, some, ◌>>=◌, max, Text, codes, is_empty, includes, text_eq, if◌then◌else◌, ◌==◌,
}
pub mod Heights
pub mod Search
pub mod Columns
pub mod Places
mod Samples
use cronova.Dag.Cycle.{inherited}

-- A task as the graph is given it; `dod` is the definition that it waits for, or empty.
pub record GraphTask : Type 0 where
  pub id : Text
  pub deps : List Text
  pub dod : Text

-- An entry of `all`: a task, or the stub of another definition.
pub record Node : Type 0 where
  pub id : Text
  pub deps : List Text

abbrev pub stub_id : Text → Text
stub_id ext = codes "__ext__" ++ ext

-- The stubs, one for each definition that a task waits for.
unfoldable pub stubs_of : List Text → List GraphTask → List Node
stubs_of seen [] = []
stubs_of seen (t ∷ ts) =
    let same = stubs_of seen ts in
    let more = stubs_of (t.dod ∷ seen) ts in
    if is_empty t.dod
    then same
    else if includes t.dod seen
    then same
    else record { id = stub_id t.dod; deps = [] } ∷ more

-- `list`
unfoldable pub node_of : GraphTask → Node
node_of t = record {
  id = t.id;
  deps = if is_empty t.dod then t.deps else t.deps ++ stub_id t.dod ∷ [];
}

-- `all`
unfoldable pub all_nodes : List GraphTask → List Node
unfolding stubs_of node_of
all_nodes ts = stubs_of [] ts ++ map node_of ts

-- `byId[i]` where it is a node: the last one of that name
unfoldable pub find_node : List Node → Text → Option Node
unfolding text_eq
find_node [] i = none
find_node (n ∷ ns) i = elim (find_node ns i) [
  | some m ↦ some m
  | none ↦ if text_eq n.id i then some n else none
]

-- `byId[i]` as a condition: names that every object inherits hold too.
unfoldable pub has_node : List Node → Text → Bool
unfolding find_node inherited
has_node ns i = elim (find_node ns i) [ some n ↦ true | none ↦ inherited i ]

-- `(byId[id]?.deps || []).filter((d) => byId[d])`
unfoldable pub known_deps : List Node → Text → List Text
unfolding find_node has_node
known_deps ns i = elim (find_node ns i) [ some n ↦ keep (has_node ns) n.deps | none ↦ [] ]

-- A value of `level`: a number, or NaN and what else is no number, as an inherited function.
pub data Level : Type 0 where
  number : ℕ → Level
  not_number : Level

-- `level[i]`, where it is not undefined: an inherited name has a value before it is set.
unfoldable pub level_at : List (Text × Level) → Text → Option Level
unfolding text_eq inherited
level_at [] i = if inherited i then some not_number else none
level_at ((j, l) ∷ level) i = if text_eq j i then some l else level_at level i

-- `level`, its latest entry first, and `seen`
pub record Levels : Type 0 where
  pub level : List (Text × Level)
  pub seen : List Text

abbrev pub max_level : Level → Level → Level
max_level (number m) (number n) = number (max m n)
max_level (number m) not_number = not_number
max_level not_number l = not_number

abbrev pub next_level : Level → Level
next_level (number n) = number (suc n)
next_level not_number = not_number

-- `Math.max(...vs)`, of one value at least
abbrev pub max_of : List Level → Level
max_of [] = number 0
max_of (v ∷ vs) = max_level v (max_of vs)

-- `deps.length ? 1 + Math.max(…) : 0`
abbrev pub level_from : List Level → Level
level_from [] = number 0
level_from (v ∷ vs) = next_level (max_of (v ∷ vs))

-- `deps.map((d) => lvl(d, seen))`
unfoldable pub lvls :
    (Text → Levels → Option (Level × Levels)) → List Text → Levels → Option (List Level × Levels)
lvls lvl [] s = some ([], s)
lvls lvl (d ∷ ds) s = lvl d s >>= λ r. lvls lvl ds r.1 >>= λ q. some (r.0 ∷ q.0, q.1)

-- `lvl`; `none` means that the fuel ran out.
unfoldable pub lvl : List Node → ℕ → Text → Levels → Option (Level × Levels)
unfolding level_at lvls known_deps
lvl ns zero i s = none
lvl ns (suc fuel) i s = elim (level_at s.level i) [
  | some l ↦ some (l, s)
  | none ↦
      if includes i s.seen
      then some (number 0, s)
      else (lvls (lvl ns fuel) (known_deps ns i) (record s { seen = i ∷ s.seen }) >>= λ q.
          some (level_from q.0, record q.1 { level = (i, level_from q.0) ∷ q.1.level }))
]

-- `all.forEach((t2) => lvl(t2.id, new Set()))`
unfoldable pub level_nodes :
    List Node → List Node → List (Text × Level) → Option (List (Text × Level))
unfolding lvl
level_nodes ns [] level = some level
level_nodes ns (n ∷ rest) level =
    lvl ns (suc (length ns)) n.id (record { level = level; seen = [] }) >>= λ r.
    level_nodes ns rest r.1.level

unfoldable pub levels : List Node → Option (List (Text × Level))
unfolding level_nodes
levels ns = level_nodes ns ns []

-- `level[i]` as a number
unfoldable pub level_of : List (Text × Level) → Text → Level
unfolding level_at
level_of level i = elim (level_at level i) [ some l ↦ l | none ↦ not_number ]

-- `pos[i].x`, where it is a number
unfoldable pub pos_x : List (Text × Level) → Text → Option ℕ
unfolding level_of
pos_x level i = elim (level_of level i) [ number l ↦ some (16 + l * 200) | not_number ↦ none ]

-- The ends `x1` and `x2` of the edge from one node to another, where both are numbers
unfoldable pub edge_ends : List (Text × Level) → Text → Text → Option (ℕ × ℕ)
unfolding pos_x
edge_ends level from to = pos_x level from >>= λ x. pos_x level to >>= λ y. some (x + 150, y)

abbrev pub is_level : ℕ → Level → Bool
is_level l (number m) = m == l
is_level l not_number = false

-- `cols[L]`, for a number
unfoldable pub column : List (Text × Level) → ℕ → List Node → List Node
unfolding level_of
column level l ns = keep (λ (n : Node). is_level l (level_of level n.id)) ns

-- The index that the name is given, counted from `k`, the last one if it stands there more than once.
unfoldable pub row_in : ℕ → List Node → Text → Option ℕ
unfolding text_eq
row_in k [] i = none
row_in k (n ∷ ns) i = elim (row_in (suc k) ns i) [
  | some r ↦ some r
  | none ↦ if text_eq n.id i then some k else none
]

-- `pos[i]`, with its fields x and y, where they are numbers
unfoldable pub pos : List (Text × Level) → List Node → Text → Option (ℕ × ℕ)
unfolding row_in column level_of
pos level ns i = elim (level_of level i) [
  | number l ↦ row_in 0 (column level l ns) i >>= λ r. some (16 + l * 200, 16 + r * 52)
  | not_number ↦ none
]
