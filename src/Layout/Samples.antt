-- ===== src/Layout/Samples.antt =====
-- Tests of the layout of a graph, and its theorem at a concrete graph.
use cronova.Base.{ℕ, ◌≡◌, refl, List, [], ◌∷◌, map, some, Text, codes, text_eq}
use cronova.Dag.Cycle.{inherited}
use cronova.Layout.{
  GraphTask, Node, all_nodes, known_deps, Level, number, not_number, levels, level_of, pos,
}
use cronova.Layout.Places.{IsApart, pos-IsApart}

-- A diamond whose last task waits for another definition too.
abbrev diamond : List GraphTask
diamond =
    record { id = codes "d"; deps = codes "b" ∷ codes "c" ∷ []; dod = codes "x" }
    ∷ record { id = codes "a"; deps = []; dod = [] }
    ∷ record { id = codes "b"; deps = codes "a" ∷ []; dod = [] }
    ∷ record { id = codes "c"; deps = codes "gone" ∷ []; dod = codes "x" }
    ∷ []

all_nodes_test :
    map (λ (n : Node). n.id) (all_nodes diamond)
    ≡ codes "__ext__x" ∷ codes "d" ∷ codes "a" ∷ codes "b" ∷ codes "c" ∷ []
unfolding all_nodes text_eq
all_nodes_test = refl

abbrev diamond_levels : List (Text × Level)
diamond_levels =
    (codes "d", number 2)
    ∷ (codes "c", number 1)
    ∷ (codes "b", number 1)
    ∷ (codes "a", number 0)
    ∷ (codes "__ext__x", number 0)
    ∷ []

abbrev diamond_rank : Text → ℕ
diamond_rank i = elim (level_of diamond_levels i) [ number l ↦ l | not_number ↦ 0 ]

levels_test : levels (all_nodes diamond) ≡ some diamond_levels
unfolding levels all_nodes
levels_test = refl

-- A node that has a name of Object.prototype gets no level, and what waits for it no number.
inherited_levels_test :
    (levels (
      record { id = codes "constructor"; deps = [] }
      ∷ record { id = codes "a"; deps = codes "constructor" ∷ [] }
      ∷ []))
    ≡ some ((codes "a", not_number) ∷ [])
unfolding levels known_deps inherited
inherited_levels_test = refl

pos-IsApart_example :
    (p q : ℕ × ℕ) × (pos diamond_levels (all_nodes diamond) (codes "b") ≡ some p)
    × (pos diamond_levels (all_nodes diamond) (codes "c") ≡ some q)
    × IsApart p q
unfolding all_nodes level_of text_eq
pos-IsApart_example =
    pos-IsApart diamond_levels (all_nodes diamond) (codes "b") (codes "c") 1 1 refl refl refl refl
      refl
