-- ===== src/Dag/Cycle/Samples.antt =====
-- Runs of the search at small graphs.
use cronova.Base.{◌≡◌, refl, List, [], ◌∷◌, Text, codes, text_eq, some, true, false, Bool, ◌↔◌, All}
use cronova.Dag.Model.{Task, blank_task, by_id}
use cronova.Dag.Cycle.{has_cycle, inherited}
use cronova.Dag.Cycle.Reach.{Cyclic}
use cronova.Dag.Cycle.Decides.{IsNamed, has_cycle-decides, has_cycle-inherited}

abbrev pub node : Text → List Text → Task
node i ds = record blank_task { id = i; deps = ds }

-- a ← b ← c, and a ← c
abbrev pub chain : List Task
chain =
    node (codes "a") []
    ∷ node (codes "b") (codes "a" ∷ [])
    ∷ node (codes "c") (codes "a" ∷ codes "b" ∷ [])
    ∷ []

-- a ← b ← c ← a
abbrev pub ring : List Task
ring =
    node (codes "a") (codes "c" ∷ [])
    ∷ node (codes "b") (codes "a" ∷ [])
    ∷ node (codes "c") (codes "b" ∷ [])
    ∷ []

has_cycle-chain : has_cycle chain ≡ some false
unfolding has_cycle text_eq by_id
has_cycle-chain = refl

has_cycle-ring : has_cycle ring ≡ some true
unfolding has_cycle text_eq by_id
has_cycle-ring = refl

ring-IsNamed : All IsNamed ring
unfolding inherited text_eq
ring-IsNamed =
    let own : IsNamed (node (codes "a") (codes "c" ∷ [])) = record {
      not_empty = refl;
      own = refl;
    } in
    (own, (record { not_empty = refl; own = refl }, (record { not_empty = refl; own = refl }, tt)))

has_cycle-decides_example : (b : Bool) × (has_cycle ring ≡ some b) × ((b ≡ true) ↔ Cyclic ring)
has_cycle-decides_example = has_cycle-decides ring ring-IsNamed

-- A task that depends on itself.
abbrev pub self_loop : List Task
self_loop = node (codes "constructor") (codes "constructor" ∷ []) ∷ []

self_loop-inherited : All (λ t. inherited t.id ≡ true) self_loop
unfolding inherited text_eq
self_loop-inherited = (refl, tt)

has_cycle-inherited_example : has_cycle self_loop ≡ some false
has_cycle-inherited_example = has_cycle-inherited self_loop self_loop-inherited
