-- ===== src/Dag/Cycle/Finished.antt =====
-- The colours of a search that met no cycle: what a finished node depends on finished before it.
use mathlib.Core.List.{Memᴰ}
use cronova.Base.{
  ℕ, suc, ◌≤◌, ◌<◌, ◌≡◌, ◌≢◌, sym, true, List, [], ◌∷◌, none, some, Text, text_eq, text_eq_iff,
  if◌then◌else◌, length, All, All-Memᴰ, arith, subst,
}
use cronova.Dag.Model.{Task, by_id}
use cronova.Dag.Cycle.{Color, visiting, visited, color_of, known, deps_of}
use cronova.Dag.Cycle.Reach.{Edge, Walk, one, onward}

abbrev pub IsClosed : List Task → List (Text × Color) → Type 0
IsClosed ts [] = Unit
IsClosed ts ((i, visiting) ∷ m) = (color_of m i ≡ none) × IsClosed ts m
IsClosed ts ((i, visited) ∷ m) =
    (color_of m i ≢ some visited)
    × All (λ d. known ts d ≡ true → color_of m d ≡ some visited) (deps_of ts i)
    × IsClosed ts m

module _ (ts : List Task) where
  -- The dependencies that stood finished when `i` finished, under another spelling of `i`.
  finished_dep :
      (m : List (Text × Color)) (i x d : Text)
      → All (λ d. known ts d ≡ true → color_of m d ≡ some visited) (deps_of ts i)
      → Memᴰ d (deps_of ts x)
      → known ts d ≡ true
      → text_eq i x ≡ true
      → color_of m d ≡ some visited
  finished_dep m i x d all l k e =
      let same_node : x ≡ i = sym ((text_eq_iff i x).0 e) in
      All-Memᴰ (λ d. known ts d ≡ true → color_of m d ≡ some visited) (deps_of ts i) d all
        (subst (λ y. Memᴰ d (deps_of ts y)) same_node l) k

  -- A finished node's dependencies are finished.
  pub color_of-dep :
      (m : List (Text × Color)) (x d : Text)
      → IsClosed ts m
      → Memᴰ d (deps_of ts x)
      → known ts d ≡ true
      → color_of m x ≡ some visited
      → color_of m d ≡ some visited
  unfolding color_of
  color_of-dep [] x d h l k v = cc
  color_of-dep ((i, visiting) ∷ m) x d h l k v =
      ground (arith, text_eq_iff i d, color_of-dep m x d h.1 l k)
  color_of-dep ((i, visited) ∷ m) x d h l k v =
      ground (arith, finished_dep m i x d h.1 l k, color_of-dep m x d h.2 l k)

  -- When a node finished: 0 for one that has not.
  pub rank : List (Text × Color) → Text → ℕ
  rank [] x = 0
  rank ((i, visiting) ∷ m) x = rank m x
  rank ((i, visited) ∷ m) x = if text_eq i x then suc (length m) else rank m x

  rank-le-length : (m : List (Text × Color)) (x : Text) → rank m x ≤ length m
  unfolding rank
  rank-le-length [] x = omega arith
  rank-le-length ((i, visiting) ∷ m) x = omega (arith, rank-le-length m x)
  rank-le-length ((i, visited) ∷ m) x = ground (arith, rank-le-length m x)

  rank-lt :
      (m : List (Text × Color)) (x d : Text)
      → IsClosed ts m
      → Memᴰ d (deps_of ts x)
      → known ts d ≡ true
      → color_of m x ≡ some visited
      → rank m d < rank m x
  unfolding color_of rank
  rank-lt [] x d h l k v = cc
  rank-lt ((i, visiting) ∷ m) x d h l k v = ground (arith, rank-lt m x d h.1 l k)
  rank-lt ((i, visited) ∷ m) x d h l k v = ground (
    arith,
    text_eq_iff i d,
    h.0,
    finished_dep m i x d h.1 l k,
    color_of-dep m x d h.2 l k,
    rank-le-length m d,
    rank-lt m x d h.2 l k,
  )

  -- Where every named task is finished, a walk to a task goes down in rank.
  module _ (m : List (Text × Color)) (closed : IsClosed ts m)
      (all_finished : (x : Text) (t : Task)
        → by_id ts x ≡ some t
        → color_of m x ≡ some visited) where
    Edge-rank : {x y : Text} (t : Task) → Edge ts x y → by_id ts y ≡ some t → rank m y < rank m x
    unfolding known deps_of
    Edge-rank {x} {y} t e f =
        rank-lt m x y closed (rw (e.named, deps_of) e.listed) (rw (f, known))
          (all_finished x e.task e.named)

    Walk-rank : {x y : Text} (t : Task) → Walk ts x y → by_id ts y ≡ some t → rank m y < rank m x
    Walk-rank t (one e) f = Edge-rank t e f
    Walk-rank t (onward w e) f = omega (arith, Edge-rank t e f, Walk-rank e.task w e.named)

    start : {x y : Text} → Walk ts x y → (t : Task) × (by_id ts x ≡ some t)
    start (one e) = (e.task, e.named)
    start (onward w e) = start w

    pub acyclic : (x : Text) → ¬ Walk ts x x
    acyclic x w = let (t, f) = start w in absurd (omega (arith, Walk-rank t w f))
