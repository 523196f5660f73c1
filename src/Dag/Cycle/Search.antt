-- ===== src/Dag/Cycle/Search.antt =====
-- What one visit does to the colours: it ends within its fuel, finishes its node, leaves the nodes
-- of the stack alone, and reports a cycle only where there is one.
use cronova.Base.{
  ℕ, zero, suc, ◌+◌, ◌≤◌, ◌<◌, ◌≡◌, ◌≢◌, refl, true, false, Bool-cases, inl, inr, List, [], ◌∷◌,
  Option, none, some, Text, text_eq, text_eq_iff, text_eq_self, All, All-map, All-of_Memᴰ, arith,
  length, Option-cases,
}
use cronova.Dag.Model.{Task, by_id}
use cronova.Dag.Cycle.{Color, visiting, visited, Dfs, color_of, known, deps_of, visit_deps, visit}
use cronova.Dag.Cycle.Reach.{Edge, Walk, one, onward, Cyclic}
use cronova.Dag.Cycle.Finished.{IsClosed}

-- The tasks whose name has no colour yet.
pub fresh : List (Text × Color) → List Task → ℕ
fresh m [] = 0
fresh m (t ∷ ts) = elim (color_of m t.id) [ none ↦ suc (fresh m ts) | some c ↦ fresh m ts ]

pub record Grows (s s' : Dfs) : Type 0 where
  pub keeps : (x : Text) (c : Color) → color_of s.color x ≡ some c → color_of s'.color x ≡ some c
  pub grays : (x : Text) → color_of s'.color x ≡ some visiting → color_of s.color x ≡ some visiting
  pub cyc_stays : s.cyc ≡ true → s'.cyc ≡ true

pub Grows-refl : (s : Dfs) → Grows s s
Grows-refl s = record { keeps = λ x c h. h; grays = λ x h. h; cyc_stays = λ h. h }

pub Grows-trans : {s t u : Dfs} → Grows s t → Grows t u → Grows s u
Grows-trans g h = record {
  keeps = λ x c e. h.keeps x c (g.keeps x c e);
  grays = λ x e. g.grays x (h.grays x e);
  cyc_stays = λ e. h.cyc_stays (g.cyc_stays e);
}

pub record Inv (ts : List Task) (s : Dfs) : Type 0 where
  pub closed : s.cyc ≡ false → IsClosed ts s.color
  pub sound : s.cyc ≡ true → Cyclic ts

pub cyc_before : {s s' : Dfs} → Grows s s' → s'.cyc ≡ false → s.cyc ≡ false
cyc_before g h = ground (arith, g.cyc_stays)

pub fresh-le-length : (m : List (Text × Color)) (ts : List Task) → fresh m ts ≤ length ts
unfolding fresh
fresh-le-length m [] = omega arith
fresh-le-length m (t ∷ ts) = ground (arith, fresh-le-length m ts)

fresh-le :
    (m m' : List (Text × Color)) (ts : List Task)
    → ((x : Text) (c : Color) → color_of m x ≡ some c → color_of m' x ≡ some c)
    → fresh m' ts ≤ fresh m ts
unfolding fresh
fresh-le m m' [] h = omega arith
fresh-le m m' (t ∷ ts) h = ground (arith, fresh-le m m' ts h, h t.id visiting, h t.id visited)

pub Grows-fresh : (ts : List Task) {s s' : Dfs} → Grows s s' → fresh s'.color ts ≤ fresh s.color ts
Grows-fresh ts {s} {s'} g = fresh-le s.color s'.color ts g.keeps

color_of-cons_keeps :
    (m : List (Text × Color)) (i : Text) (c : Color)
    → color_of m i ≡ none
    → (x : Text) (d : Color) → color_of m x ≡ some d
    → color_of ((i, c) ∷ m) x ≡ some d
unfolding color_of
color_of-cons_keeps m i c h x d e = ground (arith, text_eq_iff i x)

fresh-cons_lt :
    (m : List (Text × Color)) (i : Text) (c : Color) (ts : List Task)
    → color_of m i ≡ none
    → by_id ts i ≢ none
    → fresh ((i, c) ∷ m) ts < fresh m ts
unfolding fresh color_of by_id
fresh-cons_lt m i c [] h e = absurd (e refl)
fresh-cons_lt m i c (t ∷ ts) h e = ground (
  arith,
  text_eq_iff i t.id,
  text_eq_iff t.id i,
  fresh-cons_lt m i c ts h,
  fresh-le m ((i, c) ∷ m) ts (color_of-cons_keeps m i c h),
)

abbrev AllVisited : List Task → Dfs → List Text → Type 0
AllVisited ts s = All (λ d. known ts d ≡ true → color_of s.color d ≡ some visited)

module _ (ts : List Task) where
  -- The visit of `i` in the state `s` ends in a state as it should be.
  abbrev pub Done : Dfs → Text → Option Dfs → Type 0
  Done s i r =
      (s' : Dfs) × (r ≡ some s')
      × Grows s s'
      × Inv ts s'
      × (s'.cyc ≡ false → color_of s'.color i ≡ some visited)

  abbrev DepsDone : Dfs → List Text → Option Dfs → Type 0
  DepsDone s ds r =
      (s' : Dfs) × (r ≡ some s') × Grows s s' × Inv ts s' × (s'.cyc ≡ false → AllVisited ts s' ds)

  -- Every node of the stack walks to `i`.
  abbrev pub Stack : Dfs → Text → Type 0
  Stack s i = (y : Text) → color_of s.color y ≡ some visiting → Walk ts y i

  module _ (go : Text → Dfs → Option Dfs) (n : ℕ)
      (step : (d : Text) (s : Dfs)
        → fresh s.color ts ≤ n
        → Inv ts s
        → Stack s d
        → Done s d (go d s)) where
    visit_deps-Done :
        (ds : List Text) (s : Dfs)
        → fresh s.color ts ≤ n
        → Inv ts s
        → ((y : Text) → color_of s.color y ≡ some visiting → All (Walk ts y) ds)
        → DepsDone s ds (visit_deps ts go ds s)
    unfolding visit_deps
    visit_deps-Done [] s h inv w = (s, refl, Grows-refl s, inv, λ _. tt)
    visit_deps-Done (d ∷ ds) s h inv w = elim (Bool-cases (known ts d)) [
      | inl k ↦
          (let (s₁, e, g, inv₁, v) = step d s h inv (λ y gray. (w y gray).0) in
            let (s₂, e', g', inv', v') =
              visit_deps-Done ds s₁ (omega (arith, Grows-fresh ts g)) inv₁
                (λ y gray. (w y (g.grays y gray)).1) in
            (
              s₂,
              rw (k, e) e',
              Grows-trans g g',
              inv',
              λ c. (λ _. g'.keeps d visited (v (cyc_before g' c)), v' c),
            ))
      | inr k ↦
          (let (s', e', g', inv', v') = visit_deps-Done ds s h inv (λ y gray. (w y gray).1) in
            (s', rw k e', g', inv', λ c. (λ f. cc, v' c)))
    ]

  -- The state in which the dependencies of `i` are visited.
  abbrev entered : Dfs → Text → Dfs
  entered s i = record s { color = (i, visiting) ∷ s.color }

  entered-Inv : (s : Dfs) (i : Text) → color_of s.color i ≡ none → Inv ts s → Inv ts (entered s i)
  entered-Inv s i h inv = record { closed = λ c. (h, inv.closed c); sound = inv.sound }

  finish-Done :
      (s s₁ : Dfs) (i : Text)
      → color_of s.color i ≡ none
      → Grows (entered s i) s₁
      → Inv ts s₁
      → (s₁.cyc ≡ false → AllVisited ts s₁ (deps_of ts i))
      → Done s i (some (record s₁ { color = (i, visited) ∷ s₁.color }))
  unfolding color_of
  finish-Done s s₁ i h g inv v = (
    record s₁ { color = (i, visited) ∷ s₁.color },
    refl,
    record {
      keeps = λ x c e. ground (arith, text_eq_iff i x, g.keeps x c);
      grays = λ x e. ground (arith, text_eq_iff i x, g.grays x);
      cyc_stays = g.cyc_stays;
    },
    record {
      closed = λ c. (λ e. ground (arith, text_eq_self i, g.keeps i visiting), v c, inv.closed c);
      sound = inv.sound;
    },
    λ _. rw (text_eq_self i),
  )

  All-Edge : (i : Text) → All (Edge ts i) (deps_of ts i)
  unfolding deps_of
  All-Edge i = elim (Option-cases (by_id ts i)) [
    | inl e ↦ rw (e, deps_of) tt
    | inr (t, e) ↦
        rw (e, deps_of) (All-of_Memᴰ t.deps (λ d m. record { task = t; named = e; listed = m }))
  ]

  -- Below `i` the stack walks to every dependency of `i`.
  entered-Stack :
      (s : Dfs) (i : Text)
      → Stack s i
      → (y : Text) → color_of (entered s i).color y ≡ some visiting
      → All (Walk ts y) (deps_of ts i)
  unfolding color_of
  entered-Stack s i w y gray = elim (Bool-cases (text_eq i y)) [
    | inl e ↦ (All-map (deps_of ts i) (λ d f. rw (← (text_eq_iff i y).0 e) (one f)) (All-Edge i))
    | inr e ↦ All-map (deps_of ts i) (λ d f. onward (w y (rw e at gray)) f) (All-Edge i)
  ]

  -- The visits below `i`, given those of one less fuel.
  enter-Done :
      (fuel : ℕ) (i : Text) (s : Dfs)
      → fresh s.color ts + 2 ≤ suc fuel
      → Inv ts s
      → Stack s i
      → color_of s.color i ≡ none
      → ((d : Text) (s' : Dfs)
          → fresh s'.color ts + 2 ≤ fuel
          → Inv ts s'
          → Stack s' d
          → Done s' d (visit ts fuel d s'))
      → DepsDone
          (entered s i)
          (deps_of ts i)
          (visit_deps ts (visit ts fuel) (deps_of ts i) (entered s i))
  unfolding deps_of visit_deps
  enter-Done fuel i s h inv w e step = elim (Option-cases (by_id ts i)) [
    | inl b ↦
        rw (b, deps_of)
          (entered s i, refl, Grows-refl (entered s i), entered-Inv s i e inv, λ _. tt)
    | inr (t, b) ↦
        (let less = fresh-cons_lt s.color i visiting ts e (λ f. cc) in
          visit_deps-Done (visit ts fuel) (fresh (entered s i).color ts)
            (λ d s' le. step d s' (omega arith)) (deps_of ts i) (entered s i) (omega arith)
            (entered-Inv s i e inv) (entered-Stack s i w))
  ]

  pub visit-Done :
      (fuel : ℕ) (i : Text) (s : Dfs)
      → fresh s.color ts + 2 ≤ fuel
      → Inv ts s
      → Stack s i
      → Done s i (visit ts fuel i s)
  unfolding visit
  visit-Done zero i s h inv w = absurd (omega arith)
  visit-Done (suc fuel) i s h inv w = elim (Option-cases (color_of s.color i)) [
    | inr (visited, e) ↦ (s, rw (e, visit), Grows-refl s, inv, λ _. e)
    | inr (visiting, e) ↦ (
      record s { cyc = true },
      rw (e, visit),
      record { keeps = λ x c f. f; grays = λ x f. f; cyc_stays = λ _. refl },
      record { closed = λ c. absurd (cc); sound = λ _. (i, w i e) },
      λ c. absurd (cc),
    )
    | inl e ↦
        (let (s₁, f, g, inv₁, v) = enter-Done fuel i s h inv w e (visit-Done fuel) in
          rw (e, visit, f) (finish-Done s s₁ i e g inv₁ v))
  ]
