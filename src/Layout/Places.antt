-- ===== src/Layout/Places.antt =====
-- No two nodes of the graph overlap.
use cronova.Base.{
  ℕ, suc, ◌+◌, ◌*◌, ◌≤◌, ◌<◌, ◌≡◌, ◌⊎◌, refl, sym, ap, ◌∙◌, subst, Bool, true, false, Bool-cases,
  inl, inr, List, [], ◌∷◌, any, ==_iff, Option, none, some, Option-cases, Text, text_eq,
  text_eq_iff, ltb, arith,
}
use cronova.Layout.{Node, Level, number, level_of, is_level, column, row_in, pos}

row_in-lower : (k : ℕ) (ns : List Node) (i : Text) (r : ℕ) → row_in k ns i ≡ some r → k ≤ r
unfolding row_in
row_in-lower k [] i r h = absurd (cc)
row_in-lower k (n ∷ ns) i r h = elim (Option-cases (row_in (suc k) ns i)) [
  | inl missing ↦ ground arith
  | inr (q, found) ↦
      (let same : q ≡ r = ground arith in omega (arith, same, row_in-lower (suc k) ns i q found))
]

-- A name that stands in the rest is not in the first row.
row_in-injective :
    (k : ℕ) (ns : List Node) (i j : Text) (r : ℕ)
    → row_in k ns i ≡ some r
    → row_in k ns j ≡ some r
    → i ≡ j
unfolding row_in
row_in-injective k [] i j r h e = absurd (cc)
row_in-injective k (n ∷ ns) i j r h e = elim (Option-cases (row_in (suc k) ns i)) [
  | inl no_i ↦ elim (Option-cases (row_in (suc k) ns j)) [
    | inl no_j ↦
        (let one : text_eq n.id i ≡ true = ground arith in
          let two : text_eq n.id j ≡ true = ground arith in
          sym ((text_eq_iff n.id i).0 one) ∙ (text_eq_iff n.id j).0 two)
    | inr (q, found) ↦
        (let low : suc k ≤ q = row_in-lower (suc k) ns j q found in absurd (ground arith))
  ]
  | inr (p, found) ↦ elim (Option-cases (row_in (suc k) ns j)) [
    | inl no_j ↦ (let low : suc k ≤ p = row_in-lower (suc k) ns i p found in absurd (ground arith))
    | inr (q, found_j) ↦
        (let a : p ≡ r = ground arith in
          let b : q ≡ r = ground arith in
          row_in-injective (suc k) ns i j r (found ∙ ap some a) (found_j ∙ ap some b))
  ]
]

row_in-apart :
    (ns : List Node) (i j : Text) (r s : ℕ)
    → text_eq i j ≡ false
    → row_in 0 ns i ≡ some r
    → row_in 0 ns j ≡ some s
    → (r < s) ⊎ (s < r)
row_in-apart ns i j r s d h e = elim (Bool-cases (ltb r s)) [
  | inl less ↦ inl (ground arith)
  | inr not_less ↦ elim (Bool-cases (ltb s r)) [
    | inl more ↦ inr (ground arith)
    | inr not_more ↦
        (let same : s ≡ r = ground arith in
          let one : i ≡ j = row_in-injective 0 ns i j r h (e ∙ ap some same) in
          let equal : text_eq i j ≡ true = (text_eq_iff i j).1 one in absurd (cc))
  ]
]

pos-row :
    (level : List (Text × Level)) (ns : List Node) (i : Text) (l : ℕ) (p : ℕ × ℕ)
    → level_of level i ≡ number l
    → pos level ns i ≡ some p
    → (r : ℕ) × (row_in 0 (column level l ns) i ≡ some r)
      × (p.0 ≡ 16 + l * 200)
      × (p.1 ≡ 16 + r * 52)
unfolding pos
pos-row level ns i l p e h = elim (Option-cases (row_in 0 (column level l ns) i)) [
  | inl missing ↦
      (let nowhere : ◌≡◌ {A = Option (ℕ × ℕ)} none (some p) = sym (rw (pos, e, missing) refl) ∙ h in
        absurd (cc))
  | inr (r, found) ↦
      (let whole : ◌≡◌ {A = Option (ℕ × ℕ)} (some (16 + l * 200, 16 + r * 52)) (some p) =
          sym (rw (pos, e, found) refl) ∙ h in
        let place : ◌≡◌ {A = ℕ × ℕ} (16 + l * 200, 16 + r * 52) p = cc in
        (r, found, sym (ap (λ (x : ℕ × ℕ). x.0) place), sym (ap (λ (x : ℕ × ℕ). x.1) place)))
]

-- A node of this name is there.
abbrev pub is_there : List Node → Text → Bool
is_there ns i = any (λ (n : Node). text_eq n.id i) ns

row_in-there :
    (k : ℕ) (ns : List Node) (i : Text) → is_there ns i ≡ true → (r : ℕ) × (row_in k ns i ≡ some r)
unfolding row_in
row_in-there k [] i h = absurd (cc)
row_in-there k (n ∷ ns) i h = elim (Option-cases (row_in (suc k) ns i)) [
  | inl missing ↦ elim (Bool-cases (text_eq n.id i)) [
    | inl here ↦ (k, rw (missing, here) refl)
    | inr other ↦ (let later = row_in-there (suc k) ns i (ground arith) in absurd (cc))
  ]
  | inr (q, found) ↦ (q, rw found refl)
]

column-there :
    (level : List (Text × Level)) (ns : List Node) (i : Text) (l : ℕ)
    → level_of level i ≡ number l
    → is_there ns i ≡ true
    → is_there (column level l ns) i ≡ true
unfolding column
column-there level [] i l e h = absurd (cc)
column-there level (n ∷ ns) i l e h = elim (Bool-cases (text_eq n.id i)) [
  | inl here ↦
      (let same : level_of level n.id ≡ number l =
          ap (level_of level) ((text_eq_iff n.id i).0 here) ∙ e in
        let kept : is_level l (level_of level n.id) ≡ true = rw same ((==_iff l l).1 refl) in
        rw (kept, here) refl)
  | inr other ↦ ground (arith, column-there level ns i l e (ground arith))
]

pos-there :
    (level : List (Text × Level)) (ns : List Node) (i : Text) (l : ℕ)
    → level_of level i ≡ number l
    → is_there ns i ≡ true
    → (p : ℕ × ℕ) × (pos level ns i ≡ some p)
unfolding pos
pos-there level ns i l e h =
    let row = row_in-there 0 (column level l ns) i (column-there level ns i l e h) in
    ((16 + l * 200, 16 + row.0 * 52), rw (pos, e, row.1) refl)

-- 200 pixels apart from left to right, or 52 from top to bottom, at least
abbrev pub IsApart : ℕ × ℕ → ℕ × ℕ → Type 0
IsApart p q = ((p.0 + 200 ≤ q.0) ⊎ (q.0 + 200 ≤ p.0)) ⊎ ((p.1 + 52 ≤ q.1) ⊎ (q.1 + 52 ≤ p.1))

placed-IsApart :
    (level : List (Text × Level)) (ns : List Node) (i j : Text) (l m : ℕ) (p q : ℕ × ℕ)
    → text_eq i j ≡ false
    → level_of level i ≡ number l
    → level_of level j ≡ number m
    → pos level ns i ≡ some p
    → pos level ns j ≡ some q
    → IsApart p q
placed-IsApart level ns i j l m p q d il jm h e =
    let (r, one, px, py) = pos-row level ns i l p il h in
    let (s, two, qx, qy) = pos-row level ns j m q jm e in
    elim (Bool-cases (ltb l m)) [
      | inl less ↦ inl (inl (let before : l < m = ground arith in omega (arith, before, px, qx)))
      | inr same_or_more ↦ elim (Bool-cases (ltb m l)) [
        | inl more ↦ inl (inr (let after : m < l = ground arith in omega (arith, after, px, qx)))
        | inr same ↦ inr (
            let level_same : m ≡ l = ground arith in
            let two_here : row_in 0 (column level l ns) j ≡ some s =
              subst (λ k. row_in 0 (column level k ns) j ≡ some s) level_same two in
            elim (row_in-apart (column level l ns) i j r s d one two_here) [
              | inl above ↦ inl (omega (arith, above, py, qy))
              | inr below ↦ inr (omega (arith, below, py, qy))
            ])
      ]
    ]

-- Two nodes of different names whose levels are numbers both have a place, whatever the other levels
-- are, and their places are at least 200 pixels apart from left to right or at least 52 from top to
-- bottom, so that their boxes, 150 wide and 36 high, do not overlap.
pub pos-IsApart :
    (level : List (Text × Level)) (ns : List Node) (i j : Text) (l m : ℕ)
    → level_of level i ≡ number l
    → level_of level j ≡ number m
    → is_there ns i ≡ true
    → is_there ns j ≡ true
    → text_eq i j ≡ false
    → (p q : ℕ × ℕ) × (pos level ns i ≡ some p) × (pos level ns j ≡ some q) × IsApart p q
pos-IsApart level ns i j l m il jm h e d =
    let (p, one) = pos-there level ns i l il h in
    let (q, two) = pos-there level ns j m jm e in
    (p, q, one, two, placed-IsApart level ns i j l m p q d il jm one two)
