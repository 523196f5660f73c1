-- ===== src/Layout/Heights.antt =====
-- Levels as a search leaves them: set once, and each by those of the dependencies.
use cronova.Base.{
  ℕ, suc, max, ◌≤◌, ◌<◌, ◌≡◌, ◌⊎◌, refl, sym, ap, ◌∙◌, subst, true, false, Bool-cases, inl, inr,
  List, [], ◌∷◌, map, All, All-map, some, Text, includes, text_eq, text_eq_iff, arith,
}
use cronova.Dag.Cycle.{inherited}
use cronova.Layout.{Node, known_deps, Level, number, Levels, level_at, max_of, level_from, level_of}

-- The node has a level, a number.
abbrev pub Has : Levels → Text → Type 0
Has s i = (n : ℕ) × (level_at s.level i ≡ some (number n))

-- Levels stay as they are set, and what was seen in between has one.
pub record Settles (s t : Levels) : Type 0 where
  pub keeps :
      (i : Text) (n : ℕ)
      → level_at s.level i ≡ some (number n)
      → level_at t.level i ≡ some (number n)
  pub settled : (i : Text) → includes i t.seen ≡ true → (includes i s.seen ≡ true) ⊎ Has t i

pub Settles-refl : (s : Levels) → Settles s s
Settles-refl s = record { keeps = λ i n h. h; settled = λ i h. inl h }

pub Settles-trans : {s t u : Levels} → Settles s t → Settles t u → Settles s u
Settles-trans f g = record {
  keeps = λ i n h. g.keeps i n (f.keeps i n h);
  settled = λ i h. elim (g.settled i h) [
    | inl k ↦ elim (f.settled i k) [ inl j ↦ inl j | inr (n, e) ↦ inr (n, g.keeps i n e) ]
    | inr a ↦ inr a
  ];
}

pub level_of-Has :
    (s : Levels) (i : Text) (n : ℕ)
    → level_at s.level i ≡ some (number n)
    → level_of s.level i ≡ number n
unfolding level_of
level_of-Has s i n h = rw (level_of, h) refl

pub level_of-Settles :
    {s t : Levels} → Settles s t → (i : Text) → Has s i → level_of t.level i ≡ level_of s.level i
level_of-Settles {s} {t} f i (n, h) =
    level_of-Has t i n (f.keeps i n h) ∙ sym (level_of-Has s i n h)

pub map-Settles :
    {s t : Levels}
    → Settles s t
    → (ds : List Text) → All (Has s) ds
    → map (level_of t.level) ds ≡ map (level_of s.level) ds
map-Settles f [] h = refl
map-Settles {s} {t} f (d ∷ ds) h =
    let here : level_of t.level d ≡ level_of s.level d = level_of-Settles f d h.0 in
    let rest : map (level_of t.level) ds ≡ map (level_of s.level) ds = map-Settles f ds h.1 in cc

pub All-Settles : {s t : Levels} → Settles s t → (ds : List Text) → All (Has s) ds → All (Has t) ds
All-Settles f ds h = All-map ds (λ d e. (e.0, f.keeps d e.0 e.1)) h

max_of-numbers :
    (f : Text → Level) (ds : List Text)
    → All (λ d. (m : ℕ) × (f d ≡ number m)) ds
    → (n : ℕ) × (max_of (map f ds) ≡ number n) × All (λ d. (m : ℕ) × (f d ≡ number m) × (m ≤ n)) ds
max_of-numbers f [] h = (0, refl, tt)
max_of-numbers f (d ∷ ds) ((m, e), h) =
    let (n, top, below) = max_of-numbers f ds h in
    (
      max m n,
      rw (e, top) refl,
      ((m, e, omega arith), All-map ds (λ c (k, is_k, low). (k, is_k, omega (arith, low))) below),
    )

-- A level from numbers is a number, above each of them.
level_from-numbers :
    (f : Text → Level) (ds : List Text)
    → All (λ d. (m : ℕ) × (f d ≡ number m)) ds
    → (n : ℕ) × (level_from (map f ds) ≡ number n)
      × All (λ d. (m : ℕ) × (f d ≡ number m) × (m < n)) ds
level_from-numbers f [] h = (0, refl, tt)
level_from-numbers f (d ∷ ds) h =
    let (n, top, below) = max_of-numbers f (d ∷ ds) h in
    (suc n, rw top refl, All-map (d ∷ ds) (λ c (k, is_k, low). (k, is_k, omega (arith, low))) below)

pub level_from-Has :
    (s : Levels) (ds : List Text)
    → All (Has s) ds
    → (n : ℕ) × (level_from (map (level_of s.level) ds) ≡ number n)
      × All (λ d. (m : ℕ) × (level_of s.level d ≡ number m) × (m < n)) ds
level_from-Has s ds h =
    level_from-numbers (level_of s.level) ds (All-map ds (λ d e. (e.0, level_of-Has s d e.0 e.1)) h)

-- The state after the entry of a node.
abbrev pub entered : Levels → Text → Levels
entered s i = record s { seen = i ∷ s.seen }

-- The state once a node has its level.
abbrev pub left : Levels → Text → Level → Levels
left s i l = record s { level = (i, l) ∷ s.level }

module _ (ns : List Node) where
  -- The level is a number, one more than the highest of the dependencies', which all have one, or
  -- zero.
  abbrev pub IsHeight : Levels → Text → Level → Type 0
  IsHeight s i l =
      ((n : ℕ) × (l ≡ number n))
      × All (Has s) (known_deps ns i)
      × (l ≡ level_from (map (level_of s.level) (known_deps ns i)))

  -- Names that are not inherited have such levels only.
  abbrev pub IsLevelled : Levels → Type 0
  IsLevelled s =
      (i : Text) (l : Level) → inherited i ≡ false → level_at s.level i ≡ some l → IsHeight s i l

  pub IsHeight-Settles :
      {s t : Levels} → Settles s t → (i : Text) (l : Level) → IsHeight s i l → IsHeight t i l
  IsHeight-Settles f i l h = (
    h.0,
    All-Settles f (known_deps ns i) h.1,
    h.2 ∙ ap level_from (sym (map-Settles f (known_deps ns i) h.1)),
  )

  -- A level that is set again is set to what it was.
  pub left-Settles :
      (s : Levels) (i : Text) (l : Level)
      → inherited i ≡ false
      → IsLevelled s
      → l ≡ level_from (map (level_of s.level) (known_deps ns i))
      → Settles s (left s i l)
  unfolding level_at
  left-Settles s i l own lev e = record {
    keeps = λ j m h. elim (Bool-cases (text_eq i j)) [
      | inl same ↦
          (let here : i ≡ j = (text_eq_iff i j).0 same in
            let old : number m ≡ l =
              (lev j (number m) (subst (λ x. inherited x ≡ false) here own) h).2
              ∙ ap (λ x. level_from (map (level_of s.level) (known_deps ns x))) (sym here)
              ∙ sym e in
            rw same (ap some (sym old)))
      | inr other ↦ rw other h
    ];
    settled = λ j h. inl h;
  }

  pub left-IsLevelled :
      (s : Levels) (i : Text) (l : Level)
      → inherited i ≡ false
      → IsLevelled s
      → IsHeight s i l
      → IsLevelled (left s i l)
  unfolding level_at
  left-IsLevelled s i l own lev e j m own_j h = elim (Bool-cases (text_eq i j)) [
    | inl same ↦
        (let here : i ≡ j = (text_eq_iff i j).0 same in
          let now : l ≡ m = ground arith in
          subst (λ x. IsHeight (left s i l) x m) here
            (subst (λ k. IsHeight (left s i l) i k) now
              (IsHeight-Settles (left-Settles s i l own lev e.2) i l e)))
    | inr other ↦
        IsHeight-Settles (left-Settles s i l own lev e.2) j m (lev j m own_j (ground arith))
  ]
