-- ===== src/Layout/Search.antt =====
-- What one search does to the levels, where a rank goes up along the dependencies.
use cronova.Base.{
  ℕ, zero, suc, ◌≤◌, ◌<◌, ◌≡◌, ◌⊎◌, refl, sym, ap, ◌∙◌, subst, true, false, Bool-cases, inl, inr,
  List, [], ◌∷◌, map, All, Option, none, some, Option-cases, Text, includes, text_eq, text_eq_iff,
  text_eq_self, arith,
}
use cronova.Dag.Cycle.{inherited}
use cronova.Layout.{
  Node, known_deps, Level, number, Levels, level_at, level_from, lvls, lvl, level_of,
}
use cronova.Layout.Heights.{
  Has, Settles, Settles-refl, Settles-trans, level_of-Has, IsLevelled, entered, left,
  level_from-Has, left-Settles, left-IsLevelled,
}

module _ (ns : List Node) (rank : Text → ℕ)
    (ranked : (i : Text)
      → All (λ d. (rank d < rank i) × (inherited d ≡ false)) (known_deps ns i)) where
  -- What was seen and has no level ranks higher.
  abbrev pub IsAbove : ℕ → Levels → Type 0
  IsAbove r s = (j : Text) → includes j s.seen ≡ true → Has s j ⊎ (r ≤ rank j)

  IsAbove-Settles : {s t : Levels} (r : ℕ) → Settles s t → IsAbove r s → IsAbove r t
  IsAbove-Settles r f a j h = elim (f.settled j h) [
    | inl k ↦ elim (a j k) [ inl (n, e) ↦ inl (n, f.keeps j n e) | inr l ↦ inr l ]
    | inr b ↦ inl b
  ]

  pub record Levelled (s : Levels) (i : Text) (out : Level × Levels) : Type 0 where
    pub is_number : (n : ℕ) × (out.0 ≡ number n)
    pub has_level : level_at out.1.level i ≡ some out.0
    pub settles : Settles s out.1
    pub levelled : IsLevelled ns out.1

  lvls-Levelled :
      (v : Text → Levels → Option (Level × Levels)) (r : ℕ)
      → ((d : Text) (s : Levels)
          → rank d < r
          → inherited d ≡ false
          → IsLevelled ns s
          → IsAbove (suc (rank d)) s
          → (out : Level × Levels) × (v d s ≡ some out) × Levelled s d out)
      → (ds : List Text) (s : Levels) → All (λ d. (rank d < r) × (inherited d ≡ false)) ds
      → IsLevelled ns s
      → IsAbove r s
      → (out : List Level × Levels) × (lvls v ds s ≡ some out)
        × (out.0 ≡ map (level_of out.1.level) ds)
        × All (Has out.1) ds
        × Settles s out.1
        × IsLevelled ns out.1
  unfolding lvls
  lvls-Levelled v r f [] s h lev a = (([], s), refl, refl, tt, Settles-refl s, lev)
  lvls-Levelled v r f (d ∷ ds) s h lev a =
      let one =
        f d s h.0.0 h.0.1 lev
          (λ j k. elim (a j k) [ inl b ↦ inl b | inr l ↦ inr (omega (arith, l, h.0.0)) ]) in
      let rest =
        lvls-Levelled v r f ds one.0.1 h.1 one.2.levelled (IsAbove-Settles r one.2.settles a) in
      let (n, is_n) = one.2.is_number in
      let has : level_at rest.0.1.level d ≡ some (number n) =
        rest.4.keeps d n (one.2.has_level ∙ ap some is_n) in
      let value : one.0.0 ≡ level_of rest.0.1.level d =
        is_n ∙ sym (level_of-Has rest.0.1 d n has) in
      let values : rest.0.0 ≡ map (level_of rest.0.1.level) ds = rest.2 in
      (
        (one.0.0 ∷ rest.0.0, rest.0.1),
        rw (one.1, rest.1) refl,
        (cc),
        ((n, has), rest.3),
        Settles-trans one.2.settles rest.4,
        rest.5,
      )

  enter-IsAbove :
      (i : Text) (s : Levels) → IsAbove (suc (rank i)) s → IsAbove (rank i) (entered s i)
  enter-IsAbove i s a j k = elim (Bool-cases (includes j s.seen)) [
    | inl old ↦ elim (a j old) [ inl b ↦ inl b | inr l ↦ inr (omega (arith, l)) ]
    | inr new ↦
        (let same : i ≡ j = (text_eq_iff i j).0 (ground arith) in
          inr (subst (λ x. rank i ≤ rank x) same (omega arith)))
  ]

  not_seen :
      (i : Text) (s : Levels)
      → level_at s.level i ≡ none
      → IsAbove (suc (rank i)) s
      → includes i s.seen ≡ false
  not_seen i s e a = elim (Bool-cases (includes i s.seen)) [
    | inl t ↦ elim (a i t) [ inl (n, h) ↦ absurd (cc) | inr l ↦ absurd (omega (arith, l)) ]
    | inr f ↦ f
  ]

  -- The node's level once its dependencies have theirs.
  leave-Levelled :
      (i : Text) (s t : Levels) (vs : List Level)
      → inherited i ≡ false
      → vs ≡ map (level_of t.level) (known_deps ns i)
      → All (Has t) (known_deps ns i)
      → Settles (entered s i) t
      → IsLevelled ns t
      → Levelled s i (level_from vs, left t i (level_from vs))
  unfolding level_at
  leave-Levelled i s t vs own e h f lev =
      let l = level_from vs in
      let top : l ≡ level_from (map (level_of t.level) (known_deps ns i)) = ap level_from e in
      let (n, is_n, below) = level_from-Has t (known_deps ns i) h in
      let now : l ≡ number n = top ∙ is_n in
      let g : Settles t (left t i l) = left-Settles ns t i l own lev top in
      record {
        is_number = (n, now);
        has_level = rw (text_eq_self i) refl;
        settles = record {
          keeps = λ j m k. g.keeps j m (f.keeps j m k);
          settled = λ j k. elim (f.settled j k) [
            | inl m ↦ elim (Bool-cases (includes j s.seen)) [
              | inl old ↦ inl old
              | inr new ↦
                  inr (n, (let same : text_eq i j ≡ true = ground arith in rw same (ap some now)))
            ]
            | inr b ↦ inr (b.0, g.keeps j b.0 b.1)
          ];
        };
        levelled = left-IsLevelled ns t i l own lev ((n, now), h, top);
      }

  lvl-entered :
      (fuel : ℕ) (i : Text) (s : Levels) (q : List Level × Levels)
      → level_at s.level i ≡ none
      → includes i s.seen ≡ false
      → lvls (lvl ns fuel) (known_deps ns i) (entered s i) ≡ some q
      → lvl ns (suc fuel) i s ≡ some (level_from q.0, left q.1 i (level_from q.0))
  unfolding lvl
  lvl-entered fuel i s q e f h = rw (lvl, e, f, h) refl

  -- With fuel above the rank, a node gets its level.
  pub lvl-Levelled :
      (fuel : ℕ) (i : Text) (s : Levels)
      → rank i < fuel
      → inherited i ≡ false
      → IsLevelled ns s
      → IsAbove (suc (rank i)) s
      → (out : Level × Levels) × (lvl ns fuel i s ≡ some out) × Levelled s i out
  unfolding lvl
  lvl-Levelled zero i s f own lev a = absurd (omega (arith, f))
  lvl-Levelled (suc fuel) i s f own lev a = elim (Option-cases (level_at s.level i)) [
    | inl none_yet ↦
        (let rest =
            lvls-Levelled (lvl ns fuel) (rank i)
              (λ d t h o l b. lvl-Levelled fuel d t (omega (arith, h, f)) o l b) (known_deps ns i)
              (entered s i) (ranked i) lev (enter-IsAbove i s a) in
          (
            (level_from rest.0.0, left rest.0.1 i (level_from rest.0.0)),
            lvl-entered fuel i s rest.0 none_yet (not_seen i s none_yet a) rest.1,
            leave-Levelled i s rest.0.1 rest.0.0 own rest.2 rest.3 rest.4 rest.5,
          ))
    | inr (l, e) ↦ (
      (l, s),
      rw (lvl, e) refl,
      record {
        is_number = (lev i l own e).0;
        has_level = e;
        settles = Settles-refl s;
        levelled = lev;
      },
    )
  ]
