-- ===== src/Diff/Optimal.antt =====
-- The diff keeps as many lines as any common subsequence has.
use cronova.Base.{
  ℕ, suc, ◌+◌, ◌≤◌, ◌≡◌, refl, sym, ap, ◌∙◌, List, [], ◌∷◌, Text, text_eq, text_eq_iff, arith,
  Bool-cases, ◌⊎◌, inl, inr, drop, length, leb, split, subst,
}
use native.Mathlib.Nat.{zero-add}
use cronova.Diff.{same, Row, walk, dp_table, cell, diff_lines}
use cronova.Diff.Lcs.{lcs, lcs-nil_right, cell-dp_table}

-- `IsSub zs xs`: the lines `zs` stand in `xs` in this order.
pub data IsSub : List Text → List Text → Type 0 where
  none_left : {xs : List Text} → IsSub [] xs
  skip : {zs xs : List Text} {x : Text} → IsSub zs xs → IsSub zs (x ∷ xs)
  take_it : {zs xs : List Text} {z : Text} → IsSub zs xs → IsSub (z ∷ zs) (z ∷ xs)

-- The lines of the rows that the diff keeps.
abbrev pub kept_lines : List Row → List Text
kept_lines [] = []
kept_lines (r ∷ rs) = elim r.k [ same ↦ r.s ∷ kept_lines rs | _ ↦ kept_lines rs ]

abbrev pub kept : List Row → ℕ
kept rs = length (kept_lines rs)

-- The table as the walk sees it from `i` and `j` on.
abbrev Fits : List (List ℕ) → (i j : ℕ) → List Text → List Text → Type 0
Fits dp i j as_ bs = (k l : ℕ) → cell dp (i + k) (j + l) ≡ lcs (drop k as_) (drop l bs)

Fits-down :
    (dp : List (List ℕ)) (i j : ℕ) (a : Text) (as_ bs : List Text)
    → Fits dp i j (a ∷ as_) bs
    → Fits dp (suc i) j as_ bs
Fits-down dp i j a as_ bs h k l =
    subst (λ n. cell dp n (j + l) ≡ lcs (drop k as_) (drop l bs)) (omega arith) (h (suc k) l)

Fits-right :
    (dp : List (List ℕ)) (i j : ℕ) (b : Text) (as_ bs : List Text)
    → Fits dp i j as_ (b ∷ bs)
    → Fits dp i (suc j) as_ bs
Fits-right dp i j b as_ bs h k l =
    subst (λ n. cell dp (i + k) n ≡ lcs (drop k as_) (drop l bs)) (omega arith) (h k (suc l))

Fits-at :
    (dp : List (List ℕ)) (i j : ℕ) (as_ bs : List Text)
    → Fits dp i j as_ bs
    → cell dp i j ≡ lcs as_ bs
Fits-at dp i j as_ bs h =
    let e : i + 0 ≡ i = omega arith in
    let f : j + 0 ≡ j = omega arith in
    ap (λ n. cell dp n j) (sym e) ∙ ap (λ n. cell dp (i + 0) n) (sym f) ∙ h 0 0

walk-kept :
    (dp : List (List ℕ)) (i j : ℕ) (as_ bs : List Text)
    → Fits dp i j as_ bs
    → kept (walk dp i j as_ bs) ≡ lcs as_ bs
unfolding walk lcs
walk-kept dp i j [] [] h = refl
walk-kept dp i j (a ∷ as_) [] h =
    walk-kept dp (suc i) j as_ [] (Fits-down dp i j a as_ [] h) ∙ lcs-nil_right as_
walk-kept dp i j [] (b ∷ bs) h = walk-kept dp i (suc j) [] bs (Fits-right dp i j b [] bs h)
walk-kept dp i j (a ∷ as_) (b ∷ bs) h =
    let down = Fits-down dp i j a as_ (b ∷ bs) h in
    let right = Fits-right dp i j b (a ∷ as_) bs h in
    ground (
      arith,
      walk-kept dp (suc i) (suc j) as_ bs (Fits-right dp (suc i) j b as_ bs down),
      walk-kept dp (suc i) j as_ (b ∷ bs) down,
      walk-kept dp i (suc j) (a ∷ as_) bs right,
      Fits-at dp (suc i) j as_ (b ∷ bs) down,
      Fits-at dp i (suc j) (a ∷ as_) bs right,
    )

IsSub-tail : {z : Text} {zs xs : List Text} → IsSub (z ∷ zs) xs → IsSub zs xs
IsSub-tail (skip s) = skip (IsSub-tail s)
IsSub-tail (take_it s) = skip s

IsSub-drop : {z x : Text} {zs xs : List Text} → IsSub (z ∷ zs) (x ∷ xs) → IsSub zs xs
IsSub-drop (skip s) = IsSub-tail s
IsSub-drop (take_it s) = s

IsSub-nil : {z : Text} {zs : List Text} → IsSub (z ∷ zs) [] → ⊥
IsSub-nil s = elim s [ ]

-- The first line is the head, or the head is passed over.
IsSub-split :
    {z x : Text} {zs xs : List Text} → IsSub (z ∷ zs) (x ∷ xs) → (z ≡ x) ⊎ IsSub (z ∷ zs) xs
IsSub-split (skip s) = inr s
IsSub-split (take_it s) = inl refl

-- A subsequence whose first line is another passes over the head.
IsSub-pass :
    {z x : Text} {zs xs : List Text} → (z ≡ x → ⊥) → IsSub (z ∷ zs) (x ∷ xs) → IsSub (z ∷ zs) xs
IsSub-pass ne (skip s) = s
IsSub-pass ne (take_it s) = absurd (ne refl)

lcs-bound : (zs as_ bs : List Text) → IsSub zs as_ → IsSub zs bs → length zs ≤ lcs as_ bs
unfolding lcs
lcs-bound [] as_ bs s t = omega arith
lcs-bound (z ∷ zs) [] bs s t = absurd (IsSub-nil s)
lcs-bound (z ∷ zs) (a ∷ as_) [] s t = absurd (IsSub-nil t)
lcs-bound (z ∷ zs) (a ∷ as_) (b ∷ bs) s t = elim (Bool-cases (text_eq a b)) [
  | inl same_line ↦ rw same_line (omega (arith, lcs-bound zs as_ bs (IsSub-drop s) (IsSub-drop t)))
  | inr differ ↦ rw differ (elim (IsSub-split s) [
    | inl e ↦
        (let tail = IsSub-pass (λ f. cc ((text_eq_iff a b).1 (sym e ∙ f))) t in
          omega (arith, lcs-bound (z ∷ zs) (a ∷ as_) bs s tail))
    | inr tail ↦ omega (arith, lcs-bound (z ∷ zs) as_ (b ∷ bs) tail t)
  ])
]

Fits-start : (as_ bs : List Text) → Fits (dp_table as_ bs) 0 0 as_ bs
Fits-start as_ bs k l = simp zero-add (cell-dp_table as_ bs k l)

-- What the walk keeps stands in both lists.
walk-common :
    (dp : List (List ℕ)) (i j : ℕ) (as_ bs : List Text)
    → IsSub (kept_lines (walk dp i j as_ bs)) as_ × IsSub (kept_lines (walk dp i j as_ bs)) bs
unfolding walk
walk-common dp i j [] [] = (none_left, none_left)
walk-common dp i j (a ∷ as_) [] =
    let rest = walk-common dp (suc i) j as_ [] in (skip rest.0, rest.1)
walk-common dp i j [] (b ∷ bs) = let rest = walk-common dp i (suc j) [] bs in (rest.0, skip rest.1)
walk-common dp i j (a ∷ as_) (b ∷ bs) =
    let both = walk-common dp (suc i) (suc j) as_ bs in
    let down = walk-common dp (suc i) j as_ (b ∷ bs) in
    let right = walk-common dp i (suc j) (a ∷ as_) bs in
    elim (Bool-cases (text_eq a b)) [
      | inl e ↦ rw e (
        take_it both.0,
        subst (λ x. IsSub (x ∷ kept_lines (walk dp (suc i) (suc j) as_ bs)) (b ∷ bs))
            (sym ((text_eq_iff a b).0 e)) (take_it both.1),
      )
      | inr differ ↦ elim (Bool-cases (leb (cell dp i (suc j)) (cell dp (suc i) j))) [
        | inl l ↦ rw (differ, l) (skip down.0, down.1)
        | inr g ↦ rw (differ, g) (right.0, skip right.1)
      ]
    ]

-- The lines that the diff keeps are a common subsequence of the lines of the two texts, and no common
-- subsequence is longer.
pub diff_lines-kept_most :
    (a b : Text)
    → let kept_ones = kept_lines (diff_lines a b) in
      IsSub kept_ones (split 10 a)
      × IsSub kept_ones (split 10 b)
      × ((zs : List Text)
          → IsSub zs (split 10 a)
          → IsSub zs (split 10 b)
          → length zs ≤ length kept_ones)
unfolding diff_lines
diff_lines-kept_most a b =
    let as_ = split 10 a in
    let bs = split 10 b in
    let common = walk-common (dp_table as_ bs) 0 0 as_ bs in
    (
      common.0,
      common.1,
      λ zs s t. omega (
        arith,
        lcs-bound zs as_ bs s t,
        walk-kept (dp_table as_ bs) 0 0 as_ bs (Fits-start as_ bs),
      ),
    )
