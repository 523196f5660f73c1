-- ===== src/Diff/Sides.antt =====
-- The diff keeps both texts: what each side of `diff_lines` reads back.
use cronova.Base.{ℕ, suc, ◌≡◌, refl, ap, List, [], ◌∷◌, Text, text_eq_iff, arith, split}
use cronova.Diff.{del, add, Row, walk, diff_lines, dp_table}

-- The lines of the rows that are not additions.
abbrev pub old_side : List Row → List Text
old_side [] = []
old_side (r ∷ rs) = elim r.k [ add ↦ old_side rs | _ ↦ r.s ∷ old_side rs ]

-- The lines of the rows that are not deletions.
abbrev pub new_side : List Row → List Text
new_side [] = []
new_side (r ∷ rs) = elim r.k [ del ↦ new_side rs | _ ↦ r.s ∷ new_side rs ]

walk-old_side :
    (dp : List (List ℕ)) (i j : ℕ) (as_ bs : List Text) → old_side (walk dp i j as_ bs) ≡ as_
unfolding walk
walk-old_side dp i j [] [] = refl
walk-old_side dp i j (a ∷ as_) [] = ap (◌∷◌ a) (walk-old_side dp (suc i) j as_ [])
walk-old_side dp i j [] (b ∷ bs) = walk-old_side dp i (suc j) [] bs
walk-old_side dp i j (a ∷ as_) (b ∷ bs) = ground (
  arith,
  walk-old_side dp (suc i) (suc j) as_ bs,
  walk-old_side dp (suc i) j as_ (b ∷ bs),
  walk-old_side dp i (suc j) (a ∷ as_) bs,
)

walk-new_side :
    (dp : List (List ℕ)) (i j : ℕ) (as_ bs : List Text) → new_side (walk dp i j as_ bs) ≡ bs
unfolding walk
walk-new_side dp i j [] [] = refl
walk-new_side dp i j (a ∷ as_) [] = walk-new_side dp (suc i) j as_ []
walk-new_side dp i j [] (b ∷ bs) = ap (◌∷◌ b) (walk-new_side dp i (suc j) [] bs)
walk-new_side dp i j (a ∷ as_) (b ∷ bs) = ground (
  arith,
  text_eq_iff a b,
  walk-new_side dp (suc i) (suc j) as_ bs,
  walk-new_side dp (suc i) j as_ (b ∷ bs),
  walk-new_side dp i (suc j) (a ∷ as_) bs,
)

-- The rows kept or deleted are the lines of the first text in order, and the rows kept or added
-- are the lines of the second text in order.
pub diff_lines-sides :
    (a b : Text)
    → (old_side (diff_lines a b) ≡ split 10 a) × (new_side (diff_lines a b) ≡ split 10 b)
unfolding diff_lines
diff_lines-sides a b = (
  walk-old_side (dp_table (split 10 a) (split 10 b)) 0 0 (split 10 a) (split 10 b),
  walk-new_side (dp_table (split 10 a) (split 10 b)) 0 0 (split 10 a) (split 10 b),
)
