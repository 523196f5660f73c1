-- ===== src/Diff/Lcs.antt =====
-- The table of `diffLines` against the recursion that defines a longest common subsequence.
use cronova.Base.{
  ℕ, zero, suc, ◌+◌, ◌≡◌, refl, ap, max, List, [], ◌∷◌, Text, text_eq, arith, if◌then◌else◌, get_or,
  drop, length,
}
use cronova.Diff.{next_row, zeros, dp_table, cell}

unfoldable pub lcs : List Text → List Text → ℕ
lcs [] bs = 0
lcs (a ∷ as_) [] = 0
lcs (a ∷ as_) (b ∷ bs) =
    let both = lcs as_ bs + 1 in
    let left = lcs as_ (b ∷ bs) in
    let right = lcs (a ∷ as_) bs in if text_eq a b then both else max left right

pub lcs-nil_right : (as_ : List Text) → lcs as_ [] ≡ 0
unfolding lcs
lcs-nil_right [] = refl
lcs-nil_right (a ∷ as_) = refl

get_or-zeros : (bs : List Text) → (j : ℕ) → get_or (zeros bs) j 0 ≡ 0
unfolding zeros
get_or-zeros [] zero = refl
get_or-zeros [] (suc j) = refl
get_or-zeros (b ∷ bs) zero = refl
get_or-zeros (b ∷ bs) (suc j) = get_or-zeros bs j

get_or-next_row :
    (a : Text) (as_ bs : List Text) (below : List ℕ)
    → ((j : ℕ) → get_or below j 0 ≡ lcs as_ (drop j bs))
    → length below ≡ suc (length bs)
    → (j : ℕ) → get_or (next_row a bs below) j 0 ≡ lcs (a ∷ as_) (drop j bs)
unfolding next_row lcs
get_or-next_row a as_ [] below h n zero = refl
get_or-next_row a as_ [] below h n (suc j) = refl
get_or-next_row a as_ (b ∷ bs) [] h n j = absurd (omega arith)
get_or-next_row a as_ (b ∷ bs) (d ∷ below) h n zero =
    ground (arith, h 0, h 1, get_or-next_row a as_ bs below (λ k. h (suc k)) (omega arith) 0)
get_or-next_row a as_ (b ∷ bs) (d ∷ below) h n (suc j) =
    get_or-next_row a as_ bs below (λ k. h (suc k)) (omega arith) j

length-zeros : (bs : List Text) → length (zeros bs) ≡ suc (length bs)
unfolding zeros
length-zeros [] = refl
length-zeros (b ∷ bs) = ap suc (length-zeros bs)

length-next_row :
    (a : Text) (bs : List Text) (below : List ℕ) → length (next_row a bs below) ≡ suc (length bs)
unfolding next_row
length-next_row a [] below = refl
length-next_row a (b ∷ bs) [] = ap suc (length-next_row a bs [])
length-next_row a (b ∷ bs) (d ∷ below) = ap suc (length-next_row a bs below)

length-head-dp_table :
    (as_ bs : List Text) → length (get_or (dp_table as_ bs) 0 []) ≡ suc (length bs)
unfolding dp_table
length-head-dp_table [] bs = length-zeros bs
length-head-dp_table (a ∷ as_) bs = length-next_row a bs _

-- Every cell of the table, those out of its range read as 0, is the length for the two suffixes.
pub cell-dp_table :
    (as_ bs : List Text) (i j : ℕ) → cell (dp_table as_ bs) i j ≡ lcs (drop i as_) (drop j bs)
unfolding dp_table cell lcs
cell-dp_table [] bs zero j = get_or-zeros bs j
cell-dp_table [] bs (suc i) j = refl
cell-dp_table (a ∷ as_) bs zero j =
    get_or-next_row a as_ bs (get_or (dp_table as_ bs) 0 []) (cell-dp_table as_ bs 0)
      (length-head-dp_table as_ bs) j
cell-dp_table (a ∷ as_) bs (suc i) j = cell-dp_table as_ bs i j
