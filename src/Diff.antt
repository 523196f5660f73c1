-- ===== src/Diff.antt =====
-- The line diff of the pending-definition preview: `diffLines` of internal/web/static/views.js.
pub mod Lcs
pub mod Sides
pub mod Optimal
mod Samples
use cronova.Base.{
  ℕ, suc, ◌+◌, max, Bool, true, false, List, [], ◌∷◌, Text, text_eq, leb, if◌then◌else◌, get_or,
  split,
}

-- The `k` of a row: `" "`, `"-"` and `"+"`.
pub data Mark : Type 0 where
  same del add : Mark

pub record Row : Type 0 where
  pub k : Mark
  pub s : Text

pub zeros : List Text → List ℕ
zeros [] = 0 ∷ []
zeros (b ∷ bs) = 0 ∷ zeros bs

-- The inner loop: row `i` of the table from the line `A[i]`, the lines of `B` from `j` on, and row
-- `i + 1` from `j` on. It fills from the right, where `dp[i][m]` is 0.
pub next_row : Text → List Text → List ℕ → List ℕ
next_row a [] below = 0 ∷ []
next_row a (b ∷ bs) [] = 0 ∷ next_row a bs []
next_row a (b ∷ bs) (d ∷ below) =
    let right = next_row a bs below in
    (if text_eq a b then get_or below 0 0 + 1 else max d (get_or right 0 0)) ∷ right

-- The outer loop: the rows from `i` on.
pub dp_table : List Text → List Text → List (List ℕ)
unfolding next_row zeros
dp_table [] bs = zeros bs ∷ []
dp_table (a ∷ as_) bs = let rows = dp_table as_ bs in next_row a bs (get_or rows 0 []) ∷ rows

pub cell : List (List ℕ) → ℕ → ℕ → ℕ
cell dp i j = get_or (get_or dp i []) j 0

-- The three `while` loops, at `i` and `j` with the lines from there on.
pub walk : List (List ℕ) → (i j : ℕ) → List Text → List Text → List Row
unfolding cell
walk dp i j [] [] = []
walk dp i j (a ∷ as_) [] = record { k = del; s = a } ∷ walk dp (suc i) j as_ []
walk dp i j [] (b ∷ bs) = record { k = add; s = b } ∷ walk dp i (suc j) [] bs
walk dp i j (a ∷ as_) (b ∷ bs) =
    let both = record { k = same; s = a } ∷ walk dp (suc i) (suc j) as_ bs in
    let left = record { k = del; s = a } ∷ walk dp (suc i) j as_ (b ∷ bs) in
    let right = record { k = add; s = b } ∷ walk dp i (suc j) (a ∷ as_) bs in
    if text_eq a b
    then both
    else if leb (cell dp i (suc j)) (cell dp (suc i) j)
    then left
    else right

pub diff_rows : List Text → List Text → List Row
unfolding walk dp_table
diff_rows as_ bs = walk (dp_table as_ bs) 0 0 as_ bs

-- `split("\n")` of both texts first.
pub diff_lines : Text → Text → List Row
unfolding diff_rows split
diff_lines a b = diff_rows (split 10 a) (split 10 b)
