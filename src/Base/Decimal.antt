-- ===== src/Base/Decimal.antt =====
-- Numbers in decimal: how a template literal prints one and how `+s` and `parseInt` read digits.
use Prim.Native.Nat.{ℕ, zero, suc, ◌+◌, ◌-◌, ◌*◌, ◌/◌, ◌%◌, ◌<◌}
use mathlib.Core.Path.{◌≡◌, refl, ◌∙◌, ap}
use mathlib.Core.Logic.{inl, inr}
use mathlib.Core.Bool.{true}
use mathlib.Core.List.{[], ◌∷◌, ◌++◌}
use native.Mathlib.Omega.{arith}
use cronova.Base.Tests.{ltb, if◌then◌else◌, Bool-cases}
use cronova.Base.Lists.{all}
use cronova.Base.Strings.{Text, is_digit}

-- The digits of `n` before `rest`, with fuel.
unfoldable pub print_from : ℕ → ℕ → Text → Text
print_from zero n rest = rest
print_from (suc fuel) n rest =
    let more = print_from fuel (n / 10) ((48 + n % 10) ∷ rest) in
    if ltb n 10 then (48 + n) ∷ rest else more

-- `${n}`
unfoldable pub print_nat : ℕ → Text
unfolding print_from
print_nat n = print_from (suc n) n []

unfoldable pub read_from : ℕ → Text → ℕ
read_from acc [] = acc
read_from acc (c ∷ s) = read_from (acc * 10 + (c - 48)) s

-- `+s` for a text of digits
unfoldable pub read_nat : Text → ℕ
unfolding read_from
read_nat s = read_from 0 s

pub read_from-append :
    (acc : ℕ) (s rest : Text) → read_from acc (s ++ rest) ≡ read_from (read_from acc s) rest
unfolding read_from
read_from-append acc [] rest = refl
read_from-append acc (c ∷ s) rest = read_from-append (acc * 10 + (c - 48)) s rest

read_from-print_from :
    (fuel n : ℕ) (rest : Text) → n < fuel → read_from 0 (print_from fuel n rest) ≡ read_from n rest
unfolding print_from read_from
read_from-print_from zero n rest h = elim h [ ]
read_from-print_from (suc fuel) n rest h = elim (Bool-cases (ltb n 10)) [
  | inl small ↦ rw small (ap (λ k. read_from k rest) (omega arith))
  | inr large ↦ rw large (
      read_from-print_from fuel (n / 10) ((48 + n % 10) ∷ rest) (ground arith)
      ∙ ap (λ k. read_from k rest) (omega arith))
]

-- Reading a printed number gives it back.
pub read_nat-print_nat : (n : ℕ) → read_nat (print_nat n) ≡ n
unfolding print_nat read_nat
read_nat-print_nat n = read_from-print_from (suc n) n [] (omega arith)

all-print_from :
    (fuel n : ℕ) (rest : Text)
    → all is_digit rest ≡ true
    → all is_digit (print_from fuel n rest) ≡ true
unfolding print_from is_digit
all-print_from zero n rest h = h
all-print_from (suc fuel) n rest h =
    ground (arith, all-print_from fuel (n / 10) ((48 + n % 10) ∷ rest))

-- A printed number is digits only.
pub all-print_nat : (n : ℕ) → all is_digit (print_nat n) ≡ true
unfolding print_nat
all-print_nat n = all-print_from (suc n) n [] refl

print_from_cons :
    (fuel n : ℕ) (rest : Text) → n < fuel → (c : ℕ) × (s : Text) × (print_from fuel n rest ≡ c ∷ s)
unfolding print_from
print_from_cons zero n rest h = elim h [ ]
print_from_cons (suc fuel) n rest h = elim (Bool-cases (ltb n 10)) [
  | inl small ↦ (48 + n, rest, rw small)
  | inr large ↦ rw large (print_from_cons fuel (n / 10) ((48 + n % 10) ∷ rest) (ground arith))
]

-- A printed number has a first digit.
pub print_nat_cons : (n : ℕ) → (c : ℕ) × (s : Text) × (print_nat n ≡ c ∷ s)
unfolding print_nat
print_nat_cons n = print_from_cons (suc n) n [] (omega arith)
