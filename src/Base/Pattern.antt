-- ===== src/Base/Pattern.antt =====
-- The pieces of the source's regular expressions: prefixes and greedy runs.
use Prim.Native.Nat.{ℕ}
use mathlib.Core.Path.{◌≡◌, refl}
use mathlib.Core.Bool.{Bool, true, false}
use mathlib.Core.Option.{Option, none, some}
use mathlib.Core.List.{[], ◌∷◌, ◌++◌}
use native.Mathlib.Omega.{arith}
use cronova.Base.Tests.{◌==◌, if◌then◌else◌}
use cronova.Base.Lists.{all}
use cronova.Base.Strings.{Text, is_space}

-- What follows a fixed text.
unfoldable pub strip_prefix : Text → Text → Option Text
strip_prefix [] s = some s
strip_prefix (c ∷ p) [] = none
strip_prefix (c ∷ p) (d ∷ s) = let rest = strip_prefix p s in if c == d then rest else none

-- A greedy run of code units that pass the test, and what follows it.
unfoldable pub span : (ℕ → Bool) → Text → Text × Text
span p [] = ([], [])
span p (c ∷ s) = let run = span p s in if p c then (c ∷ run.0, run.1) else ([], c ∷ s)

-- `\s+`
unfoldable pub skip_spaces : Text → Option Text
unfolding span is_space
skip_spaces s = let run = span is_space s in elim run.0 [ [] ↦ none | c ∷ r ↦ some run.1 ]

pub strip_prefix-append : (p s : Text) → strip_prefix p (p ++ s) ≡ some s
unfolding strip_prefix
strip_prefix-append [] s = refl
strip_prefix-append (c ∷ p) s = ground (arith, strip_prefix-append p s)

-- A run ends at a code unit that fails the test.
pub span-append :
    (p : ℕ → Bool) (run : Text) (c : ℕ) (rest : Text)
    → all p run ≡ true
    → p c ≡ false
    → span p (run ++ c ∷ rest) ≡ (run, c ∷ rest)
unfolding span
span-append p [] c rest h e = rw e
span-append p (d ∷ run) c rest h e = ground (arith, span-append p run c rest)

pub span-all : (p : ℕ → Bool) (run : Text) → all p run ≡ true → span p run ≡ (run, [])
unfolding span
span-all p [] h = refl
span-all p (d ∷ run) h = ground (arith, span-all p run)
