-- ===== src/Base/Strings.antt =====
-- JavaScript strings as lists of code units, with the string methods that the console calls.
use Prim.Native.Char.{code}
use Prim.Native.String.{String}
use Prim.Native.Nat.{ℕ}
use mathlib.Core.Path.{◌≡◌, refl, sym, ap, ◌∙◌}
use mathlib.Core.Logic.{◌↔◌, ◌⊎◌, inl, inr}
use mathlib.Core.Bool.{Bool, true, false, ◌&&◌, ◌||◌, not}
use mathlib.Core.List.{List, [], ◌∷◌, ◌++◌, reverse, reverse-cons, append-nil, append_assoc}
use native.Mathlib.Omega.{arith}
use cronova.Base.Tests.{◌==◌, leb, if◌then◌else◌}
use cronova.Base.Lists.{any, all}

abbrev pub Text : Type 0
Text = List ℕ

-- The code units of a literal.
abbrev pub codes : String → Text
codes String.[] = []
codes (String.◌∷◌ c s) = code c ∷ codes s

-- `a === b`
unfoldable pub text_eq : Text → Text → Bool
text_eq [] [] = true
text_eq [] (d ∷ b) = false
text_eq (c ∷ a) [] = false
text_eq (c ∷ a) (d ∷ b) = c == d && text_eq a b

pub text_eq_iff : (a b : Text) → (text_eq a b ≡ true) ↔ (a ≡ b)
unfolding text_eq
text_eq_iff [] [] = ground arith
text_eq_iff [] (d ∷ b) = ground arith
text_eq_iff (c ∷ a) [] = ground arith
text_eq_iff (c ∷ a) (d ∷ b) = ground (arith, text_eq_iff a b)

pub text_eq_self : (a : Text) → text_eq a a ≡ true
text_eq_self a = (text_eq_iff a a).1 refl

-- `xs.includes(a)`, and `has` of a Set that is kept as the list of its members
abbrev pub includes : Text → List Text → Bool
includes a xs = any (λ x. text_eq x a) xs

-- `!s`: the empty string is falsy.
abbrev pub is_empty : Text → Bool
is_empty [] = true
is_empty (c ∷ s) = false

pub Text-cases : (s : Text) → (s ≡ []) ⊎ (is_empty s ≡ false)
Text-cases [] = inl refl
Text-cases (c ∷ s) = inr refl

-- What `trim` and the `\s` of a pattern take for white space.
unfoldable pub is_space : ℕ → Bool
is_space c =
    c == 32
    || leb 9 c && leb c 13
    || c == 0xa0
    || c == 0x1680
    || leb 0x2000 c && leb c 0x200a
    || c == 0x2028
    || c == 0x2029
    || c == 0x202f
    || c == 0x205f
    || c == 0x3000
    || c == 0xfeff

unfoldable pub trim_start : Text → Text
trim_start [] = []
trim_start (c ∷ s) = let rest = trim_start s in if is_space c then rest else c ∷ s

-- `s.trim()`
unfoldable pub trim : Text → Text
unfolding trim_start is_space
trim s = reverse (trim_start (reverse (trim_start s)))

unfoldable pub is_digit : ℕ → Bool
is_digit c = leb b'0' c && leb c b'9'

unfoldable pub is_alnum : ℕ → Bool
unfolding is_digit
is_alnum c = is_digit c || leb b'A' c && leb c b'Z' || leb b'a' c && leb c b'z'

-- `s.split(sep)` for a separator of one code unit: never empty.
unfoldable pub split_from : ℕ → Text → Text → List Text
split_from sep [] cur = reverse cur ∷ []
split_from sep (c ∷ s) cur =
    let cut = split_from sep s [] in
    let more = split_from sep s (c ∷ cur) in if c == sep then reverse cur ∷ cut else more

unfoldable pub split : ℕ → Text → List Text
unfolding split_from
split sep s = split_from sep s []

-- The last line, and a line before a separator, where the line holds no separator.
pub split_from-end :
    (sep : ℕ) (line cur : Text)
    → all (λ c. not (c == sep)) line ≡ true
    → split_from sep line cur ≡ (reverse cur ++ line) ∷ []
unfolding split_from
split_from-end sep [] cur h = rw append-nil refl
split_from-end sep (c ∷ line) cur h = ground (
  arith,
  split_from-end sep line (c ∷ cur),
  ap (λ (r : Text). r ++ line) (reverse-cons c cur),
  append_assoc (reverse cur) (c ∷ []) line,
)

pub split_from-sep :
    (sep : ℕ) (line rest cur : Text)
    → all (λ c. not (c == sep)) line ≡ true
    → split_from sep (line ++ sep ∷ rest) cur ≡ (reverse cur ++ line) ∷ split_from sep rest []
unfolding split_from
split_from-sep sep [] rest cur h = ground (arith, append-nil (reverse cur))
split_from-sep sep (c ∷ line) rest cur h = ground (
  arith,
  split_from-sep sep line rest (c ∷ cur),
  ap (λ (r : Text). r ++ line) (reverse-cons c cur),
  append_assoc (reverse cur) (c ∷ []) line,
)

-- Two names of one text agree on any third.
pub text_eq_cong : (a b c : Text) → text_eq a b ≡ true → text_eq a c ≡ text_eq b c
text_eq_cong a b c h = ap (λ t. text_eq t c) ((text_eq_iff a b).0 h)

pub text_apart : (a b c : Text) → text_eq a b ≡ false → text_eq b c ≡ true → text_eq a c ≡ false
text_apart a b c h k = sym (ap (λ t. text_eq a t) ((text_eq_iff b c).0 k)) ∙ h
