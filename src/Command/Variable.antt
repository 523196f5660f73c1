-- ===== src/Command/Variable.antt =====
-- What a variable of a template is, without a parser, and that TPL_RE matches just these.
use cronova.Base.{
  ℕ, ◌+◌, ◌≡◌, refl, sym, ap, ◌∙◌, Bool, true, false, Bool-cases, inl, inr, [], ◌∷◌, ◌++◌, all,
  length, Option, none, some, Option-cases, Text, codes, is_empty, is_space, is_alnum, is_digit,
  span, span-append, strip_prefix, if◌then◌else◌, ◌==◌, ==_iff, ◌>>=◌, arith,
}
use cronova.Command.Pills.{is_name_char, match_template}

-- The text starts with a variable: a name between double braces, with any white space around it.
pub record IsVariable (s left name right rest : Text) : Type 0 where
  pub spelled : s ≡ codes "{{" ++ (left ++ (name ++ (right ++ (codes "}}" ++ rest))))
  pub left_spaces : all is_space left ≡ true
  pub some_name : is_empty name ≡ false
  pub name_chars : all is_name_char name ≡ true
  pub right_spaces : all is_space right ≡ true

span-splits :
    (p : ℕ → Bool) (s : Text) → (s ≡ (span p s).0 ++ (span p s).1) × (all p (span p s).0 ≡ true)
unfolding span
span-splits p [] = (refl, refl)
span-splits p (c ∷ s) = elim (Bool-cases (p c)) [
  | inl passes ↦ rw passes (ap (λ t. c ∷ t) (span-splits p s).0, rw passes (span-splits p s).1)
  | inr fails ↦ rw fails (refl, refl)
]

strip_prefix-splits : (p s a : Text) → strip_prefix p s ≡ some a → s ≡ p ++ a
unfolding strip_prefix
strip_prefix-splits [] s a h = ground arith
strip_prefix-splits (c ∷ p) [] a h = absurd (cc)
strip_prefix-splits (c ∷ p) (d ∷ s) a h = elim (Bool-cases (c == d)) [
  | inl same ↦
      (let one : c ≡ d = (==_iff c d).0 same in
        let rest : s ≡ p ++ a = strip_prefix-splits p s a (ground arith) in cc)
  | inr other ↦ absurd (ground arith)
]

-- The end of a match, once its parts are known.
abbrev closed : Text → Text → Text → Option Text → Option (Text × ℕ)
closed left name right end =
    if is_empty name
    then none
    else end >>= (λ rest. some (name, 4 + length left + length name + length right))

closed-some :
    (left name right : Text) (end : Option Text) (m : Text × ℕ)
    → closed left name right end ≡ some m
    → (is_empty name ≡ false)
      × ((rest : Text) × (end ≡ some rest))
      × (m ≡ (name, 4 + length left + length name + length right))
closed-some left name right end m h = elim (Bool-cases (is_empty name)) [
  | inl nothing ↦ absurd (ground arith)
  | inr named ↦ elim (Option-cases end) [
    | inl unclosed ↦ absurd (ground arith)
    | inr (rest, e) ↦ (named, (rest, e), ground arith)
  ]
]

abbrev after_right : Text → Text → Text × Text → Option (Text × ℕ)
after_right left name right = closed left name right.0 (strip_prefix (codes "}}") right.1)

abbrev after_name : Text → Text × Text → Option (Text × ℕ)
after_name left name = after_right left name.0 (span is_space name.1)

abbrev after_left : Text × Text → Option (Text × ℕ)
after_left left = after_name left.0 (span is_name_char left.1)

abbrev after_open : Text → Option (Text × ℕ)
after_open a = after_left (span is_space a)

after_open-parts :
    (a : Text) (m : Text × ℕ)
    → after_open a ≡ some m
    → (left right rest : Text) × (a ≡ left ++ (m.0 ++ (right ++ (codes "}}" ++ rest))))
      × (all is_space left ≡ true)
      × (is_empty m.0 ≡ false)
      × (all is_name_char m.0 ≡ true)
      × (all is_space right ≡ true)
      × (m.1 ≡ 4 + length left + length m.0 + length right)
after_open-parts a m h =
    let left = span is_space a in
    let name = span is_name_char left.1 in
    let right = span is_space name.1 in
    let (named, (rest, e), same) =
      closed-some left.0 name.0 right.0 (strip_prefix (codes "}}") right.1) m h in
    let one = span-splits is_space a in
    let two = span-splits is_name_char left.1 in
    let three = span-splits is_space name.1 in
    let four : right.1 ≡ codes "}}" ++ rest = strip_prefix-splits (codes "}}") right.1 rest e in
    let here : m.0 ≡ name.0 = ap (λ (x : Text × ℕ). x.0) same in
    let count : m.1 ≡ 4 + length left.0 + length name.0 + length right.0 =
      ap (λ (x : Text × ℕ). x.1) same in
    let last : name.1 ≡ right.0 ++ (codes "}}" ++ rest) = three.0 ∙ ap (λ t. right.0 ++ t) four in
    let middle : left.1 ≡ m.0 ++ (right.0 ++ (codes "}}" ++ rest)) =
      two.0
      ∙ ap (λ t. name.0 ++ t) last
      ∙ ap (λ (n : Text). n ++ (right.0 ++ (codes "}}" ++ rest))) (sym here) in
    let spelled : a ≡ left.0 ++ (m.0 ++ (right.0 ++ (codes "}}" ++ rest))) =
      one.0 ∙ ap (λ t. left.0 ++ t) middle in
    (
      left.0,
      right.0,
      rest,
      spelled,
      one.1,
      ap is_empty here ∙ named,
      ap (all is_name_char) here ∙ two.1,
      three.1,
      count ∙ ap (λ (n : Text). 4 + length left.0 + length n + length right.0) (sym here),
    )

-- What TPL_RE matches is a variable of that name and length.
pub match_template-IsVariable :
    (s : Text) (m : Text × ℕ)
    → match_template s ≡ some m
    → (left right rest : Text) × IsVariable s left m.0 right rest
      × (m.1 ≡ 4 + length left + length m.0 + length right)
unfolding match_template
match_template-IsVariable s m h = elim (Option-cases (strip_prefix (codes "{{") s)) [
  | inl other ↦ absurd (
      let nothing : ◌≡◌ {A = Option (Text × ℕ)} none (some m) =
        sym (ap (λ (o : Option Text). o >>= after_open) other) ∙ h in
      cc)
  | inr (a, e) ↦
      (let inside : after_open a ≡ some m =
          sym (ap (λ (o : Option Text). o >>= after_open) e) ∙ h in
        let (left, right, rest, spelled, lefts, named, names, rights, count) =
          after_open-parts a m inside in
        (
          left,
          right,
          rest,
          record {
            spelled = strip_prefix-splits (codes "{{") s a e ∙ ap (λ t. codes "{{" ++ t) spelled;
            left_spaces = lefts;
            some_name = named;
            name_chars = names;
            right_spaces = rights;
          },
          count,
        ))
]

name_char_not_space : (c : ℕ) → is_name_char c ≡ true → is_space c ≡ false
unfolding is_name_char is_alnum is_digit is_space
name_char_not_space c h = ground arith

space_not_name_char : (c : ℕ) → is_space c ≡ true → is_name_char c ≡ false
unfolding is_name_char is_alnum is_digit is_space
space_not_name_char c h = ground arith

name_ends :
    (name right rest : Text)
    → all is_name_char name ≡ true
    → all is_space right ≡ true
    → span is_name_char (name ++ (right ++ (codes "}}" ++ rest)))
      ≡ (name, right ++ (codes "}}" ++ rest))
unfolding is_name_char is_alnum is_digit
name_ends name [] rest h g = span-append is_name_char name b'}' (b'}' ∷ rest) h refl
name_ends name (c ∷ right) rest h g =
    span-append is_name_char name c (right ++ (codes "}}" ++ rest)) h
      (space_not_name_char c (ground arith))

-- TPL_RE matches every variable.
pub IsVariable-match_template :
    (s left name right rest : Text)
    → IsVariable s left name right rest
    → (m : Text × ℕ) × (match_template s ≡ some m)
unfolding match_template is_space strip_prefix
IsVariable-match_template s left [] right rest v =
    absurd (let some_name : is_empty [] ≡ false = v.some_name in cc)
IsVariable-match_template s left (n ∷ ns) right rest v =
    let tail : Text = right ++ (codes "}}" ++ rest) in
    let first : is_space n ≡ false = name_char_not_space n (ground (arith, v.name_chars)) in
    let one : span is_space (left ++ ((n ∷ ns) ++ tail)) ≡ (left, (n ∷ ns) ++ tail) =
      span-append is_space left n (ns ++ tail) v.left_spaces first in
    let two : span is_name_char ((n ∷ ns) ++ tail) ≡ (n ∷ ns, tail) =
      name_ends (n ∷ ns) right rest v.name_chars v.right_spaces in
    let three : span is_space tail ≡ (right, codes "}}" ++ rest) =
      span-append is_space right b'}' (b'}' ∷ rest) v.right_spaces refl in
    let whole : after_open (left ++ ((n ∷ ns) ++ tail))
        ≡ some (n ∷ ns, 4 + length left + length (n ∷ ns) + length right) =
      ap after_left one ∙ ap (after_name left) two ∙ ap (after_right left (n ∷ ns)) three in
    (
      (n ∷ ns, 4 + length left + length (n ∷ ns) + length right),
      ap match_template v.spelled ∙ whole,
    )
