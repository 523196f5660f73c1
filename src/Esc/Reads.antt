-- ===== src/Esc/Reads.antt =====
-- What a browser reads in an escaped text.
use cronova.Base.{
  ℕ, ◌==◌, ◌≡◌, refl, Bool, true, false, Bool-cases, inl, inr, ◌||◌, [], ◌∷◌, ◌++◌, Text, codes,
  arith, subst, any,
}
use cronova.Esc.{esc_char, esc}

-- Ends a text or a quoted attribute.
abbrev pub is_delimiter : ℕ → Bool
is_delimiter c = c == b'<' || c == b'>' || c == b'"'

-- A character reference and its character.
pub data Entity : Text → ℕ → Type 0 where
  amp : Entity (codes "&amp;") b'&'
  lt : Entity (codes "&lt;") b'<'
  gt : Entity (codes "&gt;") b'>'
  quot : Entity (codes "&quot;") b'"'

-- The markup reads as the text, with references and with characters that stand for themselves.
pub data Reads : Text → Text → Type 0 where
  end : Reads [] []
  plain : {c : ℕ} {a s : Text} → (c == b'&') ≡ false → Reads a s → Reads (c ∷ a) (c ∷ s)
  entity : {e : Text} {c : ℕ} {a s : Text} → Entity e c → Reads a s → Reads (e ++ a) (c ∷ s)

-- The one code unit.
Single : ℕ → Text → Type 0
Single c e = (a s : Text) → Reads a s → Reads (e ++ a) (c ∷ s)

-- A reference for the code unit `k`, where `c` is that one.
Single-Entity : (c k : ℕ) (e : Text) → (c == k) ≡ true → Entity e k → Single c e
unfolding Single
Single-Entity c k e t r a s x =
    let same : k ≡ c = ground arith in subst (λ (d : ℕ). Reads (e ++ a) (d ∷ s)) same (entity r x)

esc_char-Single : (c : ℕ) → Single c (esc_char c)
unfolding esc_char
esc_char-Single c = elim (Bool-cases (c == b'&')) [
  | inl t ↦ rw t (Single-Entity c b'&' (codes "&amp;") t amp)
  | inr f ↦ elim (Bool-cases (c == b'<')) [
    | inl t ↦ rw (f, t) (Single-Entity c b'<' (codes "&lt;") t lt)
    | inr g ↦ elim (Bool-cases (c == b'>')) [
      | inl t ↦ rw (f, g, t) (Single-Entity c b'>' (codes "&gt;") t gt)
      | inr h ↦ elim (Bool-cases (c == b'"')) [
        | inl t ↦ rw (f, g, h, t) (Single-Entity c b'"' (codes "&quot;") t quot)
        | inr i ↦ rw (f, g, h, i) (unfold Single in λ a s x. plain f x)
      ]
    ]
  ]
]

esc-Reads : (s : Text) → Reads (esc s) s
unfolding esc Single
esc-Reads [] = end
esc-Reads (c ∷ s) = esc_char-Single c (esc s) s (esc-Reads s)

esc_char-delimiters :
    (c : ℕ) (r : Text) → any is_delimiter r ≡ false → any is_delimiter (esc_char c ++ r) ≡ false
unfolding esc_char
esc_char-delimiters c r h = ground arith

esc-delimiters : (s : Text) → any is_delimiter (esc s) ≡ false
unfolding esc
esc-delimiters [] = refl
esc-delimiters (c ∷ s) = esc_char-delimiters c (esc s) (esc-delimiters s)

-- An escaped text holds no angle bracket and no double quote, and it reads as the text.
pub esc_safe : (s : Text) → (any is_delimiter (esc s) ≡ false) × Reads (esc s) s
esc_safe s = (esc-delimiters s, esc-Reads s)
