-- ===== src/Run/Joined.antt =====
-- Lines joined by line ends, and the text nodes of the box that shows them.
use mathlib.Core.List.{append-nil, append_assoc}
use cronova.Base.{
  ℕ, ◌≤◌, ◌≡◌, ◌⊎◌, refl, sym, ap, ◌∙◌, inl, inr, Bool, true, false, Bool-cases, List, [], ◌∷◌,
  ◌++◌, length, Text, is_empty, leb, arith,
}
use cronova.Run.Tail.{last_of, last_of-short, length-last_of-long}
use cronova.Run.Log.{join_lines, content, text_of, shown_lines, append_line}

pub text_of-content : (s : Text) → text_of (content s) ≡ s
unfolding text_of content
text_of-content [] = refl
text_of-content (c ∷ s) = append-nil (c ∷ s)

text_of-snoc : (ns : List Text) (m : Text) → text_of (ns ++ m ∷ []) ≡ text_of ns ++ m
unfolding text_of
text_of-snoc [] m = append-nil m
text_of-snoc (n ∷ ns) m =
    ap (λ (r : Text). n ++ r) (text_of-snoc ns m) ∙ sym (append_assoc n (text_of ns) m)

join_lines-snoc :
    (a : Text) (r : List Text) (x : Text)
    → join_lines ((a ∷ r) ++ x ∷ []) ≡ join_lines (a ∷ r) ++ b'\n' ∷ x
unfolding join_lines
join_lines-snoc a [] x = refl
join_lines-snoc a (b ∷ r) x =
    ap (λ (s : Text). a ++ b'\n' ∷ s) (join_lines-snoc b r x)
    ∙ sym (append_assoc a (b'\n' ∷ join_lines (b ∷ r)) (b'\n' ∷ x))

-- Whether the first line is blank.
unfoldable pub starts_blank : List Text → Bool
starts_blank [] = false
starts_blank (l ∷ ls) = is_empty l

pub starts_blank-append :
    (r : List Text) (x : Text) (rest : List Text)
    → starts_blank (r ++ x ∷ rest) ≡ starts_blank (r ++ x ∷ [])
unfolding starts_blank
starts_blank-append [] x rest = refl
starts_blank-append (l ∷ r) x rest = refl

pub starts_blank-left : (r q : List Text) → starts_blank (r ++ q) ≡ false → starts_blank r ≡ false
unfolding starts_blank
starts_blank-left [] q h = refl
starts_blank-left (l ∷ r) q h = h

join_lines-nil : (ls : List Text) → join_lines ls ≡ [] → (ls ≡ []) ⊎ (ls ≡ [] ∷ [])
unfolding join_lines
join_lines-nil [] h = inl refl
join_lines-nil (l ∷ []) h = inr (ap (λ (x : Text). x ∷ []) h)
join_lines-nil ([] ∷ m ∷ ls) h = absurd (cc)
join_lines-nil ((c ∷ l) ∷ m ∷ ls) h = absurd (cc)

leb-long : (cap : ℕ) (r : List Text) → leb (length r) cap ≡ false → cap ≤ length r
leb-long cap r h = ground arith

last_of-blank :
    (cap : ℕ) (r : List Text) → 2 ≤ cap → starts_blank r ≡ false → last_of cap r ≡ [] ∷ [] → ⊥
unfolding starts_blank
last_of-blank cap r two b e = elim (Bool-cases (leb (length r) cap)) [
  | inl short ↦
      (let same : r ≡ [] ∷ [] = sym (last_of-short cap r (ground arith)) ∙ e in
        let blank : starts_blank r ≡ true = rw same refl in absurd (cc))
  | inr long ↦ omega (arith, ap length e, length-last_of-long cap r (leb-long cap r long))
]

pub append_line-text :
    (r : List Text) (x : Text) (nodes : List Text)
    → text_of nodes ≡ join_lines r
    → (nodes ≡ [] → r ≡ [])
    → (r ≡ [] → nodes ≡ [])
    → text_of (append_line x nodes) ≡ join_lines (r ++ x ∷ [])
unfolding append_line text_of join_lines
append_line-text r x [] e n k = rw (n refl) (append-nil x)
append_line-text [] x (m ∷ ms) e n k = absurd (let none : m ∷ ms ≡ [] = k refl in cc)
append_line-text (a ∷ r) x (m ∷ ms) e n k =
    text_of-snoc (m ∷ ms) (b'\n' ∷ x)
    ∙ ap (λ (s : Text). s ++ b'\n' ∷ x) e
    ∙ sym (join_lines-snoc a r x)

pub append_line-nil : (x : Text) (nodes : List Text) → append_line x nodes ≡ [] → ⊥
unfolding append_line
append_line-nil x [] h = absurd (cc)
append_line-nil x (n ∷ ns) h = absurd (cc)

pub snoc-nil : (r : List Text) (x : Text) → r ++ x ∷ [] ≡ [] → ⊥
snoc-nil [] x h = absurd (cc)
snoc-nil (l ∷ r) x h = absurd (cc)

content-nil : (s : Text) → content s ≡ [] → s ≡ []
unfolding content
content-nil [] h = refl
content-nil (c ∷ s) h = absurd (cc)

pub shown_lines-all :
    (lower : Text → Text) (f : Text) (ls : List Text)
    → is_empty f ≡ true
    → shown_lines lower f ls ≡ ls
unfolding shown_lines
shown_lines-all lower f ls h = rw h refl

pub join_lines-content :
    (cap : ℕ) (r : List Text)
    → 2 ≤ cap
    → starts_blank r ≡ false
    → content (join_lines (last_of cap r)) ≡ []
    → last_of cap r ≡ []
join_lines-content cap r two b e =
    elim (join_lines-nil (last_of cap r) (content-nil (join_lines (last_of cap r)) e)) [
      | inl none ↦ none
      | inr blank ↦ absurd (last_of-blank cap r two b blank)
    ]
