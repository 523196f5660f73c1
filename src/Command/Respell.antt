-- ===== src/Command/Respell.antt =====
-- What the editor of a command makes of a text that is put into it.
use mathlib.Core.List.{append-nil, append_assoc}
use cronova.Base.{
  ℕ, zero, suc, ◌+◌, ◌-◌, ◌≤◌, length, length-append, Option-cases, inl, inr, subst, codes, ◌≡◌,
  refl, sym, ap, ◌∙◌, Bool, true, false, not, [], ◌∷◌, ◌++◌, all, none, some, Text, ◌==◌, arith,
}
use cronova.Command.Pills.{
  match_template, Nodes, pill_node, no_nodes, one_more, text_first, fill_from, fill_editor,
  drop_anchor, spell, read_nodes, read_editor,
}
use cronova.Command.Variable.{IsVariable, match_template-IsVariable, IsVariable-match_template}

-- The text with each variable spelled with one space on either side of its name.
unfoldable respell_from : ℕ → Text → Text
respell_from k [] = []
respell_from (suc k) (c ∷ s) = respell_from k s
respell_from zero (c ∷ s) = elim (match_template (c ∷ s)) [
  | none ↦ c ∷ respell_from zero s
  | some m ↦ spell m.0 ++ respell_from (m.1 - 1) s
]

-- No anchor of the caret, which is a space of no width.
abbrev pub no_anchor : Text → Bool
no_anchor s = all (λ c. not (c == 0x200b)) s

drop_anchor-none : (s : Text) → no_anchor s ≡ true → drop_anchor s ≡ s
unfolding drop_anchor
drop_anchor-none [] h = refl
drop_anchor-none (c ∷ s) h = ground arith

-- Reading a text that is put first.
read-text_first :
    (lit : Text) (ns : Nodes) (out : Text) (after : Bool)
    → no_anchor lit ≡ true
    → (b : Bool) × (read_nodes (text_first lit ns) (out, after) ≡ read_nodes ns (out ++ lit, b))
unfolding text_first read_nodes
read-text_first [] ns out after h = (after, rw (append-nil out) refl)
read-text_first (c ∷ s) ns out true h = (false, rw (drop_anchor-none (c ∷ s) h) refl)
read-text_first (c ∷ s) ns out false h = (false, refl)

read-pill :
    (name : Text) (ns : Nodes) (out : Text) (after : Bool)
    → (read_nodes (one_more (pill_node name) ns) (out, after)).0
      ≡ (read_nodes ns (out ++ spell name, true)).0
unfolding read_nodes
read-pill name ns out after = refl

no_anchor-snoc :
    (c : ℕ) (s : Text)
    → no_anchor s ≡ true
    → not (c == 0x200b) ≡ true
    → no_anchor (s ++ c ∷ []) ≡ true
no_anchor-snoc c [] h e = ground arith
no_anchor-snoc c (d ∷ s) h e = ground (arith, no_anchor-snoc c s)

fill_from-respell :
    (k : ℕ) (lit s out : Text) (after : Bool)
    → no_anchor lit ≡ true
    → no_anchor s ≡ true
    → (read_nodes (fill_from k lit s) (out, after)).0 ≡ out ++ (lit ++ respell_from k s)
unfolding fill_from respell_from
fill_from-respell k lit [] out after h g =
    let seen = read-text_first lit no_nodes out after h in
    ap (λ (st : Text × Bool). st.0) seen.1
    ∙ unfold read_nodes in ap (λ (t : Text). out ++ t) (sym (append-nil lit))
fill_from-respell (suc k) lit (c ∷ s) out after h g =
    fill_from-respell k lit s out after h (ground arith)
fill_from-respell zero lit (c ∷ s) out after h g =
    elim (match_template (c ∷ s))
      as (λ o.
        (read_nodes
          (elim o [
            | none ↦ fill_from zero (lit ++ c ∷ []) s
            | some m ↦ text_first lit (one_more (pill_node m.0) (fill_from (m.1 - 1) [] s))
          ])
          (out, after)).0
        ≡ out
          ++ (lit ++ (elim o [
            | none ↦ c ∷ respell_from zero s
            | some m ↦ spell m.0 ++ respell_from (m.1 - 1) s
          ]))) [
            | none ↦
                fill_from-respell zero (lit ++ c ∷ []) s out after
                  (no_anchor-snoc c lit h (ground arith)) (ground arith)
                ∙ ap (λ (t : Text). out ++ t) (append_assoc lit (c ∷ []) (respell_from zero s))
            | some m ↦
                (let rest : Text = respell_from (m.1 - 1) s in
                  let seen =
                    read-text_first lit (one_more (pill_node m.0) (fill_from (m.1 - 1) [] s)) out
                      after h in
                  ap (λ (st : Text × Bool). st.0) seen.1
                  ∙ read-pill m.0 (fill_from (m.1 - 1) [] s) (out ++ lit) seen.0
                  ∙ fill_from-respell (m.1 - 1) [] s ((out ++ lit) ++ spell m.0) true refl
                      (ground arith)
                  ∙ append_assoc (out ++ lit) (spell m.0) rest
                  ∙ append_assoc out lit (spell m.0 ++ rest))
          ]

respell_from-skip :
    (k : ℕ) (xs ys : Text) → respell_from (length xs + k) (xs ++ ys) ≡ respell_from k ys
unfolding respell_from
respell_from-skip k [] ys = let count : 0 + k ≡ k = omega arith in ap (λ j. respell_from j ys) count
respell_from-skip k (x ∷ xs) ys =
    let count : length (x ∷ xs) + k ≡ suc (length xs + k) = omega arith in
    ap (λ j. respell_from j (x ∷ (xs ++ ys))) count ∙ respell_from-skip k xs ys

-- A text by its variables, from left to right: each is spelled with one space on either side of its
-- name, and a character that starts none is as it was.
pub data Respells : Text → Text → Type 0 where
  nothing_left : Respells [] []
  a_variable :
      (s left name right rest out : Text)
      → IsVariable s left name right rest
      → Respells rest out
      → Respells s (codes "{{ " ++ (name ++ (codes " }}" ++ out)))
  a_character :
      (c : ℕ) (s out : Text)
      → ((left name right rest : Text) → ¬ IsVariable (c ∷ s) left name right rest)
      → Respells s out
      → Respells (c ∷ s) (c ∷ out)

-- What follows a match is respelled from its start.
respell_from-rest :
    (c : ℕ) (s left name right rest : Text)
    → IsVariable (c ∷ s) left name right rest
    → (respell_from (4 + length left + length name + length right - 1) s ≡ respell_from 0 rest)
      × (length rest ≤ length s)
unfolding respell_from
respell_from-rest c s left name right rest v =
    let shape : s ≡ b'{' ∷ (left ++ (name ++ (right ++ (codes "}}" ++ rest)))) =
      ap (λ (t : Text). elim t as (λ x. Text) [ [] ↦ [] | d ∷ ds ↦ ds ]) v.spelled in
    let count : 4 + length left + length name + length right - 1
        ≡ suc (length left + (length name + (length right + 2))) =
      omega arith in
    (
      rw (count, shape)
          (respell_from-skip (length name + (length right + 2)) left
              (name ++ (right ++ (codes "}}" ++ rest)))
            ∙ respell_from-skip (length right + 2) name (right ++ (codes "}}" ++ rest))
            ∙ respell_from-skip 2 right (codes "}}" ++ rest)),
      rw shape (
          omega (
            arith,
            length-append left (name ++ (right ++ (codes "}}" ++ rest))),
            length-append name (right ++ (codes "}}" ++ rest)),
            length-append right (codes "}}" ++ rest),
          )),
    )

respell_from-variable :
    (c : ℕ) (s name out : Text) (k : ℕ)
    → match_template (c ∷ s) ≡ some (name, k)
    → respell_from (k - 1) s ≡ out
    → respell_from 0 (c ∷ s) ≡ codes "{{ " ++ (name ++ (codes " }}" ++ out))
unfolding respell_from spell
respell_from-variable c s name out k found e =
    rw (respell_from, found, e) (ap (λ t. codes "{{ " ++ t) (append_assoc name (codes " }}") out))

Respells-respell_from : (n : ℕ) (s : Text) → length s ≤ n → Respells s (respell_from 0 s)
unfolding respell_from
Respells-respell_from n [] h = nothing_left
Respells-respell_from zero (c ∷ s) h = absurd (omega (arith, h))
Respells-respell_from (suc n) (c ∷ s) h = elim (Option-cases (match_template (c ∷ s))) [
  | inl other ↦
      rw (respell_from, other)
        (a_character c s (respell_from 0 s)
          (λ left name right rest v.
            let (m, found) = IsVariable-match_template (c ∷ s) left name right rest v in
            absurd (cc))
          (Respells-respell_from n s (omega (arith, h))))
  | inr (m, found) ↦
      (let (left, right, rest, v, count) = match_template-IsVariable (c ∷ s) m found in
        let (after, shorter) = respell_from-rest c s left m.0 right rest v in
        let more : Respells rest (respell_from 0 rest) =
          Respells-respell_from n rest (omega (arith, h, shorter)) in
        let out : respell_from 0 (c ∷ s)
            ≡ codes "{{ " ++ (m.0 ++ (codes " }}" ++ respell_from 0 rest)) =
          respell_from-variable c s m.0 (respell_from 0 rest) m.1 found
            (ap (λ k. respell_from (k - 1) s) count ∙ after) in
        subst (λ o. Respells (c ∷ s) o) (sym out)
          (a_variable (c ∷ s) left m.0 right rest (respell_from 0 rest) v more))
]

-- What is read from the editor of a command, after a text that holds no anchor of the caret was put
-- into it: read from left to right, each variable of the text (a name of letters, digits, `_` and `.`
-- between double braces, with any white space around it) stands with one space on either side of its
-- name, and every other character stands as it was.
pub read_editor-fill_editor :
    (s : Text) → all (λ c. not (c == 0x200b)) s ≡ true → Respells s (read_editor (fill_editor s))
unfolding read_editor fill_editor
read_editor-fill_editor s h =
    let same : read_editor (fill_editor s) ≡ respell_from 0 s =
      fill_from-respell 0 [] s [] false refl h in
    subst (λ t. Respells s t) (sym same) (Respells-respell_from (length s) s (omega arith))
