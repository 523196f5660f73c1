-- ===== src/Dag/Load/Headers.antt =====
-- The headers of an HTTP task as lines of text, and read back.
use cronova.Base.{
  ◌≡◌, refl, sym, ap, ◌∙◌, true, false, not, ◌==◌, List, [], ◌∷◌, ◌++◌, map, Text, all, is_empty,
  trim, split, split_from-end, split_from-sep, arith, All, span-append, text_eq,
}
use mathlib.Core.List.{append-nil, append_assoc}
use cronova.Dag.Spec.{put, header_parts, header_line, header_lines, parse_header_lines}
use cronova.Dag.Load.{join, header_text}

-- A header that can be written on a line: a name with no colon and no blank round it, a value with
-- no blank round it, and no line break in either.
pub record IsHeader (h : Text × Text) : Type 0 where
  pub some_name : is_empty h.0 ≡ false
  pub trimmed_name : trim h.0 ≡ h.0
  pub trimmed_value : trim h.1 ≡ h.1
  pub no_colon : all (λ c. not (c == b':')) h.0 ≡ true
  pub one_line : all (λ c. not (c == 10)) (header_text h) ≡ true

-- No name of `hs` is `k`.
abbrev pub IsNew : Text → List (Text × Text) → Type 0
IsNew k hs = All (λ h. text_eq h.0 k ≡ false) hs

-- Every name differs from those before it.
abbrev pub IsDistinct : List (Text × Text) → List (Text × Text) → Type 0
IsDistinct seen [] = Unit
IsDistinct seen (h ∷ hs) = IsNew h.0 seen × IsDistinct (seen ++ h ∷ []) hs

put-new :
    (k v : Text) (seen : List (Text × Text)) → IsNew k seen → put k v seen ≡ seen ++ (k, v) ∷ []
unfolding put
put-new k v [] n = refl
put-new k v ((j, w) ∷ seen) n = ground (arith, put-new k v seen n.1)

trim-space : (s : Text) → trim (32 ∷ s) ≡ trim s
unfolding trim
trim-space s = refl

header_line-header_text :
    (seen : List (Text × Text)) (h : Text × Text)
    → IsHeader h
    → IsNew h.0 seen
    → header_line seen (header_text h) ≡ seen ++ h ∷ []
unfolding header_line header_parts
header_line-header_text seen ([], v) i n = absurd (cc (i.some_name))
header_line-header_text seen (c ∷ k, v) i n =
    rw (span-append (λ c. not (c == b':')) (c ∷ k) b':' (32 ∷ v) i.no_colon refl, header_line)
      (rw (i.trimmed_name, trim-space v, i.trimmed_value) (put-new (c ∷ k) v seen n))

-- Lines joined by line breaks are split back.
split-join :
    (line : Text) (lines : List Text)
    → All (λ l. all (λ c. not (c == 10)) l ≡ true) (line ∷ lines)
    → split 10 (join (10 ∷ []) (line ∷ lines)) ≡ line ∷ lines
unfolding split join
split-join line [] h = split_from-end 10 line [] h.0
split-join line (next ∷ rest) h =
    split_from-sep 10 line (join (10 ∷ []) (next ∷ rest)) [] h.0
    ∙ ap (◌∷◌ line) (split-join next rest h.1)

header_lines-join :
    (seen hs : List (Text × Text))
    → All IsHeader hs
    → IsDistinct seen hs
    → header_lines seen (map header_text hs) ≡ seen ++ hs
unfolding header_lines
header_lines-join seen [] i d = sym (append-nil seen)
header_lines-join seen (h ∷ hs) i d =
    ap (λ s. header_lines s (map header_text hs)) (header_line-header_text seen h i.0 d.0)
    ∙ header_lines-join (seen ++ h ∷ []) hs i.1 d.1
    ∙ append_assoc seen (h ∷ []) hs

header_texts-one_line :
    (hs : List (Text × Text))
    → All IsHeader hs
    → All (λ l. all (λ c. not (c == 10)) l ≡ true) (map header_text hs)
header_texts-one_line [] i = tt
header_texts-one_line (h ∷ hs) i = (i.0.one_line, header_texts-one_line hs i.1)

-- Headers that can be written on lines, under distinct names, are read back in their order from
-- the text that the form shows.
pub parse_header_lines-join :
    (hs : List (Text × Text))
    → All IsHeader hs
    → IsDistinct [] hs
    → parse_header_lines (join (10 ∷ []) (map header_text hs)) ≡ hs
unfolding parse_header_lines join
parse_header_lines-join [] i d = refl
parse_header_lines-join (h ∷ hs) i d =
    ap (header_lines [])
      (split-join (header_text h) (map header_text hs) (header_texts-one_line (h ∷ hs) i))
    ∙ header_lines-join [] (h ∷ hs) i d
