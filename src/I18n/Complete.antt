-- ===== src/I18n/Complete.antt =====
-- The two dictionaries have the same keys, with phrases of as many arguments.
use cronova.Base.{
  ℕ, ◌≡◌, refl, sym, ap, ◌∙◌, Bool-cases, inl, inr, List, [], ◌∷◌, map, Option, none, some, Text,
  codes, text_eq,
}
use cronova.I18n.Phrases.{String, Phrase, words, with1, with2}
use cronova.I18n.{zh, en, dict, entry}

-- The number of arguments.
pub arity : Phrase → ℕ
arity (words s) = 0
arity (with1 f) = 1
arity (with2 f) = 2

unfoldable pub option_arity : Option Phrase → Option ℕ
unfolding arity
option_arity none = none
option_arity (some p) = some (arity p)

abbrev arities : List (String × Phrase) → List (String × ℕ)
arities m = map (λ e. (e.0, arity e.1)) m

entry-arities :
    (m : List (String × Phrase)) (k : Text) → option_arity (entry m k) ≡ entry (arities m) k
unfolding entry option_arity
entry-arities [] k = refl
entry-arities ((j, p) ∷ m) k = elim (Bool-cases (text_eq (codes j) k)) [
  | inl e ↦ rw e refl
  | inr e ↦ rw e (entry-arities m k)
]

arities-same : arities (dict en) ≡ arities (dict zh)
unfolding dict arity
arities-same = refl

-- Every key stands in both dictionaries or in neither, and where it stands the phrases take as many
-- arguments.
pub entry-en_zh : (k : Text) → option_arity (entry (dict en) k) ≡ option_arity (entry (dict zh) k)
entry-en_zh k =
    entry-arities (dict en) k
    ∙ ap (λ (m : List (String × ℕ)). entry m k) arities-same
    ∙ sym (entry-arities (dict zh) k)
