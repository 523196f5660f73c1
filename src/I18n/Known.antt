-- ===== src/I18n/Known.antt =====
-- A phrase is never its own key where the key has an underscore, so the test of `t`'s result against
-- such a key finds the keys that the dictionary does not have.
use cronova.Base.{
  ◌≡◌, refl, sym, ap, ◌∙◌, Bool, true, false, not, Bool-cases, inl, inr, List, [], ◌∷◌, ◌++◌, all,
  any, ◌==◌, ◌||◌, subst, Option, none, some, Option-cases, Text, codes, text_eq, text_eq_iff,
  text_eq_self, arith,
}
use cronova.I18n.Phrases.{String, Phrase, show}
use cronova.I18n.{Lang, zh, en, dict, entry, call, translate, t}
use cronova.I18n.Complete.{option_arity, entry-en_zh}
use cronova.I18n.Labels.{phrase_or, audit_action_label}

-- The wording of an entry, or the fallback.
abbrev pub wording : Option Phrase → Text → Text
wording none d = d
wording (some p) d = call p []

abbrev has_underscore : Text → Bool
has_underscore k = any (λ c. c == b'_') k

unfoldable differs : String × Phrase → Bool
unfolding text_eq call
differs (j, p) = not (has_underscore (codes j)) || not (text_eq (call p []) (codes j))

differs-zh : all differs (dict zh) ≡ true
unfolding dict differs show
differs-zh = refl

differs-en : all differs (dict en) ≡ true
unfolding dict differs show
differs-en = refl

entry-differs :
    (m : List (String × Phrase)) (k : Text) (p : Phrase)
    → has_underscore k ≡ true
    → all differs m ≡ true
    → entry m k ≡ some p
    → text_eq (call p []) k ≡ false
unfolding entry differs
entry-differs [] k p u h e = absurd (cc)
entry-differs ((j, q) ∷ m) k p u h e = elim (Bool-cases (text_eq (codes j) k)) [
  | inl same ↦
      (let key : codes j ≡ k = (text_eq_iff (codes j) k).0 same in
        let here : entry ((j, q) ∷ m) k ≡ some q = rw same refl in
        let found : some q ≡ some p = sym here ∙ e in
        let own : q ≡ p = cc in
        let apart : text_eq (call q []) (codes j) ≡ false =
          ground (arith, subst (λ x. has_underscore x ≡ true) (sym key) u) in
        subst (λ x. text_eq (call p []) x ≡ false) key
          (subst (λ r. text_eq (call r []) (codes j) ≡ false) own apart))
  | inr other ↦ entry-differs m k p u (ground arith) (ground arith)
]

all-dict : (l : Lang) → all differs (dict l) ≡ true
all-dict zh = differs-zh
all-dict en = differs-en

-- A key is in both dictionaries or in neither.
entry-none : (l : Lang) (k : Text) → entry (dict l) k ≡ none → entry (dict zh) k ≡ none
unfolding option_arity
entry-none zh k e = e
entry-none en k e = elim (Option-cases (entry (dict zh) k)) [
  | inl missing ↦ missing
  | inr (p, found) ↦
      (let same : option_arity none ≡ option_arity (some p) =
          sym (ap option_arity e) ∙ entry-en_zh k ∙ ap option_arity found in
        absurd (cc))
]

-- The phrase of a key that the dictionary has, and else the fallback.
pub phrase_or-entry :
    (l : Lang) (k d : Text)
    → has_underscore k ≡ true
    → phrase_or l k d ≡ wording (entry (dict l) k) d
unfolding phrase_or t translate
phrase_or-entry l k d u = elim (Option-cases (entry (dict l) k)) [
  | inl missing ↦ rw (missing, entry-none l k missing, text_eq_self k) refl
  | inr (p, found) ↦ rw (found, entry-differs (dict l) k p u (all-dict l) found) refl
]

-- The label of an action of the audit trail is the phrase of its key where the dictionary of the
-- language has one, and the action itself where it has none.
audit_action_label-entry :
    (l : Lang) (a : Text) → audit_action_label l a ≡ wording (entry (dict l) (codes "act_" ++ a)) a
unfolding audit_action_label
audit_action_label-entry l a = phrase_or-entry l (codes "act_" ++ a) a refl
