-- ===== src/I18n/Samples.antt =====
-- Tests of the translations, and the theorems at concrete keys.
use cronova.Base.{◌≡◌, refl, [], ◌∷◌, codes, text_eq, strip_prefix, span, is_digit}
use cronova.I18n.Phrases.{word, show}
use cronova.I18n.{zh, en, dict, entry, t, translate}
use cronova.I18n.Complete.{option_arity, entry-en_zh}
use cronova.I18n.Labels.{
  state_label, next_label, audit_action_label, phrase_or, label, states, in_minutes,
}

next_label_test : next_label en (codes "in 25m") ≡ t en (codes "nx_in") (word (codes "25") ∷ [])
unfolding next_label text_eq in_minutes strip_prefix span is_digit
next_label_test = refl

state_label_test : state_label en (codes "up_for_retry") ≡ codes "retrying"
unfolding state_label label states entry text_eq
state_label_test = refl

entry-en_zh_example :
    option_arity (entry (dict en) (codes "nx_in")) ≡ option_arity (entry (dict zh) (codes "nx_in"))
entry-en_zh_example = entry-en_zh (codes "nx_in")

audit_action_label_test : audit_action_label en (codes "rebuild") ≡ codes "rebuild"
unfolding audit_action_label phrase_or t translate dict entry text_eq show
audit_action_label_test = refl
