-- ===== src/I18n/Labels.antt =====
-- The labels of internal/web/static/base.js and views.js for the server's words: states, types of
-- runs, next times, roles, actions of the audit trail.
use cronova.Base.{
  not, ◌&&◌, List, [], ◌∷◌, ◌++◌, Option, none, some, Text, codes, text_eq, is_empty, is_digit,
  span, strip_prefix, if◌then◌else◌,
}
use cronova.I18n.Phrases.{String, word}
use cronova.I18n.{Lang, zh, en, entry, t}

-- `a ?? b`
abbrev pub get_or_else {ℓ} : {A : Type ℓ} → Option A → A → A
get_or_else none b = b
get_or_else (some a) b = a

unfoldable pub label : List (String × String) → Text → Option Text
unfolding entry
label m k = elim (entry m k) [ none ↦ none | some s ↦ some (codes s) ]

-- `STATE`
unfoldable pub states : Lang → List (String × String)
states zh =
    ("success", "成功")
    ∷ ("failed", "失败")
    ∷ ("running", "运行中")
    ∷ ("queued", "排队")
    ∷ ("scheduled", "待运行")
    ∷ ("up_for_retry", "重试中")
    ∷ ("upstream_failed", "上游失败")
    ∷ ("skipped", "跳过")
    ∷ ("cancelled", "已取消")
    ∷ ("timed_out", "超时")
    ∷ ("", "未运行")
    ∷ ("none", "未运行")
    ∷ []
states en =
    ("success", "success")
    ∷ ("failed", "failed")
    ∷ ("running", "running")
    ∷ ("queued", "queued")
    ∷ ("scheduled", "scheduled")
    ∷ ("up_for_retry", "retrying")
    ∷ ("upstream_failed", "upstream failed")
    ∷ ("skipped", "skipped")
    ∷ ("cancelled", "cancelled")
    ∷ ("timed_out", "timed out")
    ∷ ("", "no runs")
    ∷ ("none", "no runs")
    ∷ []

-- `TYPEL`
unfoldable pub run_types : Lang → List (String × String)
run_types zh =
    ("schedule", "定时")
    ∷ ("manual", "手动")
    ∷ ("dependency", "依赖")
    ∷ ("event", "事件")
    ∷ ("backfill", "回填")
    ∷ ("subdag", "子流程")
    ∷ []
run_types en =
    ("schedule", "scheduled")
    ∷ ("manual", "manual")
    ∷ ("dependency", "dependency")
    ∷ ("event", "event")
    ∷ ("backfill", "backfill")
    ∷ ("subdag", "sub-workflow")
    ∷ []

unfoldable pub state_label : Lang → Text → Text
unfolding label states
state_label l s = get_or_else (label (states l) s) (get_or_else (label (states zh) s) s)

unfoldable pub type_label : Lang → Text → Text
unfolding label run_types
type_label l s = get_or_else (label (run_types l) s) s

-- `/^in (\d+)m$/`, and its group
unfoldable pub in_minutes : Text → Option Text
unfolding strip_prefix span is_digit text_eq
in_minutes s = elim (strip_prefix (codes "in ") s) [
  | none ↦ none
  | some r ↦
      (let run = span is_digit r in
        if not (is_empty run.0) && text_eq run.1 (codes "m") then some run.0 else none)
]

unfoldable pub next_label : Lang → Text → Text
unfolding text_eq t in_minutes
next_label l s =
    if text_eq s (codes "paused")
    then t l (codes "nx_paused") []
    else if text_eq s (codes "due")
    then t l (codes "nx_due") []
    else elim (in_minutes s) [ none ↦ s | some n ↦ t l (codes "nx_in") (word n ∷ []) ]

unfoldable pub desc_label : Lang → Text → Text
unfolding text_eq t
desc_label l d = if text_eq d (codes "manual trigger") then t l (codes "manual_trigger") [] else d

unfoldable pub role_label : Lang → Text → Text
unfolding text_eq t
role_label l r =
    if text_eq r (codes "viewer")
    then t l (codes "role_viewer_ro") []
    else if text_eq r (codes "operator")
    then t l (codes "role_operator") []
    else t l (codes "role_admin_full") []

-- `const v = t(k); v === k ? d : v`
unfoldable pub phrase_or : Lang → Text → Text → Text
unfolding text_eq t
phrase_or l k d = let v = t l k [] in if text_eq v k then d else v

unfoldable pub audit_action_label : Lang → Text → Text
unfolding phrase_or
audit_action_label l a = phrase_or l (codes "act_" ++ a) a
