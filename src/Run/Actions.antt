-- ===== src/Run/Actions.antt =====
-- The actions and the progress of a run's page: TASK_TERMINAL, TASK_RETRYABLE, renderRunActions,
-- renderRunDynamic, openDefaultRunLog and the choice of the novice page's log in views.js.
use cronova.Base.{
  ℕ, ◌+◌, ◌*◌, ◌/◌, max, Bool, false, ◌||◌, not, List, [], ◌∷◌, any, keep, find, length, Option,
  none, some, Text, codes, text_eq, ◌==◌, if◌then◌else◌,
}
use mathlib.Core.List.{reverse}
use cronova.Run.Poll.{run_live}

-- What the page reads of a task of the run.
pub record TaskRun : Type 0 where
  pub id : ℕ
  pub task_id : Text
  pub state : Text

unfoldable pub task_terminal : Text → Bool
unfolding text_eq
task_terminal s =
    text_eq s (codes "success")
    || text_eq s (codes "failed")
    || text_eq s (codes "upstream_failed")
    || text_eq s (codes "skipped")
    || text_eq s (codes "cancelled")
    || text_eq s (codes "timed_out")

unfoldable pub task_retryable : Text → Bool
unfolding text_eq
task_retryable s =
    text_eq s (codes "failed")
    || text_eq s (codes "upstream_failed")
    || text_eq s (codes "cancelled")
    || text_eq s (codes "timed_out")

-- `mode` of renderRunActions
pub data ActionMode : Type 0 where
  no_actions cancel_only mark_only retry_and_mark : ActionMode

unfoldable pub action_mode : Bool → Text → List TaskRun → ActionMode
action_mode is_viewer state tasks =
    let can_retry = any (λ (t : TaskRun). task_retryable t.state) tasks in
    if is_viewer
    then no_actions
    else if run_live state
    then cancel_only
    else if can_retry
    then retry_and_mark
    else mark_only

-- Whether a row of the table has its button for a retry: `TASK_RETRYABLE[tk.state] && canRetry`.
unfoldable pub row_retries : Bool → Text → TaskRun → Bool
row_retries is_viewer state t =
    if task_retryable t.state then (if run_live state then false else not is_viewer) else false

-- `Math.round(a / b * 100)`, up to the rounding of the machine's fractions
unfoldable pub round_percent : ℕ → ℕ → ℕ
round_percent a b = (200 * a + b) / (2 * b)

-- The width of the bar of the progress, in percent.
unfoldable pub meter_width : List TaskRun → ℕ
meter_width tasks =
    let done = length (keep (λ (t : TaskRun). task_terminal t.state) tasks) in
    if length tasks == 0 then 0 else max 4 (round_percent done (length tasks))

-- `a || b`
abbrev pub or_first {ℓ} : {A : Type ℓ} → Option A → Option A → Option A
or_first none b = b
or_first (some a) b = some a

-- The log that a page opens by itself.
unfoldable pub default_log : List TaskRun → Option TaskRun
unfolding text_eq
default_log ts = or_first (find (λ (t : TaskRun). text_eq t.state (codes "running")) ts) (
    or_first (find (λ (t : TaskRun). not (task_terminal t.state)) ts)
      (elim ts [ [] ↦ none | t ∷ r ↦ some t ]))

-- `if (!tk || !tk.id) return;`
unfoldable pub with_id : Option TaskRun → Option TaskRun
with_id none = none
with_id (some t) = if t.id == 0 then none else some t

-- The log that openDefaultRunLog opens, given whether one has been.
unfoldable pub open_default_log : Bool → List TaskRun → Option TaskRun
unfolding default_log with_id
open_default_log opened ts = if opened then none else with_id (default_log ts)

-- The log of the novice page, given the step that is pinned.
unfoldable pub novice_log : Option TaskRun → List TaskRun → Option TaskRun
unfolding text_eq
novice_log pin ts = or_first pin (
    or_first (find (λ (t : TaskRun). text_eq t.state (codes "running")) ts) (
      or_first
        (find
          (λ (t : TaskRun). text_eq t.state (codes "failed") || text_eq t.state (codes "timed_out"))
          ts)
        (or_first (find (λ (t : TaskRun). task_terminal t.state) (reverse ts))
          (elim ts [ [] ↦ none | t ∷ r ↦ some t ]))))
