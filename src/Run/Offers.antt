-- ===== src/Run/Offers.antt =====
-- What the page of a run offers agrees between its parts, and its bar stays within its track.
use native.Mathlib.Nat.{le-div_iff_mul-le}
use cronova.Base.{
  ℕ, ◌+◌, ◌*◌, ◌/◌, ◌≤◌, ◌<◌, ◌≡◌, refl, Bool, true, false, not, Bool-cases, inl, inr, List, [],
  ◌∷◌, any, keep, length, length-keep-le, Text, if◌then◌else◌, leb, leb→le, arith,
}
use cronova.Run.Poll.{run_live}
use cronova.Run.Actions.{
  TaskRun, task_terminal, task_retryable, ActionMode, no_actions, cancel_only, mark_only,
  retry_and_mark, action_mode, row_retries, round_percent, meter_width,
}

abbrev pub offers_retry : ActionMode → Bool
offers_retry no_actions = false
offers_retry cancel_only = false
offers_retry mark_only = false
offers_retry retry_and_mark = true

any-row_retries :
    (v : Bool) (st : Text) (ts : List TaskRun)
    → any (row_retries v st) ts ≡ (
        if any (λ (t : TaskRun). task_retryable t.state) ts
        then (if run_live st then false else not v)
        else false)
unfolding row_retries
any-row_retries v st [] = refl
any-row_retries v st (t ∷ ts) = ground (arith, any-row_retries v st ts)

-- The retry of a whole run is offered exactly where the table offers it for one of its tasks.
action_mode-row_retries :
    (v : Bool) (st : Text) (ts : List TaskRun)
    → offers_retry (action_mode v st ts) ≡ any (row_retries v st) ts
unfolding action_mode
action_mode-row_retries v st ts = ground (arith, any-row_retries v st ts)

round_percent-le : (a b : ℕ) → a ≤ b → 0 < b → round_percent a b ≤ 100
unfolding round_percent
round_percent-le a b h z = elim (Bool-cases (leb (round_percent a b) 100)) [
  | inl small ↦ leb→le (round_percent a b) 100 small
  | inr large ↦
      (let high : 101 ≤ (200 * a + b) / (2 * b) = ground arith in
        let pos : 0 < 2 * b = omega arith in omega (arith, (le-div_iff_mul-le pos).0 high))
]

-- The bar of a run with tasks is at least 4 and at most 100 percent wide.
meter_width-bounds :
    (ts : List TaskRun) → 0 < length ts → (4 ≤ meter_width ts) × (meter_width ts ≤ 100)
unfolding meter_width
meter_width-bounds ts h =
    let done : ℕ = length (keep (λ (t : TaskRun). task_terminal t.state) ts) in
    let within : round_percent done (length ts) ≤ 100 =
      round_percent-le done (length ts) (length-keep-le (λ (t : TaskRun). task_terminal t.state) ts)
        h in
    (ground arith, ground arith)
