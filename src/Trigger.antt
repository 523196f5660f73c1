-- ===== src/Trigger.antt =====
-- The dialog that triggers a run with parameters: triggerParamsDialog of internal/web/static/views.js,
-- and the request of triggerActiveDag.
use cronova.Base.{
  ℕ, zero, suc, Bool, true, false, ◌&&◌, not, List, [], ◌∷◌, ◌++◌, length, Option, none, some, Text,
  is_empty, trim, if◌then◌else◌, ltb, leb,
}
use cronova.Dag.Model.{ℤ, pos, negsuc, Num}
use cronova.Dag.Spec.{put, number_or}
pub mod Sends
mod Samples

pub record Param : Type 0 where
  pub k : Text
  pub v : Text

-- `rows` and `prio`
pub record TriggerDialog : Type 0 where
  pub rows : List Param
  pub prio : ℤ

unfoldable pub blank_param : Param
blank_param = record { k = []; v = [] }

unfoldable pub open_trigger : TriggerDialog
unfolding blank_param
open_trigger = record { rows = blank_param ∷ []; prio = pos 0 }

-- What the inputs and the buttons of the dialog do; a row is given by its index.
pub data TriggerEvent : Type 0 where
  key_typed : ℕ → Text → TriggerEvent
  value_typed : ℕ → Text → TriggerEvent
  prio_typed : Num → TriggerEvent
  row_removed : ℕ → TriggerEvent
  row_added : TriggerEvent

unfoldable pub edit_row : ℕ → (Param → Param) → List Param → List Param
edit_row i f [] = []
edit_row zero f (r ∷ rs) = f r ∷ rs
edit_row (suc i) f (r ∷ rs) = r ∷ edit_row i f rs

-- `rows.splice(i, 1)`
unfoldable pub splice_row : ℕ → List Param → List Param
splice_row i [] = []
splice_row zero (r ∷ rs) = rs
splice_row (suc i) (r ∷ rs) = r ∷ splice_row i rs

-- `if (!rows.length) rows = [{ k: "", v: "" }]`
unfoldable pub some_rows : List Param → List Param
unfolding blank_param
some_rows [] = blank_param ∷ []
some_rows (r ∷ rs) = r ∷ rs

unfoldable pub trigger_step : TriggerEvent → TriggerDialog → TriggerDialog
unfolding edit_row splice_row some_rows blank_param
trigger_step (key_typed i t) s = record s {
  rows = edit_row i (λ (r : Param). record r { k = t }) s.rows;
}
trigger_step (value_typed i t) s = record s {
  rows = edit_row i (λ (r : Param). record r { v = t }) s.rows;
}
trigger_step (prio_typed n) s = record s { prio = number_or (pos 0) n }
trigger_step (row_removed i) s = record s { rows = some_rows (splice_row i s.rows) }
trigger_step row_added s = record s { rows = s.rows ++ blank_param ∷ [] }

unfoldable pub trigger_run : List TriggerEvent → TriggerDialog → TriggerDialog
unfolding trigger_step
trigger_run [] s = s
trigger_run (e ∷ es) s = trigger_run es (trigger_step e s)

-- The rows as the object `params`, from those there are already.
unfoldable pub params_from : List (Text × Text) → List Param → List (Text × Text)
unfolding put trim
params_from ps [] = ps
params_from ps (r ∷ rs) = params_from (if is_empty (trim r.k) then ps else put (trim r.k) r.v ps) rs

-- `Math.max(-100, Math.min(100, z))`
unfoldable pub clamp : ℤ → ℤ
clamp (pos n) = pos (if ltb 100 n then 100 else n)
clamp (negsuc n) = negsuc (if ltb 99 n then 99 else n)

unfoldable pub is_zero : ℤ → Bool
is_zero (pos zero) = true
is_zero (pos (suc n)) = false
is_zero (negsuc n) = false

-- The body of the request; it has none if both fields are missing.
pub record TriggerBody : Type 0 where
  pub params : Option (List (Text × Text))
  pub priority : Option ℤ

-- `triggerActiveDag` up to its request, for parameters and a priority
unfoldable pub trigger_body : List (Text × Text) → ℤ → TriggerBody
unfolding clamp is_zero
trigger_body params priority = record {
  params = if leb (length params) 0 then none else some params;
  priority = if is_zero (clamp priority) then none else some (clamp priority);
}

-- `$("tp-go").onclick`
unfoldable pub trigger_go : TriggerDialog → TriggerBody
unfolding trigger_body params_from
trigger_go s = trigger_body (params_from [] s.rows) s.prio
