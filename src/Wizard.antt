-- ===== src/Wizard.antt =====
-- The wizard for a first definition: its state, the controls of its three steps and the request it
-- ends with (internal/web/static/builder.js).
pub mod Ready
pub mod Create
mod Samples
use cronova.Base.{
  ℕ, zero, suc, ◌+◌, ◌-◌, ◌==◌, Bool, true, false, ◌&&◌, ◌||◌, not, List, [], ◌∷◌, ◌++◌, map,
  Option, none, some, Text, codes, text_eq, includes, is_empty, trim, is_digit, any, if◌then◌else◌,
  strip_prefix, span, leb, length, print_nat, read_nat,
}
use cronova.Dag.Model.{ℤ, pos, negsuc, Num, blank, num}
use cronova.Dag.Validate.{id_re, is_blank}
use cronova.Dag.Spec.{put}

pub data Template : Type 0 where
  etl report one_step : Template

-- A step of a template; `dep_ids` is empty where the source has none.
pub record Step : Type 0 where
  pub step_id : Text
  pub cmd : Text
  pub dep_ids : List Text

unfoldable pub steps_of : Template → List Step
steps_of etl =
    record { step_id = codes "extract"; cmd = codes "sleep 1 && echo extract"; dep_ids = [] }
    ∷ record {
      step_id = codes "transform";
      cmd = codes "sleep 1 && echo transform";
      dep_ids = codes "extract" ∷ [];
    }
    ∷ record {
      step_id = codes "load";
      cmd = codes "sleep 1 && echo load run={{ run_id }}";
      dep_ids = codes "transform" ∷ [];
    }
    ∷ []
steps_of report =
    record { step_id = codes "fetch"; cmd = codes "sleep 1 && echo fetch data"; dep_ids = [] }
    ∷ record {
      step_id = codes "render";
      cmd = codes "sleep 1 && echo render report";
      dep_ids = codes "fetch" ∷ [];
    }
    ∷ []
steps_of one_step =
    record { step_id = codes "step_1"; cmd = codes "echo hello cronova"; dep_ids = [] } ∷ []

pub default_name : Template → Text
default_name etl = codes "my_daily_etl"
default_name report = codes "daily_report"
default_name one_step = codes "my_first_flow"

pub preset_time : Template → Option Text
preset_time report = some (codes "08:00")
preset_time etl = none
preset_time one_step = none

pub same_template : Template → Template → Bool
same_template etl etl = true
same_template report report = true
same_template one_step one_step = true
same_template _ _ = false

pub data Timing : Type 0 where
  daily interval on_demand : Timing

-- The messages that `wzValidate` localises, and one from the server.
pub data Refusal : Type 0 where
  bad_name taken_name empty_command : Refusal
  server : Text → Refusal

-- `W`. `existing` is `none` until the list of definitions has come.
pub record Wizard : Type 0 where
  pub step_no : ℕ
  pub tpl : Template
  pub name : Text
  pub name_touched : Bool
  pub cmd_edits : List (Text × Text)
  pub timing : Timing
  pub daily_time : Text
  pub interval_n : ℕ
  pub existing : Option (List Text)
  pub err : Option Refusal

unfoldable pub fresh_wizard : Wizard
unfolding default_name
fresh_wizard = record {
  step_no = 1;
  tpl = etl;
  name = default_name etl;
  name_touched = false;
  cmd_edits = [];
  timing = daily;
  daily_time = codes "02:00";
  interval_n = 30;
  existing = none;
  err = none;
}

unfoldable pub lookup : List (Text × Text) → Text → Option Text
lookup [] i = none
lookup ((j, v) ∷ m) i = if text_eq j i then some v else lookup m i

-- `{ ...s, cmd: edits[s.id] ?? s.cmd }`
pub edited : List (Text × Text) → Step → Step
unfolding lookup
edited m s = elim (lookup m s.step_id) [ some v ↦ record s { cmd = v } | none ↦ s ]

unfoldable pub wz_steps : Wizard → List Step
unfolding edited steps_of
wz_steps w = map (edited w.cmd_edits) (steps_of w.tpl)

-- `W.existing && W.existing.has(name)`
abbrev pub is_taken : Wizard → Text → Bool
is_taken w name = elim (w.existing) [ some l ↦ includes name l | none ↦ false ]

unfoldable pub wz_validate : Wizard → Option Refusal
unfolding id_re
wz_validate w =
    if not (id_re (trim w.name))
    then some bad_name
    else if is_taken w (trim w.name)
    then some taken_name
    else if any (λ s. is_blank s.cmd) (wz_steps w)
    then some empty_command
    else none

-- What the field of the name says while it is typed in.
unfoldable pub name_hint : Wizard → Text → Option Refusal
unfolding id_re
name_hint w name =
    if is_empty name
    then none
    else if not (id_re name)
    then some bad_name
    else if is_taken w name
    then some taken_name
    else none

-- `s.includes(p)`
pub contains : Text → Text → Bool
unfolding strip_prefix
contains p [] = is_empty p
contains p (c ∷ s) =
    let later = contains p s in elim (strip_prefix p (c ∷ s)) [ some r ↦ true | none ↦ later ]

-- `Math.max(1, +value || 1)`
pub at_least_1 : Num → ℕ
at_least_1 blank = 1
at_least_1 (num (pos zero)) = 1
at_least_1 (num (pos (suc n))) = suc n
at_least_1 (num (negsuc n)) = 1

-- The controls, and the arrival of the list of definitions (empty where its request failed).
pub data WizardEvent : Type 0 where
  list_loaded : List Text → WizardEvent
  go_back go_prev go_next insert_date : WizardEvent
  pick_template : Template → WizardEvent
  type_name : Text → WizardEvent
  type_command : Text → Text → WizardEvent
  pick_timing : Timing → WizardEvent
  set_time : Text → WizardEvent
  set_interval : Num → WizardEvent

-- `W.step--`
abbrev previous : Wizard → Wizard
previous w = record w { step_no = w.step_no - 1; err = none }

-- The step is shown only if it is `n`.
abbrev at : ℕ → Wizard → Wizard → Wizard
at n w w' = if w.step_no == n then w' else w

pub advance : Wizard → Wizard
unfolding wz_validate
advance w =
    if w.step_no == 1
    then record w { step_no = suc w.step_no; err = none }
    else if w.step_no == 2
    then elim (wz_validate w) [
      | some e ↦ record w { err = some e }
      | none ↦ record w { step_no = suc w.step_no; err = none }
    ]
    else w

seed_time : Option Text → Wizard → Wizard
seed_time none w = w
seed_time (some hm) w = record w { timing = daily; daily_time = hm }

pub choose : Template → Wizard → Wizard
unfolding seed_time same_template default_name preset_time
choose key w =
    if same_template w.tpl key
    then w
    else seed_time (preset_time key) (record w {
      tpl = key;
      cmd_edits = [];
      name = if w.name_touched then w.name else default_name key;
    })

-- The handler of the chip that adds the date to the first command.
pub add_date : List Step → Wizard → Wizard
unfolding contains put
add_date [] w = w
add_date (s ∷ ss) w = if contains (codes "logical_date") s.cmd then w else record w {
  cmd_edits = put s.step_id (s.cmd ++ codes " --date {{ logical_date }}") w.cmd_edits;
}

unfoldable pub wz_step : Wizard → WizardEvent → Wizard
unfolding advance choose add_date put at_least_1 name_hint wz_steps
wz_step w (list_loaded l) = record w { existing = some l }
wz_step w go_back = if w.step_no == 1 then record w { err = none } else previous w
wz_step w go_prev = if leb 2 w.step_no then previous w else w
wz_step w go_next = advance w
wz_step w (pick_template key) = at 1 w (choose key w)
wz_step w (type_name v) =
    at 2 w (record w { name = trim v; name_touched = true; err = name_hint w (trim v) })
wz_step w (type_command i v) = at 2 w (record w { cmd_edits = put i v w.cmd_edits })
wz_step w insert_date = at 2 w (add_date (wz_steps w) w)
wz_step w (pick_timing m) = at 3 w (record w { timing = m })
wz_step w (set_time v) =
    at 3 w (record w { timing = daily; daily_time = if is_empty v then w.daily_time else v })
wz_step w (set_interval v) = at 3 w (record w { timing = interval; interval_n = at_least_1 v })

unfoldable pub wz_run : Wizard → List WizardEvent → Wizard
wz_run w [] = w
wz_run w (v ∷ vs) = wz_run (wz_step w v) vs
