-- ===== src/Wizard/Create.antt =====
-- The end of the wizard: `createAndRunWizard` and `wzDailyCron`.
pub mod Sends
use cronova.Base.{
  ℕ, suc, ◌+◌, ◌==◌, Bool, true, false, ◌&&◌, List, [], ◌∷◌, ◌++◌, map, Option, none, some, ◌⊎◌,
  inl, inr, Text, codes, is_empty, trim, is_digit, if◌then◌else◌, span, leb, length, print_nat,
  read_nat, max,
}
use cronova.Build.{Build, BuildTask, build_task}
use cronova.Wizard.{
  Wizard, Timing, daily, interval, on_demand, Refusal, server, Step, wz_steps, wz_validate,
}

-- `\d{1,2}`
abbrev one_or_two : Text → Bool
one_or_two ds = leb 1 (length ds) && leb (length ds) 2

-- `(\d{1,2})$` after the hours.
minutes_end : Text → Text × Text → Option (Text × Text)
minutes_end h (m, []) = if one_or_two m then some (h, m) else none
minutes_end h (m, c ∷ r) = none

-- `:(\d{1,2})$` after the hours.
colon_end : Text × Text → Option (Text × Text)
unfolding minutes_end span is_digit
colon_end (h, []) = none
colon_end (h, c ∷ r) = if one_or_two h && c == b':' then minutes_end h (span is_digit r) else none

-- `/^(\d{1,2}):(\d{1,2})$/`
pub match_time : Text → Option (Text × Text)
unfolding colon_end span is_digit
match_time hm = colon_end (span is_digit hm)

-- `${+m[2]} ${+m[1]} * * *`
abbrev cron_line : Text → Text → Text
cron_line h m = print_nat (read_nat m) ++ (32 ∷ print_nat (read_nat h)) ++ codes " * * *"

unfoldable pub wz_daily_cron : Text → Text
unfolding match_time print_nat read_nat
wz_daily_cron hm = elim (match_time hm) [
  | some (h, m) ↦ cron_line h m
  | none ↦ cron_line (codes "2") (codes "0")
]

pub wz_schedule : Timing → Wizard → Text
unfolding wz_daily_cron print_nat
wz_schedule daily w = wz_daily_cron w.daily_time
wz_schedule interval w = codes "@every " ++ print_nat (max 1 w.interval_n) ++ codes "m"
wz_schedule on_demand w = []

pub wz_build : Wizard → Build
unfolding wz_schedule build_task wz_steps
wz_build w = record {
  dag_id = trim w.name;
  schedule = wz_schedule w.timing w;
  start_date = [];
  catchup = false;
  max_active_runs = 1;
  default_retries = 2;
  trigger_after = [];
  tasks = map (λ s. build_task s.step_id s.cmd s.dep_ids) (wz_steps w);
}

-- Up to the first request: what is wrong, or what is sent.
unfoldable pub create : Wizard → Refusal ⊎ Build
unfolding wz_validate wz_build
create w = elim (wz_validate w) [ some e ↦ inl e | none ↦ inr (wz_build w) ]

-- The answers of the two requests. A run without an id is taken for none.
pub data BuildAnswer : Type 0 where
  built : BuildAnswer
  build_error : Text → BuildAnswer

pub data TriggerAnswer : Type 0 where
  started : Text → TriggerAnswer
  trigger_error : Text → TriggerAnswer

pub data Landing : Type 0 where
  stay_in_wizard : Landing
  to_run to_dag : Text → Landing

landing : TriggerAnswer → Text → Landing
landing (started r) name = if is_empty r then to_dag name else to_run r
landing (trigger_error m) name = to_dag name

-- The wizard that is left, `none` for a finished one, and the page that is shown.
unfoldable pub after_build : BuildAnswer → TriggerAnswer → Wizard → Option Wizard × Landing
unfolding landing
after_build (build_error m) _ w = (some (record w { err = some (server m) }), stay_in_wizard)
after_build built a w = (none, landing a (trim w.name))
