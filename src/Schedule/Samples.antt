-- ===== src/Schedule/Samples.antt =====
-- Runs of the schedule controls, and the theorems at concrete forms.
use cronova.Base.{
  is_space, is_digit, read_nat, ◌≡◌, refl, inl, inr, false, List, [], ◌∷◌, codes, print_nat,
}
use cronova.Dag.Model.{pos, num, manual, every, cron, Form}
use cronova.Schedule.{is_positive, print_int, match_every, parse_schedule_state, compute_schedule}
use cronova.Schedule.Controls.{
  Control, pick_mode, type_interval, pick_unit, type_cron, type_start, controls, controls-IsWritten,
}
use cronova.Schedule.RoundTrip.{
  IsInterval, parse_schedule_state-compute_schedule, compute_schedule-parse_schedule_state,
}

abbrev pub empty_form : Form
empty_form = record {
  dag_id = codes "etl";
  schedule = [];
  start_date = [];
  catchup = false;
  paused = false;
  max_active_runs = num (pos 1);
  default_retries = num (pos 0);
  execution_policy = [];
  trigger_after = [];
  notify_url = [];
  notify_on = [];
  notify_format = [];
  notify_group = [];
  sla = num (pos 0);
  dagrun_timeout = num (pos 0);
  definition_hash = [];
  sched_mode = manual;
  sched_every = pos 5;
  sched_unit = codes "m";
  sched_cron = [];
}

abbrev half_hourly : Form
half_hourly = record empty_form { sched_mode = every; sched_every = pos 30 }

abbrev loose : Form
loose = record empty_form { schedule = codes "@every  05m" }

loose_rewritten : (compute_schedule (parse_schedule_state loose)).schedule ≡ codes "@every 5m"
unfolding compute_schedule parse_schedule_state match_every is_positive print_int print_nat
loose_rewritten = refl

parse_schedule_state-compute_schedule_example :
    ((parse_schedule_state (compute_schedule half_hourly)).sched_mode ≡ every)
    × ((parse_schedule_state (compute_schedule half_hourly)).sched_every ≡ pos 30)
    × ((parse_schedule_state (compute_schedule half_hourly)).sched_unit ≡ codes "m")
parse_schedule_state-compute_schedule_example =
    parse_schedule_state-compute_schedule half_hourly 29 refl refl (inr (inl refl))

loose-IsInterval : IsInterval (codes "@every  05m") (codes "  ") (codes "05") (codes "m")
unfolding is_space is_digit
loose-IsInterval = record {
  spelled = refl;
  some_gap = refl;
  gap_spaces = refl;
  some_digits = refl;
  all_digits = refl;
  unit_known = inr (inl refl);
}

compute_schedule-parse_schedule_state_example :
    (compute_schedule (parse_schedule_state loose)).schedule ≡ codes "@every 5m"
unfolding read_nat print_nat
compute_schedule-parse_schedule_state_example =
    compute_schedule-parse_schedule_state loose (codes "  ") (codes "05") (codes "m")
      loose-IsInterval

abbrev uses : List Control
uses =
    pick_mode every
    ∷ type_interval (num (pos 15))
    ∷ pick_unit (codes "h")
    ∷ type_start (codes "2024-01-01")
    ∷ pick_mode cron
    ∷ type_cron (codes " 0 2 * * * ")
    ∷ []

controls-IsWritten_example :
    (compute_schedule (controls empty_form uses)).schedule ≡ (controls empty_form uses).schedule
unfolding compute_schedule
controls-IsWritten_example = controls-IsWritten empty_form uses refl
