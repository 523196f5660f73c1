-- ===== src/Schedule.antt =====
-- The schedule controls: the mode, interval and cron text that `parseScheduleState` reads off a
-- schedule and `computeSchedule` writes back (internal/web/static/builder.js).
pub mod RoundTrip
pub mod Stable
pub mod Controls
pub mod Samples
use cronova.Base.{
  ℕ, suc, ◌+◌, Bool, true, false, ◌||◌, ◌==◌, ltb, List, [], ◌∷◌, ◌++◌, Option, none, some, ◌>>=◌,
  Text, codes, trim, is_digit, is_empty, if◌then◌else◌, strip_prefix, skip_spaces, span, read_nat,
  print_nat,
}
use cronova.Dag.Model.{ℤ, pos, negsuc, Mode, manual, every, cron, Form}

-- `(s|m|h)$`
pub unit_end : Text → Option Text
unit_end [] = none
unit_end (c ∷ []) = if c == b's' || c == b'm' || c == b'h' then some (c ∷ []) else none
unit_end (c ∷ d ∷ r) = none

-- `(\d+)(s|m|h)$`
pub interval_end : Text × Text → Option (ℕ × Text)
unfolding unit_end read_nat
interval_end ([], r) = none
interval_end (d ∷ ds, r) = unit_end r >>= λ u. some (read_nat (d ∷ ds), u)

-- `/^@every\s+(\d+)(s|m|h)$/`
unfoldable pub match_every : Text → Option (ℕ × Text)
unfolding interval_end strip_prefix skip_spaces span is_digit
match_every s =
    strip_prefix (codes "@every") s >>= skip_spaces >>= λ r. interval_end (span is_digit r)

unfoldable pub parse_schedule_state : Form → Form
parse_schedule_state dag =
    let base = record dag {
      sched_mode = manual;
      sched_every = pos 5;
      sched_unit = codes "m";
      sched_cron = [];
    } in
    elim (is_empty dag.schedule) [
      | true ↦ base
      | false ↦ elim (match_every dag.schedule) [
        | some (n, u) ↦ record base { sched_mode = every; sched_every = pos n; sched_unit = u }
        | none ↦ record base { sched_mode = cron; sched_cron = dag.schedule }
      ]
    ]

-- `${n}` of an integer
unfoldable pub print_int : ℤ → Text
print_int (pos n) = print_nat n
print_int (negsuc n) = b'-' ∷ print_nat (suc n)

pub is_positive : ℤ → Bool
is_positive (pos n) = ltb 0 n
is_positive (negsuc n) = false

pub schedule_of : Mode → Form → Text
schedule_of manual d = []
schedule_of every d =
    if is_positive d.sched_every
    then codes "@every " ++ print_int d.sched_every ++ d.sched_unit
    else []
schedule_of cron d = trim d.sched_cron

unfoldable pub compute_schedule : Form → Form
unfolding schedule_of
compute_schedule d = record d { schedule = schedule_of d.sched_mode d }
