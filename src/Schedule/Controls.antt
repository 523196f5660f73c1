-- ===== src/Schedule/Controls.antt =====
-- The schedule controls in use: `wireSchedModes` and `wireSchedBody` of
-- internal/web/static/builder.js.
use cronova.Base.{◌≡◌, ◌∙◌, refl, ap, Bool, List, [], ◌∷◌, Text}
use cronova.Dag.Model.{ℤ, Num, Mode, manual, every, cron, Form}
use cronova.Schedule.{compute_schedule, schedule_of}
use cronova.Dag.Model.{pos, blank, num}
use cronova.Schedule.Stable.{compute_schedule_idem}

-- `+value || 0`
pub interval_of : Num → ℤ
interval_of blank = pos 0
interval_of (num z) = z

-- A mode, the interval and its unit, the cron text typed or taken from a preset or an example, the
-- start and the catch-up.
pub data Control : Type 0 where
  pick_mode : Mode → Control
  type_interval : Num → Control
  pick_unit type_cron pick_cron type_start : Text → Control
  set_catchup : Bool → Control

unfoldable pub control : Form → Control → Form
unfolding compute_schedule interval_of
control d (pick_mode m) = compute_schedule (record d { sched_mode = m })
control d (type_interval x) = compute_schedule (record d { sched_every = interval_of x })
control d (pick_unit u) = compute_schedule (record d { sched_unit = u })
control d (type_cron s) = compute_schedule (record d { sched_cron = s })
control d (pick_cron s) = compute_schedule (record d { sched_cron = s })
control d (type_start s) = record d { start_date = s }
control d (set_catchup b) = record d { catchup = b }

unfoldable pub controls : Form → List Control → Form
unfolding control
controls d [] = d
controls d (c ∷ cs) = controls (control d c) cs

schedule_of-start_date :
    (m : Mode) (d : Form) (v : Text) (b : Bool)
    → schedule_of m (record d { start_date = v; catchup = b }) ≡ schedule_of m d
unfolding schedule_of
schedule_of-start_date manual d v b = refl
schedule_of-start_date every d v b = refl
schedule_of-start_date cron d v b = refl

-- The schedule is the one that the controls say.
abbrev pub IsWritten : Form → Type 0
IsWritten d = (compute_schedule d).schedule ≡ d.schedule

written : (d : Form) → IsWritten (compute_schedule d)
written d = ap (λ (f : Form). f.schedule) (compute_schedule_idem d)

control-IsWritten : (d : Form) (c : Control) → IsWritten d → IsWritten (control d c)
unfolding control
control-IsWritten d (pick_mode m) h = written (record d { sched_mode = m })
control-IsWritten d (type_interval x) h = written (record d { sched_every = interval_of x })
control-IsWritten d (pick_unit u) h = written (record d { sched_unit = u })
control-IsWritten d (type_cron v) h = written (record d { sched_cron = v })
control-IsWritten d (pick_cron v) h = written (record d { sched_cron = v })
control-IsWritten d (type_start v) h =
    unfold compute_schedule in schedule_of-start_date d.sched_mode d v d.catchup ∙ h
control-IsWritten d (set_catchup b) h =
    unfold compute_schedule in schedule_of-start_date d.sched_mode d d.start_date b ∙ h

-- Where the schedule is the one that the controls say, it still is after any use of them: writing
-- it again, as a save does, leaves it as the preview showed it.
pub controls-IsWritten :
    (d : Form) (cs : List Control)
    → (compute_schedule d).schedule ≡ d.schedule
    → (compute_schedule (controls d cs)).schedule ≡ (controls d cs).schedule
unfolding controls
controls-IsWritten d [] h = h
controls-IsWritten d (c ∷ cs) h = controls-IsWritten (control d c) cs (control-IsWritten d c h)
