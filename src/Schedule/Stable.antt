-- ===== src/Schedule/Stable.antt =====
-- The written schedule depends on the controls alone.
use cronova.Base.{◌≡◌, refl, Text}
use cronova.Dag.Model.{Mode, manual, every, cron, Form}
use cronova.Schedule.{schedule_of, compute_schedule}

schedule_of-schedule :
    (m : Mode) (d : Form) (s : Text) → schedule_of m (record d { schedule = s }) ≡ schedule_of m d
unfolding schedule_of
schedule_of-schedule manual d s = refl
schedule_of-schedule every d s = refl
schedule_of-schedule cron d s = refl

schedule_of-definition_hash :
    (m : Mode) (d : Form) (h : Text)
    → schedule_of m (record d { definition_hash = h }) ≡ schedule_of m d
unfolding schedule_of
schedule_of-definition_hash manual d h = refl
schedule_of-definition_hash every d h = refl
schedule_of-definition_hash cron d h = refl

pub compute_schedule_idem : (d : Form) → compute_schedule (compute_schedule d) ≡ compute_schedule d
unfolding compute_schedule
compute_schedule_idem d = rw (schedule_of-schedule d.sched_mode d (schedule_of d.sched_mode d)) refl

-- Adopting a hash and writing the schedule commute.
pub compute_schedule-definition_hash :
    (d : Form) (h : Text)
    → compute_schedule (record d { definition_hash = h })
      ≡ record (compute_schedule d) { definition_hash = h }
unfolding compute_schedule
compute_schedule-definition_hash d h = rw (schedule_of-definition_hash d.sched_mode d h) refl
