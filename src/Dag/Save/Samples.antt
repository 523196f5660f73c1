-- ===== src/Dag/Save/Samples.antt =====
-- The theorems about saving at concrete editors and histories.
use cronova.Base.{◌≡◌, ◌≢◌, refl, true, false, List, [], ◌∷◌, none, codes, text_eq, trim}
use cronova.Dag.Model.{Task, by_id}
use cronova.Dag.Cycle.{has_cycle}
use cronova.Dag.Cycle.Samples.{node}
use cronova.Dag.Validate.{validate, id_re, set_of, notify_re}
use cronova.Schedule.{compute_schedule}
use cronova.Schedule.Samples.{empty_form}
use cronova.Dag.Save.{
  Doc, Editor, Event, saved, saving, edit, fire, reply_ok, errors_of, step, run, save_dag,
  schedule_save, flush_save, dispatch, settle, on_success,
}
use cronova.Dag.Save.Delivery.{content, last_sent, run-delivers}
use cronova.Dag.Save.Delete.{run-deleting}
use cronova.Dag.Save.Settles.{answer, run-settles}

-- One task with a command.
abbrev one_task : List Task
one_task = record (node (codes "a") []) { command = codes "true" } ∷ []

abbrev opened : Doc
opened = record {
  tasks = one_task;
  dag = empty_form;
  graph_base = none;
  graph_dirty = 0;
  graph_pending = none;
  diff_cache = none;
  diff_open = false;
  connect_mode = false;
  active_task_id = none;
}

abbrev fresh_editor : Editor
fresh_editor = record {
  doc = opened;
  timer_set = false;
  armed = false;
  save_seq = 0;
  inflight = none;
  pending = false;
  deleting = false;
  shown = saved;
  errors = [];
  sent = [];
  toasts = [];
}

abbrev armed_editor : Editor
armed_editor = record fresh_editor { timer_set = true; armed = true; shown = saving }

one_task_valid : validate one_task empty_form ≡ []
unfolding validate has_cycle by_id text_eq id_re set_of notify_re trim
one_task_valid = refl

nameless_invalid : validate (node [] [] ∷ []) empty_form ≢ []
unfolding validate has_cycle by_id text_eq id_re set_of notify_re trim
nameless_invalid e = cc

-- An edit, its timeout and its answer.
abbrev saved_once : List Event
saved_once = edit one_task empty_form ∷ fire ∷ reply_ok (codes "h1") ∷ []

-- What the machine does on it.
saved_once-armed : (run fresh_editor saved_once).armed ≡ false
unfolding run step save_dag schedule_save flush_save dispatch settle on_success validate has_cycle
    by_id text_eq id_re set_of notify_re trim compute_schedule
saved_once-armed = refl

saved_once-inflight : (run fresh_editor saved_once).inflight ≡ none
unfolding run step save_dag schedule_save flush_save dispatch settle on_success validate has_cycle
    by_id text_eq id_re set_of notify_re trim compute_schedule
saved_once-inflight = refl

saved_once-valid : errors_of (run fresh_editor saved_once).doc ≡ []
unfolding run step save_dag schedule_save flush_save dispatch settle on_success validate has_cycle
    by_id text_eq id_re set_of notify_re trim compute_schedule
saved_once-valid = refl

answered_valid : errors_of (run armed_editor (fire ∷ reply_ok [] ∷ [])).doc ≡ []
unfolding run step flush_save dispatch settle on_success compute_schedule
answered_valid = one_task_valid

run-delivers_example :
    last_sent (content opened) (run fresh_editor saved_once).sent
    ≡ content (run fresh_editor saved_once).doc
run-delivers_example =
    run-delivers fresh_editor saved_once
      (record { nothing_sent = refl; not_pending = refl; not_deleting = refl })
      ((λ h. h), ((λ h. h), ((λ h. h), tt))) saved_once-armed saved_once-inflight saved_once-valid

run-settles_example :
    let rest = run armed_editor (fire ∷ answer false (codes "busy") ∷ answer true [] ∷ []) in
    (rest.armed ≡ false) × (rest.inflight ≡ none) × (rest.pending ≡ false)
run-settles_example = run-settles armed_editor false true (codes "busy") [] refl (λ p. absurd (cc))

run-deleting_example :
    (run (record armed_editor { deleting = true }) (fire ∷ edit one_task empty_form ∷ [])).sent ≡ []
run-deleting_example =
    run-deleting (record armed_editor { deleting = true }) (fire ∷ edit one_task empty_form ∷ [])
      refl ((λ h. h), ((λ h. h), tt))
