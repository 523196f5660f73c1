-- ===== src/NewDag.antt =====
-- The dialog for a new definition: `renderNewDag`, `updateNewDagValidity` and `submitNewDag` of
-- internal/web/static/builder.js.
pub mod Submit
mod Samples
use cronova.Base.{
  Bool, true, false, ◌&&◌, ◌||◌, not, List, [], ◌∷◌, map, Option, none, some, Text, codes, text_eq,
  includes, is_empty, trim, if◌then◌else◌, find,
}
use cronova.Dag.Model.{Form, num, pos}
use cronova.Dag.Validate.{id_re}
use cronova.Schedule.{compute_schedule, parse_schedule_state}
use cronova.Schedule.Controls.{Control, control}
use cronova.Build.{Build, BuildTask, build_task}

-- An entry of `DAG_TEMPLATES`; all its tasks are shell tasks.
pub record DagTemplate : Type 0 where
  pub key : Text
  pub schedule : Text
  pub tasks : List BuildTask

abbrev task : Text → Text → List Text → BuildTask
task i c ds = build_task (i) (c) (ds)

unfoldable pub dag_templates : List DagTemplate
dag_templates =
    record { key = codes "blank"; schedule = []; tasks = [] }
    ∷ record {
      key = codes "etl";
      schedule = [];
      tasks =
          task (codes "extract") (codes "echo extract {{ logical_date }} && sleep 1") []
          ∷ task (codes "transform") (codes "echo transform && sleep 1") (codes "extract" ∷ [])
          ∷ task (codes "load") (codes "echo load run={{ run_id }} && sleep 1")
              (codes "transform" ∷ [])
          ∷ [];
    }
    ∷ record {
      key = codes "report";
      schedule = codes "0 8 * * *";
      tasks =
          task (codes "fetch") (codes "echo fetch data for {{ logical_date }} && sleep 1") []
          ∷ task (codes "render") (codes "echo render report && sleep 1") (codes "fetch" ∷ [])
          ∷ [];
    }
    ∷ record {
      key = codes "fanout";
      schedule = [];
      tasks =
          task (codes "start") (codes "echo start && sleep 1") []
          ∷ task (codes "branch_a") (codes "echo branch A && sleep 1") (codes "start" ∷ [])
          ∷ task (codes "branch_b") (codes "echo branch B && sleep 1") (codes "start" ∷ [])
          ∷ task (codes "join") (codes "echo join && sleep 1")
              (codes "branch_a" ∷ codes "branch_b" ∷ [])
          ∷ [];
    }
    ∷ []

-- `ND`
pub record NewDag : Type 0 where
  pub existing : List Text
  pub dag : Form
  pub template : Text
  pub advanced : Bool
  pub yaml_mode : Bool

unfoldable pub template_of : Text → Option DagTemplate
unfolding dag_templates
template_of key = find (λ t. text_eq t.key key) dag_templates

pub data IdError : Type 0 where
  err_dagid dagid_dup : IdError

-- `updateNewDagValidity`: the message, and whether the button is disabled.
unfoldable pub id_error : NewDag → Option IdError
unfolding id_re
id_error n =
    if is_empty n.dag.dag_id
    then none
    else if not (id_re n.dag.dag_id)
    then some err_dagid
    else if includes n.dag.dag_id n.existing
    then some dagid_dup
    else none

unfoldable pub create_disabled : NewDag → Bool
unfolding id_error
create_disabled n = is_empty n.dag.dag_id || elim (id_error n) [ some e ↦ true | none ↦ false ]

-- A card, the fold, the way to the text form and back, the name, and the schedule controls.
pub data NewDagEvent : Type 0 where
  pick_card type_id : Text → NewDagEvent
  toggle_advanced to_yaml to_form : NewDagEvent
  use_control : Control → NewDagEvent

with_schedule : Option DagTemplate → NewDag → NewDag
with_schedule none n = record n { dag = parse_schedule_state (record (n.dag) { schedule = [] }) }
with_schedule (some tp) n = record n {
  dag = parse_schedule_state (record (n.dag) { schedule = tp.schedule });
  advanced = not (is_empty tp.schedule) || n.advanced;
}

unfoldable pub nd_step : NewDag → NewDagEvent → NewDag
unfolding with_schedule template_of
nd_step n (pick_card key) = with_schedule (template_of key) (record n { template = key })
nd_step n (type_id v) = record n { dag = record (n.dag) { dag_id = trim v } }
nd_step n toggle_advanced = record n { advanced = not n.advanced }
nd_step n to_yaml = record n { yaml_mode = true }
nd_step n to_form = record n { yaml_mode = false }
nd_step n (use_control c) = if n.advanced then record n { dag = control n.dag c } else n

-- The tasks of the picked template, or of the first.
unfoldable pub template_tasks : Text → List BuildTask
unfolding template_of
template_tasks key = elim (template_of key) [ some tp ↦ tp.tasks | none ↦ [] ]

-- The definition that `submitNewDag` sends.
unfoldable pub nd_build : NewDag → Build
unfolding template_tasks
nd_build n =
    let d = compute_schedule n.dag in
    record {
      dag_id = d.dag_id;
      schedule = d.schedule;
      start_date = d.start_date;
      catchup = not (is_empty d.schedule) && d.catchup;
      max_active_runs = 1;
      default_retries = 0;
      trigger_after = [];
      tasks = template_tasks n.template;
    }

-- `importYamlDag` up to its request, on the text of the box
pub data Press : Type 0 where
  disabled yaml_empty : Press
  send_build : Build → Press
  send_yaml : Text → Press

unfoldable pub import_yaml_dag : Text → Press
unfolding trim
import_yaml_dag yml = if is_empty (trim yml) then yaml_empty else send_yaml yml

-- A click on the button, or Enter outside the box, given its text. In the text form nothing disables
-- the button until the request.
unfoldable pub press_create : Text → NewDag → Press
unfolding create_disabled nd_build import_yaml_dag
press_create yml n =
    if n.yaml_mode
    then import_yaml_dag yml
    else if create_disabled n
    then disabled
    else send_build (nd_build n)
