-- ===== src/Dag/Model.antt =====
-- The fields of a task and of the form, with the values that the inputs and the loader store.
use cronova.Base.{ℕ, Bool, Option, none, some, List, [], ◌∷◌, Text, codes, text_eq, if◌then◌else◌}

-- An integer; `negsuc n` is -(n + 1).
pub data ℤ : Type 0 where
  pos : ℕ → ℤ
  negsuc : ℕ → ℤ

-- The value of a number input: the empty string, or a number.
pub data Num : Type 0 where
  blank : Num
  num : ℤ → Num

pub record Task : Type 0 where
  pub id : Text
  pub type : Text
  pub command : Text
  pub conn : Text
  pub project : Text
  pub pool : Text
  pub priority : Num
  pub retries : Num
  pub retry_delay : Num
  pub retry_backoff : Text
  pub retry_delay_max : Num
  pub timeout : Num
  pub sla : Num
  pub deps : List Text
  pub trigger_rule : Text
  pub subdag : Text
  pub worker_group : Text
  pub dod_dag : Text
  pub dod_offset : Text
  pub dod_timeout : Num
  pub dod_on_timeout : Text
  pub http_method : Text
  pub http_url : Text
  pub http_headers : Text
  pub http_body : Text
  pub http_status : Text

-- A task of the form, whose other fields read as empty.
abbrev pub blank_task : Task
blank_task = record {
  id = [];
  type = codes "shell";
  command = [];
  conn = [];
  project = [];
  pool = codes "default";
  priority = num (pos 0);
  retries = blank;
  retry_delay = blank;
  retry_backoff = [];
  retry_delay_max = blank;
  timeout = blank;
  sla = blank;
  deps = [];
  trigger_rule = codes "all_success";
  subdag = [];
  worker_group = [];
  dod_dag = [];
  dod_offset = [];
  dod_timeout = blank;
  dod_on_timeout = [];
  http_method = [];
  http_url = [];
  http_headers = [];
  http_body = [];
  http_status = [];
}

-- `byId[id]` over the tasks alone: a later task of the same id replaces an earlier one.
unfoldable pub by_id : List Task → Text → Option Task
by_id [] i = none
by_id (t ∷ ts) i = elim (by_id ts i) [
  | some u ↦ some u
  | none ↦ if text_eq t.id i then some t else none
]

-- The mode of the schedule controls.
pub data Mode : Type 0 where
  manual every cron : Mode

-- The fields of the definition itself, `D.dag`. The schedule controls add the last four.
pub record Form : Type 0 where
  pub dag_id : Text
  pub schedule : Text
  pub start_date : Text
  pub catchup : Bool
  pub paused : Bool
  pub max_active_runs : Num
  pub default_retries : Num
  pub execution_policy : Text
  pub trigger_after : List Text
  pub notify_url : Text
  pub notify_on : List Text
  pub notify_format : Text
  pub notify_group : Text
  pub sla : Num
  pub dagrun_timeout : Num
  pub definition_hash : Text
  pub sched_mode : Mode
  pub sched_every : ℤ
  pub sched_unit : Text
  pub sched_cron : Text
