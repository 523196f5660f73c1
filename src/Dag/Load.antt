-- ===== src/Dag/Load.antt =====
-- The tasks of a loaded definition as `showDag` of internal/web/static/views.js puts them in the
-- form.
pub mod Headers
pub mod Reload
mod Samples
use cronova.Base.{
  ℕ, zero, suc, List, [], ◌∷◌, ◌++◌, map, Option, none, some, Text, codes, print_nat,
}
use cronova.Dag.Model.{ℤ, pos, Num, blank, num, Task}
use cronova.Dag.Spec.{Http, DependsOn, or_text}

-- A task as the server stores it: what is absent from the JSON is empty, 0 or `none`.
pub record Stored : Type 0 where
  pub id : Text
  pub type : Text
  pub command : Text
  pub conn : Text
  pub project : Text
  pub pool : Text
  pub priority : ℤ
  pub retries : Option ℤ
  pub retry_delay : Option ℤ
  pub retry_backoff : Text
  pub retry_delay_max : ℕ
  pub timeout : ℕ
  pub sla : ℕ
  pub deps : List Text
  pub trigger_rule : Text
  pub subdag : Text
  pub worker_group : Text
  pub depends_on_dag : DependsOn
  pub http : Http

-- `n || ""`
abbrev pub or_blank : ℕ → Num
or_blank zero = blank
or_blank (suc n) = num (pos (suc n))

-- `x ?? ""`
abbrev pub given : Option ℤ → Num
given none = blank
given (some z) = num z

-- `xs.join(sep)`
unfoldable pub join : Text → List Text → Text
join sep [] = []
join sep (x ∷ []) = x
join sep (x ∷ y ∷ r) = x ++ (sep ++ join sep (y ∷ r))

-- `${k}: ${v}`
abbrev pub header_text : Text × Text → Text
header_text (k, v) = k ++ (codes ": " ++ v)

unfoldable pub load_task : Stored → Task
unfolding join print_nat
load_task tk = record {
  id = tk.id;
  type = or_text tk.type (codes "shell");
  command = tk.command;
  conn = tk.conn;
  project = tk.project;
  pool = or_text tk.pool (codes "default");
  priority = num tk.priority;
  retries = given tk.retries;
  retry_delay = given tk.retry_delay;
  retry_backoff = tk.retry_backoff;
  retry_delay_max = or_blank tk.retry_delay_max;
  timeout = or_blank tk.timeout;
  sla = or_blank tk.sla;
  deps = tk.deps;
  trigger_rule = or_text tk.trigger_rule (codes "all_success");
  subdag = tk.subdag;
  worker_group = tk.worker_group;
  dod_dag = tk.depends_on_dag.dag;
  dod_offset = tk.depends_on_dag.offset;
  dod_timeout = or_blank tk.depends_on_dag.timeout;
  dod_on_timeout = tk.depends_on_dag.on_timeout;
  http_method = or_text tk.http.method (codes "GET");
  http_url = tk.http.url;
  http_headers = join (10 ∷ []) (map header_text tk.http.headers);
  http_body = tk.http.body;
  http_status = join (codes ", ") (map print_nat tk.http.expected_status);
}
