-- ===== src/Dag/Spec.antt =====
-- What the console sends: `dagSpecFrom`, `parseHeaderLines` and `parseStatusList` of
-- internal/web/static/views.js.
use cronova.Base.{
  ℕ, zero, ◌==◌, Bool, ◌&&◌, ◌||◌, not, List, [], ◌∷◌, map, Option, none, some, Text, codes,
  text_eq, includes, is_empty, is_digit, trim, if◌then◌else◌, keep, split, span, leb, read_nat,
}
use cronova.Dag.Model.{ℤ, pos, negsuc, Num, blank, num, Task, Form}
use cronova.Dag.Validate.{ids, named, of_type, is_blank}

pub record Http : Type 0 where
  pub method : Text
  pub url : Text
  pub headers : List (Text × Text)
  pub body : Text
  pub expected_status : List ℕ

pub record DependsOn : Type 0 where
  pub dag : Text
  pub offset : Text
  pub timeout : ℕ
  pub on_timeout : Text

-- A task as it is sent. The fields that depend on its type are absent where the source leaves them
-- out.
pub record TaskSpec : Type 0 where
  pub id : Text
  pub type : Text
  pub pool : Text
  pub priority : ℤ
  pub deps : List Text
  pub timeout : ℕ
  pub sla : ℕ
  pub trigger_rule : Text
  pub retries : Option ℤ
  pub retry_delay : Option ℤ
  pub retry_backoff : Text
  pub retry_delay_max : ℕ
  pub http : Option Http
  pub subdag : Option Text
  pub command : Option Text
  pub conn : Option Text
  pub project : Option Text
  pub worker_group : Option Text
  pub depends_on_dag : Option DependsOn

pub record Spec : Type 0 where
  pub dag_id : Text
  pub schedule : Text
  pub start_date : Text
  pub catchup : Bool
  pub max_active_runs : ℤ
  pub default_retries : ℤ
  pub trigger_after : List Text
  pub notify_url : Text
  pub notify_group : Text
  pub notify_on : List Text
  pub notify_format : Text
  pub execution_policy : Text
  pub expected_hash : Text
  pub sla : ℕ
  pub dagrun_timeout : ℕ
  pub tasks : List TaskSpec

-- `a || b` on texts
abbrev pub or_text : Text → Text → Text
or_text a b = if is_empty a then b else a

-- `+x || n`
abbrev pub number_or : ℤ → Num → ℤ
number_or n blank = n
number_or n (num (pos zero)) = n
number_or n (num z) = z

abbrev pub nonneg : ℤ → ℕ
nonneg (pos n) = n
nonneg (negsuc n) = 0

-- `Math.max(0, +x || 0)`
abbrev pub at_least_0 : Num → ℕ
at_least_0 x = nonneg (number_or (pos 0) x)

-- `x === "" || x == null ? null : +x`
abbrev pub nullable : Num → Option ℤ
nullable blank = none
nullable (num z) = some z

-- `h[k] = v`
unfoldable pub put : Text → Text → List (Text × Text) → List (Text × Text)
put k v [] = (k, v) ∷ []
put k v ((j, w) ∷ h) = if text_eq j k then (j, v) ∷ h else (j, w) ∷ put k v h

-- The name and the value of a line, where its first colon is not its first code unit.
unfoldable pub header_parts : Text × Text → Option (Text × Text)
header_parts ([], r) = none
header_parts (c ∷ k, []) = none
header_parts (c ∷ k, colon ∷ v) = some (trim (c ∷ k), trim v)

unfoldable pub header_line : List (Text × Text) → Text → List (Text × Text)
header_line h line = elim (header_parts (span (λ c. not (c == b':')) line)) [
  | none ↦ h
  | some (k, v) ↦ if is_empty k then h else put k v h
]

unfoldable pub header_lines : List (Text × Text) → List Text → List (Text × Text)
header_lines h [] = h
header_lines h (line ∷ lines) = header_lines (header_line h line) lines

unfoldable pub parse_header_lines : Text → List (Text × Text)
unfolding header_lines header_line header_parts put split span trim
parse_header_lines text = header_lines [] (split 10 text)

-- The digits that `parseInt(s, 10)` reads after the sign, if there is one; `none` is NaN.
leading_int : Text → Option ℕ
leading_int s = elim (span is_digit s).0 [ [] ↦ none | d ∷ ds ↦ some (read_nat (d ∷ ds)) ]

-- `parseInt(s, 10)` of a trimmed text, without the negative numbers, which the filter drops.
parse_int : Text → Option ℕ
unfolding leading_int span is_digit read_nat
parse_int [] = none
parse_int (c ∷ s) =
    if c == b'+' then leading_int s else if c == b'-' then none else leading_int (c ∷ s)

statuses : List Text → List ℕ
unfolding parse_int trim
statuses [] = []
statuses (s ∷ rest) =
    let more = statuses rest in
    elim (parse_int (trim s)) [
      | none ↦ more
      | some n ↦ if leb 100 n && leb n 599 then n ∷ more else more
    ]

unfoldable pub parse_status_list : Text → List ℕ
unfolding statuses split
parse_status_list text = statuses (split b',' text)

abbrev http_of : Task → Http
http_of tk = record {
  method = or_text tk.http_method (codes "GET");
  url = trim tk.http_url;
  headers = parse_header_lines tk.http_headers;
  body = tk.http_body;
  expected_status = parse_status_list tk.http_status;
}

abbrev depends_of : Task → Option DependsOn
depends_of tk =
    if is_blank tk.dod_dag
    then none
    else some (record {
      dag = trim tk.dod_dag;
      offset = trim tk.dod_offset;
      timeout = at_least_0 tk.dod_timeout;
      on_timeout = tk.dod_on_timeout;
    })

-- `if (c) o.f = v`
abbrev only_if : Bool → Text → Option Text
only_if c v = if c then some v else none

unfoldable pub task_spec : List Task → Task → TaskSpec
task_spec ts tk =
    let is_http = of_type (codes "http") tk in
    let is_subdag = not is_http && of_type (codes "subdag") tk in
    let is_command = not is_http && not is_subdag in
    record {
      id = tk.id;
      type = tk.type;
      pool = or_text tk.pool (codes "default");
      priority = number_or (pos 0) tk.priority;
      deps = keep (λ d. includes d (ids ts)) tk.deps;
      timeout = at_least_0 tk.timeout;
      sla = at_least_0 tk.sla;
      trigger_rule = or_text tk.trigger_rule (codes "all_success");
      retries = nullable tk.retries;
      retry_delay = nullable tk.retry_delay;
      retry_backoff = tk.retry_backoff;
      retry_delay_max = at_least_0 tk.retry_delay_max;
      http = if is_http then some (http_of tk) else none;
      subdag = only_if is_subdag (trim tk.subdag);
      command = only_if is_command tk.command;
      conn = only_if (is_command && of_type (codes "sql") tk) (trim tk.conn);
      project =
          only_if (is_command && of_type (codes "shell") tk && not (is_empty tk.project))
            tk.project;
      worker_group = only_if (not (is_blank tk.worker_group)) (trim tk.worker_group);
      depends_on_dag = depends_of tk;
    }

unfoldable pub dag_spec_from : List Task → Form → Spec
unfolding task_spec
dag_spec_from ts d = record {
  dag_id = d.dag_id;
  schedule = d.schedule;
  start_date = d.start_date;
  catchup = d.catchup;
  max_active_runs = number_or (pos 1) d.max_active_runs;
  default_retries = number_or (pos 0) d.default_retries;
  trigger_after = d.trigger_after;
  notify_url = trim d.notify_url;
  notify_group = trim d.notify_group;
  notify_on =
      if not (is_blank d.notify_url) || not (is_blank d.notify_group) then d.notify_on else [];
  notify_format = d.notify_format;
  execution_policy = d.execution_policy;
  expected_hash = d.definition_hash;
  sla = at_least_0 d.sla;
  dagrun_timeout = at_least_0 d.dagrun_timeout;
  tasks = map (task_spec ts) (named ts);
}
