-- ===== src/Dag/Load/Samples.antt =====
-- The theorems about loading at concrete tasks and headers.
use cronova.Base.{
  ◌≡◌, refl, [], ◌∷◌, none, some, List, Text, codes, map, All, text_eq, trim, is_space,
}
use cronova.Dag.Model.{pos, negsuc}
use cronova.Dag.Cycle.Samples.{chain}
use cronova.Dag.Spec.{parse_header_lines, parse_status_list, task_spec}
use cronova.Dag.Load.{Stored, join, header_text, load_task}
use cronova.Dag.Load.Reload.{IsKept, task_spec-load_task}
use cronova.Dag.Load.Headers.{IsHeader, IsDistinct, parse_header_lines-join}

abbrev call : Stored
call = record {
  id = codes "call";
  type = codes "http";
  command = [];
  conn = [];
  project = [];
  pool = [];
  priority = negsuc 1;
  retries = some (pos 0);
  retry_delay = none;
  retry_backoff = [];
  retry_delay_max = 0;
  timeout = 30;
  sla = 0;
  deps = codes "a" ∷ codes "b" ∷ [];
  trigger_rule = [];
  subdag = [];
  worker_group = [];
  depends_on_dag = record { dag = []; offset = []; timeout = 0; on_timeout = [] };
  http = record {
    method = [];
    url = codes "http://h/x";
    headers = [];
    body = [];
    expected_status = 200 ∷ [];
  };
}

task_spec-load_task_example : IsKept call (task_spec chain (load_task call))
unfolding text_eq
task_spec-load_task_example = task_spec-load_task chain call refl

abbrev headers : List (Text × Text)
headers = (codes "Accept", codes "text/plain") ∷ (codes "X-Time", codes "12:30") ∷ []

headers-IsHeader : All IsHeader headers
unfolding trim is_space
headers-IsHeader =
    let accept : IsHeader (codes "Accept", codes "text/plain") = record {
      some_name = refl;
      trimmed_name = refl;
      trimmed_value = refl;
      no_colon = refl;
      one_line = refl;
    } in
    let time : IsHeader (codes "X-Time", codes "12:30") = record {
      some_name = refl;
      trimmed_name = refl;
      trimmed_value = refl;
      no_colon = refl;
      one_line = refl;
    } in
    (accept, (time, tt))

headers-IsDistinct : IsDistinct [] headers
unfolding text_eq
headers-IsDistinct = (tt, ((refl, tt), tt))

parse_header_lines-join_example :
    parse_header_lines (join (10 ∷ []) (map header_text headers)) ≡ headers
parse_header_lines-join_example =
    parse_header_lines-join headers headers-IsHeader headers-IsDistinct

statuses_read : parse_status_list (codes "200, 201,99,x, +404") ≡ 200 ∷ 201 ∷ 404 ∷ []
unfolding parse_status_list
statuses_read = refl
