-- ===== src/I18n/En3.antt =====
-- The dictionary `DICT.en` of internal/web/static/base.js, part 3 of 6.
use cronova.Base.{List, [], ◌∷◌, ◌++◌, codes, if◌then◌else◌}
use cronova.I18n.Phrases.{String, Phrase, words, with1, with2, show, above}

unfoldable pub en_3 : List (String × Phrase)
en_3 =
    ("c_del_title", with1 (λ i. codes "Delete connection “" ++ show i ++ codes "”?"))
    ∷ ("v_del_title", with1 (λ k. codes "Delete variable “" ++ show k ++ codes "”?"))
    ∷ ("del_body", words "This cannot be undone.")
    ∷ ("trig_params", words "Trigger with params")
    ∷ ("p_params", words "Params")
    ∷ ("p_add", words "Add row")
    ∷ ("p_key", words "Key")
    ∷ ("p_val", words "Value")
    ∷ ("p_trigger", words "Trigger")
    ∷ (
      "p_hint",
      words
          "Params are injected as CRONOVA_PARAM_* env vars; reference as {{ params.key }} in commands.",
    )
    ∷ ("run_params", words "Params")
    ∷ ("res_saved", words "Saved")
    ∷ ("res_deleted", words "Deleted")
    ∷ ("err_key", words "Invalid name (letters, digits, _ . - only)")
    ∷ ("btn_trigger", words "▶ Trigger run")
    ∷ ("btn_pause", words "Pause")
    ∷ ("btn_resume", words "Resume")
    ∷ ("btn_delete", words "Delete")
    ∷ ("confirm_del_dag_title", with1 (λ i. codes "Archive workflow “" ++ show i ++ codes "”?"))
    ∷ (
      "confirm_del_dag_body",
      words "It will be archived (hidden from lists); run history is kept and it can be restored.",
    )
    ∷ ("dag_archived", words "This workflow is archived (deleted).")
    ∷ ("confirm_word", words "Confirm")
    ∷ ("cancel_word", words "Cancel")
    ∷ ("aria_theme", words "Toggle theme")
    ∷ ("aria_lang", words "Switch language")
    ∷ ("toast_run_queued", words "Triggered — run queued")
    ∷ ("toast_pool_saved", words "Pool saved")
    ∷ ("toast_dag_deleted", words "Workflow archived")
    ∷ ("th_id", words "id")
    ∷ ("th_type", words "type")
    ∷ ("th_command", words "command")
    ∷ ("th_deps", words "deps")
    ∷ ("th_logical", words "logical date")
    ∷ ("th_state", words "state")
    ∷ ("th_trig", words "trigger")
    ∷ ("th_started", words "started")
    ∷ ("th_dur", words "duration")
    ∷ ("th_task", words "task")
    ∷ ("th_try", words "try")
    ∷ ("th_logs", words "logs")
    ∷ ("no_runs", words "No runs yet — trigger one.")
    ∷ ("k_logical", words "logical date")
    ∷ ("k_trig", words "trigger")
    ∷ ("k_dur", words "duration")
    ∷ ("k_started", words "started")
    ∷ ("log_word", words "Log")
    ∷ ("live", words "live")
    ∷ ("pools_sub", words "Global concurrency slots, shared across all workflows and runs.")
    ∷ ("p_name", words "name")
    ∷ ("p_slots", words "slots")
    ∷ ("p_save", words "Save")
    ∷ ("p_newname", words "new pool name")
    ∷ ("p_create", words "Create pool")
    ∷ ("p_need", words "name + positive slots required")
    ∷ ("trig_fail", words "trigger failed")
    ∷ ("api_err", words "API error")
    ∷ ("err_code_not_found", words "Not found (it may have been deleted)")
    ∷ ("err_code_no_tasks", words "This workflow has no steps yet — add one before running it")
    ∷ ("err_code_bad_mark_state", words "That state is not a valid mark target")
    ∷ ("err_code_queue_full", words "The run queue is full — try again shortly")
    ∷ (
      "err_code_active_runs",
      words "This workflow still has active runs — cancel or wait for them first",
    )
    ∷ ("err_code_run_not_active", words "This run has already finished — nothing to cancel")
    ∷ ("err_code_nothing_to_retry", words "This run has no failed steps to retry")
    ∷ ("err_code_run_still_active", words "This run is still active — retry it after it finishes")
    ∷ (
      "err_code_bad_group_name",
      words "Invalid alert group name (letters, digits, _ . - only; max 128 chars)",
    )
    ∷ (
      "err_code_dag_conflict",
      words
          "This workflow changed since you loaded it — reload to merge your edits; retrying will conflict again",
    )
    ∷ ("err_code_group_channels", words "An alert group needs 1-16 channels")
    ∷ (
      "err_code_group_channel_url",
      words "Channel URL must start with http://, https:// or mailto:",
    )
    ∷ (
      "err_code_group_channel_format",
      words "Invalid channel format (raw / slack / feishu / dingtalk / email)",
    )
    ∷ (
      "dt_hint",
      words "Duration trend: taller = slower, color = outcome; click a bar to open that run",
    )
    ∷ ("runs_more", words "Load more ↓")
    ∷ ("audit_more", words "Load more ↓")
    ∷ ("log_all", words "All tasks")
    ∷ ("bulk_all", words "Select all (current filter)")
    ∷ ("bulk_pick", with1 (λ i. codes "Select " ++ show i))
    ∷ (
      "bulk_selected",
      with1 (λ n.
          show n
          ++ codes " workflow"
          ++ (if above 1 n then codes "s" else [])
          ++ codes " selected"),
    )
    ∷ (
      "bulk_done",
      with2 (λ ok n.
          codes "Bulk action done: " ++ show ok ++ codes "/" ++ show n ++ codes " succeeded"),
    )
    ∷ (
      "bulk_del_title",
      with1 (λ n.
          codes "Archive the "
          ++ show n
          ++ codes " selected workflow"
          ++ (if above 1 n then codes "s" else [])
          ++ codes "?"),
    )
    ∷ ("au_f_actor", words "Filter by actor")
    ∷ ("au_f_action", words "Filter by action")
    ∷ ("au_f_all", words "All")
    ∷ ("nx_paused", words "paused")
    ∷ ("nx_due", words "due")
    ∷ ("nx_in", with1 (λ m. codes "in " ++ show m ++ codes "m"))
    ∷ ("b_dag_info", words "DAG info")
    ∷ ("f_dag_id", words "DAG ID")
    ∷ ("f_start", words "Start date")
    ∷ ("f_catchup", words "Catchup")
    ∷ ("f_maxactive", words "Max active")
    ∷ ("f_defretries", words "Default retries")
    ∷ (
      "f_catchup_hint",
      words
          "When on, every schedule period missed since start_date gets a backfilled run (at most one per tick, bounded by max active runs — no thundering herd)",
    )
    ∷ ("f_trigger_after", words "Trigger after (upstream success)")
    ∷ ("b_addtask", words "+ Add task")
    ∷ ("b_remove", words "Remove")
    ∷ ("t_id", words "Task ID")
    ∷ ("t_type", words "Type")
    ∷ ("t_command", words "Command")
    ∷ ("t_pool", words "Pool")
    ∷ ("t_priority", words "Priority")
    ∷ ("t_http", words "HTTP request")
    ∷ ("http_method", words "Method")
    ∷ ("http_url", words "URL")
    ∷ ("http_headers", words "Headers")
    ∷ ("http_headers_hint", words "One per line, Key: Value — supports {{ var. }} / {{ conn. }}")
    ∷ ("http_body", words "Body")
    ∷ ("http_status", words "Expected status")
    ∷ ("http_status_hint", words "Comma-separated, e.g. 200,201; empty = any 2xx")
    ∷ ("err_httpurl", words "HTTP task requires a URL")
    ∷ ("t_python", words "Python code")
    ∷ (
      "python_hint",
      words
          "Inline Python run with python3 -c; CRONOVA_* vars are in the environment; supports {{ var. }} templates. Non-zero exit = failure.",
    )
    ∷ ("t_sql", words "SQL query")
    ∷ ("sql_conn", words "Connection")
    ∷ (
      "sql_conn_hint",
      words
          "A configured connection id (its type picks the driver: postgres/mysql/sqlite). See Variables & Connections.",
    )
    ∷ ("err_sqlconn", words "SQL task requires a connection")
    ∷ ("t_retries", words "Retries (empty=default)")
    ∷ ("t_retrydelay", words "Retry delay (s)")
    ∷ ("t_timeout", words "Timeout (s)")
    ∷ ("t_deps", words "Depends on")
    ∷ ("t_nodeps", words "no other tasks")
    ∷ ("t_project", words "Project")
    ∷ ("t_optional", words "(optional)")
    ∷ ("proj_none", words "None (no project)")
    ∷ ("proj_upload", words "Upload / new project")
    ∷ (
      "proj_hint",
      words
          "When set, the command runs inside a clean copy of this project (e.g. python3 main.py). Shell tasks only.",
    )
    ∷ []
