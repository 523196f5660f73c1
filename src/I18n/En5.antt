-- ===== src/I18n/En5.antt =====
-- The dictionary `DICT.en` of internal/web/static/base.js, part 5 of 6.
use cronova.Base.{List, [], ◌∷◌, ◌++◌, codes}
use cronova.I18n.Phrases.{String, Phrase, words, with1, with2, show}

unfoldable pub en_5 : List (String × Phrase)
en_5 =
    ("dod_fail", words "fail")
    ∷ ("dod_skip", words "skip")
    ∷ ("parent_run", words "Parent run")
    ∷ ("child_run", words "Child run")
    ∷ ("nav_graph", words "Graph")
    ∷ ("graph_title", words "Workflow Graph")
    ∷ ("graph_sub", words "Trigger dependencies between workflows via trigger_after")
    ∷ ("graph_none", words "No cross-workflow dependencies yet (none declares trigger_after)")
    ∷ (
      "graph_view_hint",
      words
          "Tip: arrows point in the trigger-after direction; click a node to open that workflow; dashed nodes are unknown workflows",
    )
    ∷ ("ss_saved", words "Saved")
    ∷ ("ss_saving", words "Saving…")
    ∷ ("ss_invalid", words "Fix errors to save")
    ∷ ("ss_error", words "Save failed")
    ∷ ("dag_no_tasks_title", words "No tasks yet")
    ∷ ("dag_no_tasks_sub", words "Add a task to enable this workflow")
    ∷ ("dag_disabled_hint", words "Add a task to enable triggering")
    ∷ ("nd_title", words "New workflow")
    ∷ ("nd_create", words "Create")
    ∷ ("nd_cancel", words "Cancel")
    ∷ ("nd_dagid_dup", words "A DAG with this id already exists")
    ∷ ("tpl_start", words "Start from a template")
    ∷ ("tpl_tasks", words "tasks")
    ∷ ("tpl_blank", words "Blank")
    ∷ ("tpl_blank_d", words "Start empty and add tasks yourself")
    ∷ ("tpl_etl", words "Daily ETL")
    ∷ ("tpl_etl_d", words "Three-step extract → transform → load pipeline")
    ∷ ("tpl_report", words "Scheduled report")
    ∷ ("tpl_report_d", words "Fetch → render, preset to run daily at 08:00")
    ∷ ("tpl_fanout", words "Fan-out / fan-in")
    ∷ ("tpl_fanout_d", words "start → two parallel branches → join")
    ∷ (
      "coach_tpl_ready",
      words "Template ready — hit “Trigger run” to watch it execute, then tweak the tasks",
    )
    ∷ ("sp_every", with2 (λ n u. codes "Runs every " ++ show n ++ codes " " ++ show u))
    ∷ ("sp_next", words "Next")
    ∷ ("sp_invalid", words "Invalid expression — cannot compute fire times")
    ∷ ("tz_note", words "Schedules evaluate in UTC; times shown in your local timezone")
    ∷ ("btn_duplicate", words "⧉ Duplicate")
    ∷ ("dup_dag_title", words "Duplicate as a new workflow (enter a new id)")
    ∷ ("dup_done", words "Duplicated")
    ∷ ("y_copy", words "Copy")
    ∷ ("y_download", words "Download")
    ∷ ("y_close", words "Close")
    ∷ ("y_copied", words "YAML copied to clipboard")
    ∷ ("y_copy_fail", words "Copy failed — select the text manually")
    ∷ ("nd_import_yaml", words "or paste YAML to import…")
    ∷ ("nd_back_form", words "← back to the form")
    ∷ ("nd_import", words "Import")
    ∷ ("nd_yaml_empty", words "Paste some YAML first")
    ∷ ("nd_imported", words "YAML imported")
    ∷ ("gs_title", words "Getting started")
    ∷ ("gs_create", words "Create your first workflow")
    ∷ ("gs_trigger", words "Trigger a run")
    ∷ ("gs_green", words "Get a green run")
    ∷ ("adv_options", words "Advanced options")
    ∷ ("log_find_ph", words "Find in log…")
    ∷ ("log_download", words "Download full log")
    ∷ ("log_matches", with1 (λ n. show n ++ codes " matching lines"))
    ∷ ("log_capped", with1 (λ n. codes "showing last " ++ show n ++ codes " lines"))
    ∷ ("back_dag", with1 (λ d. codes "← Back to " ++ show d))
    ∷ ("confirm_del_task_title", with1 (λ i. codes "Delete task “" ++ show i ++ codes "”?"))
    ∷ ("nav_workers", words "Workers")
    ∷ (
      "wk_sub",
      words
          "Remote workers dialed into this scheduler: live state, load, and drain/remove operations. Tasks route to a group via worker_group.",
    )
    ∷ ("wk_name", words "Name")
    ∷ ("wk_group", words "Group")
    ∷ ("wk_state", words "State")
    ∷ ("wk_active", words "Active tasks")
    ∷ ("wk_version", words "Version")
    ∷ ("wk_heartbeat", words "Last heartbeat")
    ∷ ("wk_created", words "Joined")
    ∷ ("wk_online", words "online")
    ∷ ("wk_offline", words "offline")
    ∷ ("wk_lost", words "lost")
    ∷ ("wk_draining", words "draining")
    ∷ ("wk_unnamed", words "(unnamed)")
    ∷ ("wk_drain", words "Drain")
    ∷ ("wk_undrain", words "Undrain")
    ∷ ("wk_drain_title", with1 (λ n. codes "Drain worker “" ++ show n ++ codes "”?"))
    ∷ (
      "wk_drain_body",
      words
          "A draining worker gets no new assignments; its running tasks finish normally. You can undrain it any time.",
    )
    ∷ ("wk_undrain_title", with1 (λ n. codes "Undrain worker “" ++ show n ++ codes "”?"))
    ∷ ("wk_undrain_body", words "The worker resumes receiving task assignments.")
    ∷ ("wk_drained_toast", words "Draining started")
    ∷ ("wk_undrained_toast", words "Assignments resumed")
    ∷ ("wk_remove", words "Remove")
    ∷ ("wk_remove_title", with1 (λ n. codes "Remove worker “" ++ show n ++ codes "”?"))
    ∷ (
      "wk_remove_body",
      words
          "Removal is immediate and cannot be undone: the worker's certificate stops being accepted, so it cannot reconnect — rejoining requires a fresh join token.",
    )
    ∷ ("wk_removed_toast", words "Worker removed")
    ∷ ("wk_none_title", words "No workers have joined yet")
    ∷ ("wk_none_sub", words "Attach a remote worker in two steps:")
    ∷ ("wk_join_step1", words "Mint a one-time join token on this page")
    ∷ ("wk_join_step2", words "Run on the worker host:")
    ∷ ("wk_token_btn", words "New join token")
    ∷ ("wk_token_title", words "Mint a one-time join token")
    ∷ ("wk_token_ttl", words "Expires in")
    ∷ ("wk_ttl_1h", words "1 hour")
    ∷ ("wk_ttl_24h", words "24 hours")
    ∷ ("wk_ttl_7d", words "7 days")
    ∷ ("wk_token_create", words "Mint token")
    ∷ ("wk_token_reveal_h", words "Your join token")
    ∷ (
      "wk_token_warn",
      words
          "This token is shown only once and can be used only once — you won't see it again after closing.",
    )
    ∷ ("wk_join_cmd_h", words "Run on the worker host:")
    ∷ ("wk_expires", words "Expires")
    ∷ (
      "err_code_workers_disabled",
      words "Worker hub is not enabled — set worker_listen in the server config",
    )
    ∷ (
      "wk_disabled_hint",
      words
          "The server has no worker hub enabled. Configure worker_listen in cronova.yaml (or set CRONOVA_WORKER_LISTEN), restart, and try again.",
    )
    ∷ ("rel_now", words "just now")
    ∷ ("rel_ago", with1 (λ s. show s ++ codes " ago"))
    ∷ ("set_policy", words "Execution policy")
    ∷ (
      "set_policy_hint",
      words
          "How runs of this workflow are admitted when several are ready at once. Serial policies force at most one active run, whatever Max active runs says.",
    )
    ∷ ("po_parallel", words "Parallel")
    ∷ ("po_serial_wait", words "Serial (wait)")
    ∷ ("po_serial_discard", words "Serial (discard)")
    ∷ ("po_serial_priority", words "Serial (priority)")
    ∷ ("pod_parallel", words "Parallel: up to Max active runs execute concurrently (default)")
    ∷ (
      "pod_serial_wait",
      words "Serial wait: one at a time; later runs queue and execute in logical-date order",
    )
    ∷ (
      "pod_serial_discard",
      words
          "Serial discard: one at a time; runs arriving while busy are cancelled (visibly, never silently)",
    )
    ∷ (
      "pod_serial_priority",
      words "Serial priority: one at a time; the queue drains highest run priority first",
    )
    ∷ ("p_priority", words "Priority")
    ∷ (
      "p_priority_hint",
      words
          "-100 to 100, default 0; higher wins the competition for dispatch slots (and drains first from a serial_priority queue)",
    )
    ∷ ("run_priority_tip", words "Run priority: higher wins dispatch-slot competition")
    ∷ ("mode_novice", words "Simple")
    ∷ ("mode_expert", words "Expert")
    ∷ (
      "mode_toggle_title",
      words
          "Interface mode: Simple keeps only the essentials; Expert shows every metric and action",
    )
    ∷ ("nv_workbench", words "Workbench")
    ∷ ("nv_myflows", words "My workflows")
    ∷ ("nv_shared", words "Shared config")
    ∷ ("nv_help", words "Help center")
    ∷ []
