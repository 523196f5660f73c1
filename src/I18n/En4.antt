-- ===== src/I18n/En4.antt =====
-- The dictionary `DICT.en` of internal/web/static/base.js, part 4 of 6.
use cronova.Base.{List, [], ◌∷◌, ◌++◌, codes, if◌then◌else◌}
use cronova.I18n.Phrases.{String, Phrase, words, with1, with2, show, above}

unfoldable pub en_4 : List (String × Phrase)
en_4 =
    ("proj_name", words "Project name")
    ∷ ("proj_name_bad", words "Name may contain only letters/digits/. _ -")
    ∷ ("proj_mode_files", words "Upload files / folder")
    ∷ ("proj_mode_inline", words "Write a script")
    ∷ ("proj_drop", words "Drag files or a folder here")
    ∷ ("proj_pick_files", words "Choose files")
    ∷ ("proj_pick_folder", words "Choose folder")
    ∷ ("proj_ziphint", words "Drop a .zip to auto-extract")
    ∷ ("proj_filename", words "Filename")
    ∷ ("proj_content", words "Script content")
    ∷ ("proj_do_upload", words "Upload")
    ∷ ("proj_selected", with1 (λ n. show n ++ codes " file(s) selected"))
    ∷ ("proj_uploaded", words "Project uploaded")
    ∷ ("proj_upload_fail", words "Upload failed")
    ∷ ("proj_need_name", words "Enter a project name first")
    ∷ ("proj_need_files", words "Choose files or write script content first")
    ∷ ("proj_manage", words "Manage projects")
    ∷ ("err_dagid", words "Valid DAG ID required (letters/digits/_-.)")
    ∷ ("err_taskid", words "Invalid task ID (letters/digits/_-.)")
    ∷ ("err_dup", words "Duplicate task ID")
    ∷ ("err_emptyid", words "Empty task ID")
    ∷ ("err_emptycmd", words "Empty command")
    ∷ ("err_cycle", words "Dependency cycle detected")
    ∷ ("sched", words "Schedule")
    ∷ ("sm_manual", words "Manual")
    ∷ ("sm_every", words "Interval")
    ∷ ("sm_cron", words "Cron expression")
    ∷ ("sched_manual_hint", words "Manual trigger or triggered by an upstream workflow only")
    ∷ ("sched_every_pre", words "Every")
    ∷ ("unit_s", words "sec")
    ∷ ("unit_m", words "min")
    ∷ ("unit_h", words "hr")
    ∷ ("disabled_note", words "(coming soon)")
    ∷ ("cp_min", words "every minute")
    ∷ ("cp_hour", words "hourly")
    ∷ ("cp_day", words "daily 0:00")
    ∷ ("cp_2am", words "daily 2:00")
    ∷ ("cp_mon", words "Mon 0:00")
    ∷ ("cron_help", words "help")
    ∷ ("ch_title", words "Cron format")
    ∷ ("ch_format", words "Format: min hour day month weekday (5 space-separated fields)")
    ∷ ("ch_fields", words "Fields")
    ∷ ("ch_ops", words "Operators")
    ∷ ("ch_examples", words "Examples (click to fill)")
    ∷ ("ch_shortcuts", words "Shortcuts")
    ∷ ("t_rule", words "Trigger rule")
    ∷ ("tr_all_success", words "all success")
    ∷ ("tr_all_done", words "all done")
    ∷ ("tr_one_success", words "one success")
    ∷ ("tr_one_failed", words "one failed")
    ∷ ("tr_all_failed", words "all failed")
    ∷ ("tr_none_failed", words "none failed")
    ∷ ("trd_all_success", words "Runs only if all upstreams succeeded (default)")
    ∷ (
      "trd_all_done",
      words "Runs once all upstreams finish, success or not — good for cleanup/summary",
    )
    ∷ ("trd_one_success", words "Runs as soon as any upstream succeeds")
    ∷ ("trd_one_failed", words "Runs as soon as any upstream fails — good for alerts")
    ∷ ("trd_all_failed", words "Runs only if all upstreams failed")
    ∷ ("trd_none_failed", words "Runs if no upstream failed (succeeded or skipped)")
    ∷ (
      "pool_hint",
      words
          "Concurrency slots shared across all DAGs; tasks in the same pool compete for its slots",
    )
    ∷ ("cb_interp", words "Interpreter")
    ∷ ("cb_runas", words "Run as")
    ∷ ("cb_target", words "Module / script")
    ∷ ("cb_args", words "Arguments")
    ∷ ("cb_jar", words "Jar path")
    ∷ ("cb_mainclass", words "Main class")
    ∷ ("cb_client", words "SQL client")
    ∷ ("cb_query", words "SQL query")
    ∷ ("cmdopt_module", words "module (-m)")
    ∷ ("cmdopt_script", words "script file")
    ∷ ("cmd_will_run", words "Will run:")
    ∷ ("cmd_edit_raw", words "edit raw command")
    ∷ ("cmd_use_form", words "use form")
    ∷ ("cmd_cant_parse", words "This command can't be parsed into the form; keeping the raw editor")
    ∷ ("var_insert", words "click or drag to insert a variable")
    ∷ ("var_editor_aria", words "command editor — insert variable pills")
    ∷ ("var_pill_aria", with1 (λ n. codes "variable " ++ show n))
    ∷ ("var_pill_remove", with1 (λ n. codes "remove variable " ++ show n))
    ∷ ("var_empty", words "none")
    ∷ ("var_add_key", words "custom…")
    ∷ ("var_conn_field", words "field")
    ∷ ("var_goto_settings", words "set up")
    ∷ ("vd_logical_date", words "this run's logical date (day)")
    ∷ ("vd_logical_datetime", words "logical date-time (RFC3339)")
    ∷ (
      "vd_date_expr",
      words
          "date expression: ±N d/h/w/mo offsets, .month_start/.month_end/.week_start/.week_end anchors, | %Y%m%d custom format; composable",
    )
    ∷ ("vd_run_id", words "this run's unique id")
    ∷ ("vd_dag_id", words "the DAG id")
    ∷ ("vd_task_id", words "this task's id")
    ∷ ("vd_try_number", words "attempt number (increments on retry)")
    ∷ ("vd_var", words "shared variable")
    ∷ ("vd_conn", words "connection field")
    ∷ ("vd_params", words "manual-trigger param")
    ∷ ("vg_builtin", words "built-in")
    ∷ ("vg_var", words "variables")
    ∷ ("vg_conn", words "connections")
    ∷ ("vg_params", words "params")
    ∷ (
      "graph_connect_hint",
      words
          "Drag the dot on a node's right edge onto another task to connect; click a node to edit the task; Shift+click two nodes (or toggle connect mode and click them in turn) also connects/disconnects; click an edge to remove the dependency",
    )
    ∷ ("ge_addtask", words "+ Add task")
    ∷ ("ge_connect", words "Connect mode")
    ∷ (
      "ge_connect_tip",
      words
          "When on: click the upstream task, then the downstream task to connect/disconnect (keyboard friendly)",
    )
    ∷ ("ge_new_id_title", words "New task ID")
    ∷ ("ge_edge_remove", words "Remove dependency")
    ∷ ("ge_dup_dep", words "Dependency already exists")
    ∷ (
      "ge_edge_aria",
      with2 (λ a b.
          codes "Dependency "
          ++ show a
          ++ codes " → "
          ++ show b
          ++ codes ", press Enter to remove"),
    )
    ∷ ("ge_node_aria", with1 (λ i. codes "Task " ++ show i))
    ∷ (
      "diff_unsaved",
      with1 (λ n. show n ++ codes " unsaved change" ++ (if above 1 n then codes "s" else [])),
    )
    ∷ ("diff_save", words "Save")
    ∷ ("diff_discard", words "Discard")
    ∷ ("diff_show", words "View diff")
    ∷ ("diff_hide", words "Hide diff")
    ∷ ("diff_loading", words "Building diff preview…")
    ∷ ("diff_invalid", words "Pending changes fail validation")
    ∷ ("diff_same", words "Identical to the saved version")
    ∷ ("diff_discarded", words "Unsaved changes discarded")
    ∷ ("t_subdag", words "Target workflow")
    ∷ (
      "subdag_hint",
      words
          "Runs another workflow as a child run: this task mirrors the child run's terminal state, and cancel cascades into it",
    )
    ∷ ("subdag_none", words "Pick a workflow…")
    ∷ ("err_subdag", words "A sub-workflow task needs a target workflow")
    ∷ ("dod_title", words "Cross-workflow dependency")
    ∷ (
      "dod_hint",
      words "The task becomes ready only after the target workflow's matching period run succeeds",
    )
    ∷ ("dod_dag", words "Depends on workflow")
    ∷ ("dod_offset", words "Period offset")
    ∷ ("dod_offset_hint", words "- 1d / .month_start / blank = same period")
    ∷ ("dod_timeout", words "Wait timeout (sec)")
    ∷ ("dod_timeout_hint", words "0 = wait until the run times out")
    ∷ ("dod_on_timeout", words "On timeout")
    ∷ []
