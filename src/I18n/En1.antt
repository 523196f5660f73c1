-- ===== src/I18n/En1.antt =====
-- The dictionary `DICT.en` of internal/web/static/base.js, part 1 of 6.
use cronova.Base.{List, [], ◌∷◌, ◌++◌, codes}
use cronova.I18n.Phrases.{String, Phrase, words, with1, show}

unfoldable pub en_1 : List (String × Phrase)
en_1 =
    ("workspace", words "Workspace")
    ∷ ("nav_dags", words "Workflows")
    ∷ ("newdag", words "+ New workflow")
    ∷ ("f_all", words "All")
    ∷ ("f_running", words "Running")
    ∷ ("f_failed", words "Failed")
    ∷ ("f_paused", words "Paused")
    ∷ (
      "dags_sub",
      words "Click a name for runs and structure; the left toggle pauses / resumes scheduling.",
    )
    ∷ ("ov_fail_title", with1 (λ i. show i ++ codes ": latest run failed"))
    ∷ ("ov_fail_more", with1 (λ n. show n ++ codes " more failing"))
    ∷ ("ov_rest_ok", with1 (λ n. codes "the other " ++ show n ++ codes " are healthy"))
    ∷ ("ov_all_ok", words "All workflows healthy")
    ∷ ("ov_last_run", with1 (λ w. codes "last run " ++ show w))
    ∷ ("ov_running", words "Running")
    ∷ ("ov_running_tip", words "Runs currently executing")
    ∷ ("ov_rate", words "Recent success")
    ∷ ("ov_go", words "Investigate →")
    ∷ (
      "hlp_dag",
      words
          "<b>A workflow (DAG)</b> = tasks that run in dependency order, plus a rule for when to run. <span class=\"eg\">e.g. daily at 2:00 — extract → transform → load.</span>",
    )
    ∷ (
      "hlp_toggle",
      words
          "<b>Schedule switch.</b> Off = no more automatic runs (manual trigger still works); history is kept and it can be re-enabled any time.",
    )
    ∷ (
      "hlp_spark",
      words
          "Each bar is one run: <b class=\"ok\">green</b>=success, <b class=\"bad\">red</b>=failed, <b class=\"run\">blue</b>=running; taller = slower. Hover for details.",
    )
    ∷ ("hlp_next", words "Next automatic run per the schedule. “due” = waiting for a free slot.")
    ∷ (
      "hlp_rate",
      words
          "Share of recent runs that succeeded (up to 14 per workflow; skips and cancellations don't count).",
    )
    ∷ ("toggle_tip_on", words "Enabled — click to pause scheduling")
    ∷ ("toggle_tip_off", words "Paused — click to resume scheduling")
    ∷ ("btn_run_word", words "Run")
    ∷ ("run_now_tip", words "Run once now, manually — doesn't affect the schedule")
    ∷ ("day_today", words "today")
    ∷ ("day_yesterday", words "yesterday")
    ∷ ("h_dag", words "WORKFLOW")
    ∷ ("h_spark", words "LAST 14")
    ∷ ("h_pool", words "POOL")
    ∷ ("h_next", words "NEXT RUN")
    ∷ ("no_match", words "No matching workflows")
    ∷ ("no_match_filter", words "No workflows under this filter")
    ∷ ("no_dags_title", words "No workflows yet")
    ∷ ("no_dags_sub", words "Create your first workflow to start scheduling tasks.")
    ∷ ("trigger", words "Trigger")
    ∷ ("manual_trigger", words "manual trigger")
    ∷ ("back_dags", words "← Workflows")
    ∷ ("run_word", words "run")
    ∷ ("sub_manual", words "manual trigger only")
    ∷ ("max_active", words "max active")
    ∷ ("run_progress", words "Progress")
    ∷ ("sec_graph", words "Dependency graph")
    ∷ ("sec_structure", words "Structure")
    ∷ ("sec_runs", words "Run history")
    ∷ ("sec_instances", words "Task instances")
    ∷ ("g_timeline", words "Timeline")
    ∷ ("g_never_ran", words "did not run")
    ∷ ("run_no_tasks", words "No task instances yet for this run")
    ∷ ("run_done_ok", words "Run finished — success")
    ∷ ("run_done_fail", words "Run failed")
    ∷ ("run_done_timeout", words "Run timed out")
    ∷ ("run_cancel", words "Cancel run")
    ∷ ("run_retry", words "Retry failed")
    ∷ ("task_retry", words "Retry")
    ∷ ("run_cancelled_toast", words "Run cancelled")
    ∷ ("run_retried_toast", words "Re-queued")
    ∷ ("task_mark", words "Mark state")
    ∷ ("run_mark", words "Mark run")
    ∷ ("mark_skip", words "Skip")
    ∷ ("mark_done_toast", words "Marked")
    ∷ ("mark_task_title", with1 (λ i. codes "Mark task “" ++ show i ++ codes "” as?"))
    ∷ (
      "mark_task_body",
      words
          "Manually override the task state. A running task is stopped first; marking success/skip releases downstream tasks it was blocking.",
    )
    ∷ ("mark_run_title", with1 (λ i. codes "Mark run “" ++ show i ++ codes "” as?"))
    ∷ (
      "mark_run_body",
      words
          "Override a finished run's recorded outcome (tasks untouched). Marking success fires downstream-workflow triggers.",
    )
    ∷ ("confirm_cancel_title", with1 (λ i. codes "Cancel run “" ++ show i ++ codes "”?"))
    ∷ ("confirm_cancel_body", words "Running tasks will be killed.")
    ∷ ("th_act", words "Actions")
    ∷ ("confirm_retry_title", with1 (λ i. codes "Retry “" ++ show i ++ codes "”?"))
    ∷ (
      "confirm_retry_body",
      words "This task and all of its downstream tasks will be reset and re-run.",
    )
    ∷ ("copied", words "Copied")
    ∷ ("copy_fail", words "Copy failed — select the text manually")
    ∷ ("copy_hint", words "Click to copy")
    ∷ ("search_ph", words "Search workflows…")
    ∷ ("jump_open", words "Open")
    ∷ ("jump_none", words "No matching workflow")
    ∷ ("gz_in", words "Zoom in")
    ∷ ("gz_out", words "Zoom out")
    ∷ ("gz_fit", words "Fit to view")
    ∷ ("gz_hint", words "Drag to pan · Ctrl/⌘ + wheel to zoom")
    ∷ ("login_title", words "Sign in to cronova")
    ∷ ("login_sub", words "Enter your account credentials")
    ∷ ("login_user", words "Username")
    ∷ ("login_pass", words "Password")
    ∷ ("login_btn", words "Sign in")
    ∷ ("login_bad", words "Invalid username or password")
    ∷ ("logout", words "Sign out")
    ∷ ("sess_expired", words "Session expired — please sign in again")
    ∷ ("role_admin", words "Admin")
    ∷ ("role_viewer", words "Viewer")
    ∷ ("tab_runs", words "Runs")
    ∷ ("tab_structure", words "Structure")
    ∷ ("tab_settings", words "Settings")
    ∷ ("dh_last", words "Last run")
    ∷ ("dh_next", words "Schedule")
    ∷ ("dh_rate", words "Success rate")
    ∷ ("dh_never", words "No runs yet")
    ∷ ("dh_norate", words "—")
    ∷ ("set_done", words "Done")
    ∷ ("set_edit", words "Edit")
    ∷ ("set_none", words "None")
    ∷ ("set_sched", words "Schedule")
    ∷ ("set_max", words "Max active runs")
    ∷ ("set_retries", words "Default retries")
    ∷ ("set_deps", words "Upstream workflows")
    ∷ ("set_deps_hint", words "Triggered automatically after these workflows succeed")
    ∷ ("set_no_deps_avail", words "No other workflows available")
    ∷ ("set_notify", words "Notifications")
    ∷ (
      "set_notify_hint",
      words
          "POST a JSON webhook when a run finishes (Slack/Feishu/Discord compatible), or reference an alert group to notify several channels at once",
    )
    ∷ ("notify_failure", words "Failure")
    ∷ ("notify_success", words "Success")
    ∷ ("notify_off", words "No events selected")
    ∷ (
      "notify_need_url",
      words "Enter a webhook URL or pick an alert group first, then pick events",
    )
    ∷ ("err_notify_url", words "Notify URL must start with http://, https:// or mailto:")
    ∷ ("nf_label", words "Message format")
    ∷ (
      "nf_hint",
      words
          "raw = full JSON payload; the others wrap the summary text in that platform's incoming-webhook envelope; email is for mailto: targets",
    )
    ∷ ("nf_feishu", words "Feishu")
    ∷ ("nf_dingtalk", words "DingTalk")
    ∷ ("nf_email", words "Email")
    ∷ ("set_group", words "Alert group")
    ∷ ("ag_group_none", words "No alert group")
    ∷ ("ag_opt_missing", with1 (λ n. show n ++ codes " (missing)"))
    ∷ (
      "ag_url_overridden",
      words "An alert group is selected — this standalone URL will be ignored",
    )
    ∷ []
