-- ===== src/I18n/En6.antt =====
-- The dictionary `DICT.en` of internal/web/static/base.js, part 6 of 6.
use cronova.Base.{List, [], ◌∷◌, ◌++◌, codes, if◌then◌else◌}
use cronova.I18n.Phrases.{String, Phrase, words, with1, with2, show, above}

unfoldable pub en_6 : List (String × Phrase)
en_6 =
    ("nv_sys_ok", words "System healthy")
    ∷ ("nv_newflow", words "+ New workflow")
    ∷ ("s0_title", words "Hand your repetitive scripts to cronova")
    ∷ ("s0_sub", words "Runs on schedule, retries on failure, logs always at hand.")
    ∷ ("s0_sub2", words "Three steps to your first workflow — about a minute.")
    ∷ ("s0_step1", words "Pick a starting point")
    ∷ ("s0_step2", words "Confirm the commands")
    ∷ ("s0_step3", words "Run once, watch it go green")
    ∷ ("s0_cta", words "Create my first workflow →")
    ∷ ("s0_expert_link", words "I've used Airflow / Azkaban — take me to expert mode →")
    ∷ (
      "s0_term_hint",
      words
          "A “workflow” is a set of commands run in order — the technical term is DAG. Expert mode uses the full terminology.",
    )
    ∷ ("wz_crumb", words "New workflow")
    ∷ ("wz_back", words "← Back")
    ∷ ("wz_stepof", with1 (λ n. codes "Step " ++ show n ++ codes " of 3"))
    ∷ ("wz1_title", words "Pick the scenario closest to yours")
    ∷ ("wz1_sub", words "Everything can be changed later — this is just a starting point.")
    ∷ ("wz_tpl_etl", words "Daily data pipeline")
    ∷ ("wz_tpl_etl_d", words "Fetch, transform, then load — three steps in order")
    ∷ ("wz_tpl_etl_m", words "3 steps · each waits for the previous to succeed")
    ∷ ("wz_tpl_report", words "Scheduled report")
    ∷ ("wz_tpl_report_d", words "Fetch data and send a report — great for a daily 8am digest")
    ∷ ("wz_tpl_report_m", words "2 steps · preset daily 08:00")
    ∷ ("wz_tpl_blank", words "From scratch")
    ∷ ("wz_tpl_blank_d", words "A single step running any command or script of yours")
    ∷ ("wz_tpl_blank_m", words "1 step · simplest")
    ∷ ("wz_tpl_blank_chip", words "your command")
    ∷ ("wz1_next", words "Next: confirm commands →")
    ∷ ("wz2_title", words "These steps run one after another")
    ∷ (
      "wz2_sub",
      words
          "A command is the line you'd type in a terminal. Each step starts only after the previous succeeds; failures retry automatically.",
    )
    ∷ ("wz2_name_label", words "Name your workflow")
    ∷ ("wz2_name_hint", words "Letters, digits or underscores — e.g. daily_report")
    ∷ (
      "wz2_adv",
      words
          "Optional: commands can embed runtime variables, replaced with real values at run time. Try it —",
    )
    ∷ ("wz2_datevar", words "+ Today's date")
    ∷ ("wz2_datevar_note", words "appends to the end of step 1's command:")
    ∷ (
      "wz2_inserted",
      with1 (λ d.
          codes "Inserted ✓ replaced with the actual date at run time, e.g. --date "
          ++ show d
          ++ codes " (editable in the input above)"),
    )
    ∷ ("wz2_next", words "Next: when should it run →")
    ∷ ("wz_prev", words "← Previous")
    ∷ ("wz3_title", words "When should it run?")
    ∷ ("wz3_sub", words "A rough choice is fine — change it any time later.")
    ∷ ("wz3_daily", words "Every day at a fixed time")
    ∷ ("wz3_daily_d", words "Most common: crunch data at night, send reports in the morning")
    ∷ ("wz3_interval", words "At a regular interval")
    ∷ ("wz3_interval_d", words "Good for polling and sync jobs")
    ∷ ("wz3_every", words "every")
    ∷ ("wz3_minutes", words "minutes")
    ∷ ("wz3_manual", words "Only when I trigger it")
    ∷ ("wz3_manual_d", words "Run it by hand first — automate once you trust it")
    ∷ (
      "wz3_note",
      words "After creating, we'll take you straight to a trial run to confirm everything works.",
    )
    ∷ (
      "wz3_cron_hint",
      words "In expert mode this is a cron expression (e.g. 0 2 * * *) with more powerful rules.",
    )
    ∷ ("wz3_create", words "▶ Create & run once")
    ∷ (
      "nv_sched_daily",
      with1 (λ h. codes "It will run automatically every day at " ++ show h ++ codes "."),
    )
    ∷ (
      "nv_sched_interval",
      with1 (λ n. codes "It will run automatically every " ++ show n ++ codes " minutes."),
    )
    ∷ ("nv_sched_manual", words "It only runs when you click “Run” — never automatically.")
    ∷ ("nv_gloss_daily", with1 (λ h. codes "daily at " ++ show h))
    ∷ ("nv_gloss_every", with2 (λ n u. codes "every " ++ show n ++ codes " " ++ show u))
    ∷ ("nv_gloss_manual", words "manual only")
    ∷ ("nvr_running_title", with1 (λ d. codes "Running " ++ show d ++ codes " …"))
    ∷ ("nvr_sub", words "Steps advance automatically — no need to refresh.")
    ∷ ("nvr_done_title", with1 (λ d. codes "Run succeeded in " ++ show d))
    ∷ ("nvr_done_sub", words "On failure it retries automatically and keeps the logs here.")
    ∷ ("nvr_done_home", words "Done — back home")
    ∷ ("nvr_detail", words "View details")
    ∷ (
      "nvr_failed_title",
      with2 (λ n i. codes "Step " ++ show n ++ codes " " ++ show i ++ codes " failed"),
    )
    ∷ ("nvr_failed_generic", words "The run failed")
    ∷ (
      "nvr_failed_sub",
      words
          "Earlier steps succeeded; later ones didn't run. See the last lines of the log for the cause.",
    )
    ∷ (
      "nvr_retried",
      with1 (λ n. codes "Retried " ++ show n ++ codes " time(s) automatically, still failing."),
    )
    ∷ ("nvr_cancelled_title", words "Run cancelled")
    ∷ ("nvr_timeout_title", words "Run timed out and was stopped")
    ∷ (
      "nvr_cancelled_sub",
      words "You stopped this run. If the commands look right, run it again any time.",
    )
    ∷ (
      "nvr_timeout_sub",
      words "The run exceeded its time limit and was force-stopped; later steps did not run.",
    )
    ∷ ("nvr_rerun", words "Fixed — run again ▶")
    ∷ ("nvr_rerun2", words "Run again ▶")
    ∷ ("nvr_edit_steps", words "Edit steps")
    ∷ ("nvr_home", words "Home")
    ∷ ("nvr_waiting", words "waiting")
    ∷ ("nvr_notrun", words "did not run")
    ∷ ("nvr_running_dur", words "running…")
    ∷ (
      "nvr_retry_n",
      with1 (λ n. show n ++ codes " retr" ++ (if above 1 n then codes "ies" else codes "y")),
    )
    ∷ ("nv_health_ok", words "All good")
    ∷ (
      "nv_health_line",
      with1 (λ n.
          show n
          ++ codes " workflow"
          ++ (if above 1 n then codes "s" else [])
          ++ codes " · no recent failures"),
    )
    ∷ (
      "nv_health_bad_title",
      with1 (λ n.
          show n
          ++ codes " workflow"
          ++ (if above 1 n then codes "s" else [])
          ++ codes " need"
          ++ (if above 1 n then [] else codes "s")
          ++ codes " attention"),
    )
    ∷ (
      "nv_health_bad_line",
      with1 (λ i. show i ++ codes "'s latest run failed · rerun with one click once fixed"),
    )
    ∷ ("nv_fix", words "Fix it →")
    ∷ ("nv_metrics_link", words "Full metrics →")
    ∷ ("nv_run_btn", words "▶ Run")
    ∷ ("nv_view_btn", words "View →")
    ∷ ("nv_next_hints", words "Next you could:")
    ∷ ("nv_hint_another", words "create another workflow")
    ∷ ("nv_hint_expert", words "switch to expert mode for everything else")
    ∷ ("nv_never_ran", words "hasn't run yet")
    ∷ ("nv_last_run", with1 (λ s. codes "last run " ++ show s))
    ∷ ("nv_enabled", words "enabled")
    ∷ ("nv_run_now", words "▶ Run now")
    ∷ ("nv_more", words "More ⋯")
    ∷ ("nv_more_title", words "Pause / duplicate / delete and more")
    ∷ ("nv_more_q", with1 (λ i. codes "What to do with " ++ show i ++ codes "?"))
    ∷ ("nv_more_expert", words "Edit in expert mode")
    ∷ ("nv_steps_h", words "Steps")
    ∷ ("nv_steps_hint", words "(called “tasks” in expert mode)")
    ∷ ("nv_edit", words "Edit")
    ∷ ("nv_add_step", words "+ Add step")
    ∷ ("nv_edit_step_title", with1 (λ i. codes "Edit step " ++ show i))
    ∷ ("nv_del_step", words "Delete this step")
    ∷ ("nv_recent_h", words "Recent runs")
    ∷ ("nv_view_log", words "View log →")
    ∷ ("nv_notify_h", words "Failure alerts")
    ∷ ("nv_notify_toggle", words "Notify me on failure")
    ∷ (
      "nv_notify_hint",
      words
          "Paste an incoming-webhook URL (Slack / Feishu / DingTalk auto-detected). A message is sent when a run fails.",
    )
    ∷ ("nv_adv_summary", words "More settings (concurrency, retries, timeouts…)")
    ∷ (
      "nv_adv_body",
      with2 (λ r m.
          codes "The defaults are enough to start: "
          ++ (if above 0 r
              then show r
                ++ codes " automatic retr"
                ++ (if above 1 r then codes "ies" else codes "y")
                ++ codes " on failure, "
              else [])
          ++ codes "at most "
          ++ show m
          ++ codes " run"
          ++ (if above 1 m then codes "s" else [])
          ++ codes " at a time."),
    )
    ∷ ("nv_adv_body2", words "Expand when you need fine control, or")
    ∷ ("nv_adv_body3", words "for every setting.")
    ∷ ("nv_to_expert", words "switch to expert mode")
    ∷ (
      "nv_fail_ribbon",
      with2 (λ n i. codes "Step " ++ show n ++ codes " " ++ show i ++ codes " failed"),
    )
    ∷ ("nv_fail_ribbon_generic", words "The latest run failed")
    ∷ ("nv_see_log", words "view log")
    ∷ ("nv_step_extract", words "Extract data")
    ∷ ("nv_step_transform", words "Transform")
    ∷ ("nv_step_load", words "Load results")
    ∷ ("nv_step_fetch", words "Fetch data")
    ∷ ("nv_step_render", words "Render & send report")
    ∷ ("nv_step_1", words "First step")
    ∷ []
