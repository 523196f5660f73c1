-- ===== src/I18n/En2.antt =====
-- The dictionary `DICT.en` of internal/web/static/base.js, part 2 of 6.
use cronova.Base.{List, [], ◌∷◌, ◌++◌, codes, if◌then◌else◌}
use cronova.I18n.Phrases.{String, Phrase, words, with1, with2, show, above}

unfoldable pub en_2 : List (String × Phrase)
en_2 =
    (
      "notify_mailto_hint",
      words "The URL also accepts mailto:addr1,addr2 (requires smtp: configured on the server)",
    )
    ∷ ("btn_backfill", words "Backfill")
    ∷ (
      "bf_hint",
      words
          "Enqueue one run per schedule period in the window (inclusive; existing periods are skipped, execution obeys max active runs)",
    )
    ∷ ("bf_from", words "From")
    ∷ ("bf_to", words "To")
    ∷ ("bf_go", words "Backfill")
    ∷ ("bf_need_dates", words "Pick both dates")
    ∷ (
      "bf_done",
      with2 (λ c s.
          codes "Backfill enqueued: "
          ++ show c
          ++ codes " run(s) created, "
          ++ show s
          ++ codes " skipped"),
    )
    ∷ ("rf_all", words "All")
    ∷ ("rf_running", words "Active")
    ∷ ("rf_failed", words "Failed")
    ∷ ("rf_success", words "Success")
    ∷ ("t_backoff", words "Retry backoff")
    ∷ ("bo_fixed", words "Fixed")
    ∷ ("bo_exponential", words "Exponential")
    ∷ ("t_backoff_hint", words "Exponential: the n-th retry waits retry delay × 2ⁿ⁻¹")
    ∷ ("t_backoffmax", words "Backoff cap (s)")
    ∷ ("t_backoffmax_hint", words "Longest exponential wait; 0 = uncapped")
    ∷ ("set_sla", words "SLA (soft)")
    ∷ (
      "set_sla_hint",
      words
          "From run start; alert if not finished in time (run keeps going). 0 = off. Needs a notify webhook.",
    )
    ∷ ("set_timeout", words "Run timeout (hard)")
    ∷ (
      "set_timeout_hint",
      words
          "From run start; on breach the run is force-failed and running tasks killed → timed_out. 0 = off.",
    )
    ∷ ("secs", words "sec")
    ∷ ("set_off", words "off")
    ∷ ("t_sla", words "Task SLA (sec)")
    ∷ ("t_sla_hint", words "From run start; alert if this task hasn't finished in time. 0 = off.")
    ∷ ("t_timeout_hint", words "Kill a single execution after this many seconds. 0 = none.")
    ∷ ("danger_title", words "Danger zone")
    ∷ ("danger_del_hint", words "Archive this workflow: no more scheduling; history is kept.")
    ∷ ("nd_more", words "Schedule & more options")
    ∷ ("nd_less", words "Hide")
    ∷ ("nav_resources", words "Variables & Connections")
    ∷ ("nav_audit", words "Audit")
    ∷ ("nav_api", words "API")
    ∷ ("audit_sub", words "Operations log: who did what to which DAG/run, and when.")
    ∷ ("audit_empty", words "No operations logged yet")
    ∷ ("au_time", words "Time")
    ∷ ("au_actor", words "Actor")
    ∷ ("au_action", words "Action")
    ∷ ("au_target", words "Target")
    ∷ ("act_trigger", words "trigger")
    ∷ ("act_cancel", words "cancel")
    ∷ ("act_retry_run", words "retry run")
    ∷ ("act_retry_task", words "retry task")
    ∷ ("act_mark_task", words "mark task")
    ∷ ("act_mark_run", words "mark run")
    ∷ ("act_update_dag", words "save workflow")
    ∷ ("act_create_dag", words "create DAG")
    ∷ ("act_delete_dag", words "delete DAG")
    ∷ ("act_pause", words "pause")
    ∷ ("act_unpause", words "unpause")
    ∷ ("act_create_token", words "create token")
    ∷ ("act_delete_token", words "revoke token")
    ∷ ("act_set_alert_group", words "save alert group")
    ∷ ("act_delete_alert_group", words "delete alert group")
    ∷ ("api_title", words "API & Integration")
    ∷ (
      "api_sub",
      words
          "Drive cronova from your own platform. Browse the interactive API reference and manage API tokens for machine access.",
    )
    ∷ ("api_docs_h", words "API reference")
    ∷ (
      "api_docs_hint",
      words
          "Full OpenAPI reference with built-in curl / Go / Python / Java samples and an in-page language switcher.",
    )
    ∷ ("api_open_docs", words "Open API reference →")
    ∷ ("api_spec_link", words "OpenAPI spec")
    ∷ ("tok_title", words "API Tokens")
    ∷ (
      "tok_sub",
      words
          "Machine credentials. Call the API with Authorization: Bearer <token>. The plaintext is shown only once, at creation.",
    )
    ∷ ("tok_name", words "Name")
    ∷ ("tok_role", words "Role")
    ∷ ("tok_prefix", words "Prefix")
    ∷ ("tok_created", words "Created")
    ∷ ("tok_lastused", words "Last used")
    ∷ ("tok_never", words "Never used")
    ∷ ("tok_create", words "Create token")
    ∷ ("tok_none", words "No tokens yet")
    ∷ ("tok_name_ph", words "e.g. ci-bot")
    ∷ ("tok_revoke", words "Revoke")
    ∷ ("tok_need_name", words "Name is required")
    ∷ ("tok_revoke_title", with1 (λ n. codes "Revoke token “" ++ show n ++ codes "”?"))
    ∷ (
      "tok_revoke_body",
      words "Calls using this token will fail immediately. This cannot be undone.",
    )
    ∷ ("tok_created_ok", words "Token created")
    ∷ ("tok_revoked", words "Token revoked")
    ∷ ("tok_reveal_h", words "Your new API token")
    ∷ (
      "tok_reveal_warn",
      words "Copy it now and store it securely — you won't be able to see the plaintext again.",
    )
    ∷ ("tok_copy", words "Copy")
    ∷ ("tok_done", words "I've saved it")
    ∷ ("role_admin_full", words "Admin (read-write)")
    ∷ ("role_operator", words "Operator (trigger/cancel/retry)")
    ∷ ("role_viewer_ro", words "Viewer (GET only)")
    ∷ ("res_vars", words "Variables")
    ∷ ("res_conns", words "Connections")
    ∷ ("res_groups", words "Alert groups")
    ∷ (
      "res_sub",
      words
          "Config shared across tasks. Reference in commands as {{ var.KEY }} / {{ conn.ID.field }}, or {{ params.KEY }} at trigger time.",
    )
    ∷ (
      "ag_hint",
      words
          "Bundle several notify channels under one name and reference it from workflows via notify.group; when the on-call destinations change, edit them here once.",
    )
    ∷ ("ag_name", words "Group name")
    ∷ ("ag_channels", words "Channels")
    ∷ ("ag_updated", words "Updated")
    ∷ (
      "ag_channel_n",
      with1 (λ n. show n ++ codes " channel" ++ (if above 1 n then codes "s" else [])),
    )
    ∷ ("ag_none", words "No alert groups yet")
    ∷ ("ag_add", words "New alert group")
    ∷ ("ag_edit", words "Edit alert group")
    ∷ ("ag_add_channel", words "+ Add channel")
    ∷ ("ag_remove_channel", words "Remove channel")
    ∷ ("ag_fmt", words "Format")
    ∷ ("ag_url_ph", words "https://hooks.slack.com/… or mailto:oncall@example.com")
    ∷ ("ag_max", with1 (λ n. codes "up to " ++ show n ++ codes " channels"))
    ∷ ("ag_err_channels", words "An alert group needs 1-16 channels")
    ∷ ("ag_err_url", words "Channel URL must start with http://, https:// or mailto:")
    ∷ (
      "ag_mailto_hint",
      words
          "mailto: channels are sent through the server's SMTP relay — configure the smtp: section of the config file first",
    )
    ∷ ("ag_del_title", with1 (λ n. codes "Delete alert group “" ++ show n ++ codes "”?"))
    ∷ (
      "ag_del_body",
      words
          "Workflows referencing it fall back to their own notify URL or the instance default — no alert is lost.",
    )
    ∷ ("v_key", words "Key")
    ∷ ("v_value", words "Value")
    ∷ ("v_add", words "Add variable")
    ∷ ("v_none", words "No variables yet")
    ∷ ("v_save", words "Save")
    ∷ ("c_id", words "Connection ID")
    ∷ ("c_type", words "Type")
    ∷ ("c_host", words "Host")
    ∷ ("c_port", words "Port")
    ∷ ("c_login", words "Login")
    ∷ ("c_password", words "Password")
    ∷ ("c_extra", words "Extra (JSON)")
    ∷ ("c_add", words "New connection")
    ∷ ("c_edit", words "Edit connection")
    ∷ ("c_none", words "No connections yet")
    ∷ ("c_pw_set", words "set")
    ∷ ("c_pw_none", words "not set")
    ∷ ("c_pw_keep", words "leave blank to keep")
    ∷ []
