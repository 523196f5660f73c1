-- ===== src/I18n/Zh6.antt =====
-- The dictionary `DICT.zh` of internal/web/static/base.js, part 6 of 6.
use cronova.Base.{List, [], ◌∷◌, ◌++◌, codes, if◌then◌else◌}
use cronova.I18n.Phrases.{String, Phrase, words, with1, with2, show, above}

unfoldable pub zh_6 : List (String × Phrase)
zh_6 =
    ("nv_sys_ok", words "系统运行正常")
    ∷ ("nv_newflow", words "＋ 新建工作流")
    ∷ ("s0_title", words "把重复的脚本，交给 cronova 定时跑")
    ∷ ("s0_sub", words "按时执行、失败自动重试、随时查看日志。")
    ∷ ("s0_sub2", words "三步建好第一条工作流，大约需要 1 分钟。")
    ∷ ("s0_step1", words "选一个起点")
    ∷ ("s0_step2", words "确认要执行的命令")
    ∷ ("s0_step3", words "试跑一次，看它变绿")
    ∷ ("s0_cta", words "创建我的第一个工作流 →")
    ∷ ("s0_expert_link", words "我用过 Airflow / Azkaban，直接进专家模式 →")
    ∷ ("s0_term_hint", words "「工作流」= 按顺序执行的一组命令，专业术语叫 DAG。切到专家模式会看到完整术语。")
    ∷ ("wz_crumb", words "新建工作流")
    ∷ ("wz_back", words "← 返回")
    ∷ ("wz_stepof", with1 (λ n. codes "第 " ++ show n ++ codes " 步 / 共 3 步"))
    ∷ ("wz1_title", words "选一个和你最像的场景")
    ∷ ("wz1_sub", words "之后每一步都可以改，这只是一个起点。")
    ∷ ("wz_tpl_etl", words "每日数据处理")
    ∷ ("wz_tpl_etl_d", words "先取数、再加工、最后写入 —— 三步依次执行")
    ∷ ("wz_tpl_etl_m", words "3 个步骤 · 上一步成功才执行下一步")
    ∷ ("wz_tpl_report", words "定时报表")
    ∷ ("wz_tpl_report_d", words "取数、生成报表并发送 —— 适合每天早上自动发日报")
    ∷ ("wz_tpl_report_m", words "2 个步骤 · 预设每天 08:00")
    ∷ ("wz_tpl_blank", words "从零开始")
    ∷ ("wz_tpl_blank_d", words "只有一个步骤，跑你自己的任意命令或脚本")
    ∷ ("wz_tpl_blank_m", words "1 个步骤 · 最简单")
    ∷ ("wz_tpl_blank_chip", words "你的命令")
    ∷ ("wz1_next", words "下一步：确认命令 →")
    ∷ ("wz2_title", words "这些步骤会依次执行")
    ∷ ("wz2_sub", words "命令就是你平时在终端里敲的那一行。上一步成功，才会开始下一步；失败会自动重试。")
    ∷ ("wz2_name_label", words "给工作流起个名字")
    ∷ ("wz2_name_hint", words "用英文、数字或下划线，例如 daily_report")
    ∷ ("wz2_adv", words "进阶（可跳过）：命令里可以插入运行时变量，跑的时候自动替换成真实值。点一下试试——")
    ∷ ("wz2_datevar", words "＋ 今天的日期")
    ∷ ("wz2_datevar_note", words "会在第 1 步命令末尾加上")
    ∷ (
      "wz2_inserted",
      with1 (λ d. codes "已插入 ✓ 运行时会替换成实际日期，例如 --date " ++ show d ++ codes "（可在上面的输入框里直接改）"),
    )
    ∷ ("wz2_next", words "下一步：什么时候运行 →")
    ∷ ("wz_prev", words "← 上一步")
    ∷ ("wz3_title", words "它应该什么时候运行？")
    ∷ ("wz3_sub", words "现在选个大概就行，之后随时能改。")
    ∷ ("wz3_daily", words "每天固定时间")
    ∷ ("wz3_daily_d", words "最常见：夜里跑数据、早上发报表")
    ∷ ("wz3_interval", words "每隔一段时间")
    ∷ ("wz3_interval_d", words "适合轮询、同步类任务")
    ∷ ("wz3_every", words "每")
    ∷ ("wz3_minutes", words "分钟")
    ∷ ("wz3_manual", words "只在我手动点击时运行")
    ∷ ("wz3_manual_d", words "先手动跑熟了，再设成自动也不迟")
    ∷ ("wz3_note", words "创建后会立刻带你手动试跑一次，确认一切正常。")
    ∷ ("wz3_cron_hint", words "专家模式里这里是 cron 表达式（如 0 2 * * *），支持更复杂的规则。")
    ∷ ("wz3_create", words "▶ 创建并试跑一次")
    ∷ ("nv_sched_daily", with1 (λ h. codes "将于每天 " ++ show h ++ codes " 自动运行。"))
    ∷ ("nv_sched_interval", with1 (λ n. codes "将每隔 " ++ show n ++ codes " 分钟自动运行一次。"))
    ∷ ("nv_sched_manual", words "只在你手动点击「运行」时执行，不会自动触发。")
    ∷ ("nv_gloss_daily", with1 (λ h. codes "每天 " ++ show h ++ codes " 自动运行"))
    ∷ ("nv_gloss_every", with2 (λ n u. codes "每 " ++ show n ++ codes " " ++ show u ++ codes "自动运行"))
    ∷ ("nv_gloss_manual", words "仅手动运行")
    ∷ ("nvr_running_title", with1 (λ d. codes "正在运行 " ++ show d ++ codes " …"))
    ∷ ("nvr_sub", words "每个步骤跑完会自动进入下一步，不用刷新。")
    ∷ ("nvr_done_title", with1 (λ d. codes "运行成功，用时 " ++ show d))
    ∷ ("nvr_done_sub", words "失败时它会自动重试，并把日志留在这里。")
    ∷ ("nvr_done_home", words "完成，回到首页")
    ∷ ("nvr_detail", words "查看详情")
    ∷ (
      "nvr_failed_title",
      with2 (λ n i. codes "第 " ++ show n ++ codes " 步 " ++ show i ++ codes " 失败了"),
    )
    ∷ ("nvr_failed_generic", words "运行失败了")
    ∷ ("nvr_failed_sub", words "前面的步骤已成功，后面的没有执行。错误原因见日志最后几行。")
    ∷ ("nvr_retried", with1 (λ n. codes "已自动重试 " ++ show n ++ codes " 次仍失败。"))
    ∷ ("nvr_cancelled_title", words "运行已取消")
    ∷ ("nvr_timeout_title", words "运行超时，已强制停止")
    ∷ ("nvr_cancelled_sub", words "你手动停止了这次运行。命令没问题的话，随时可以再次运行。")
    ∷ ("nvr_timeout_sub", words "运行超过了设定的时长限制，已被强制停止，后面的步骤没有执行。")
    ∷ ("nvr_rerun", words "修复后重跑 ▶")
    ∷ ("nvr_rerun2", words "再次运行 ▶")
    ∷ ("nvr_edit_steps", words "编辑步骤")
    ∷ ("nvr_home", words "回首页")
    ∷ ("nvr_waiting", words "等待中")
    ∷ ("nvr_notrun", words "未执行")
    ∷ ("nvr_running_dur", words "运行中…")
    ∷ ("nvr_retry_n", with1 (λ n. codes "重试 " ++ show n ++ codes " 次"))
    ∷ ("nv_health_ok", words "一切正常")
    ∷ ("nv_health_line", with1 (λ n. show n ++ codes " 个工作流 · 最近运行没有失败"))
    ∷ ("nv_health_bad_title", with1 (λ n. codes "有 " ++ show n ++ codes " 个工作流需要处理"))
    ∷ ("nv_health_bad_line", with1 (λ i. show i ++ codes " 的最近一次运行失败 · 修复后可一键重跑"))
    ∷ ("nv_fix", words "去处理 →")
    ∷ ("nv_metrics_link", words "查看完整指标 →")
    ∷ ("nv_run_btn", words "▶ 运行")
    ∷ ("nv_view_btn", words "查看 →")
    ∷ ("nv_next_hints", words "下一步可以：")
    ∷ ("nv_hint_another", words "再建一个工作流")
    ∷ ("nv_hint_expert", words "切到专家模式看全部功能")
    ∷ ("nv_never_ran", words "还没有运行过")
    ∷ ("nv_last_run", with1 (λ s. codes "上次运行" ++ show s))
    ∷ ("nv_enabled", words "已启用")
    ∷ ("nv_run_now", words "▶ 立即运行")
    ∷ ("nv_more", words "更多 ⋯")
    ∷ ("nv_more_title", words "暂停 / 复制 / 删除等更多操作")
    ∷ ("nv_more_q", with1 (λ i. codes "对 " ++ show i ++ codes " 做什么？"))
    ∷ ("nv_more_expert", words "切到专家模式编辑")
    ∷ ("nv_steps_h", words "步骤")
    ∷ ("nv_steps_hint", words "（专家模式里叫「任务 / task」）")
    ∷ ("nv_edit", words "编辑")
    ∷ ("nv_add_step", words "+ 添加步骤")
    ∷ ("nv_edit_step_title", with1 (λ i. codes "编辑步骤 " ++ show i))
    ∷ ("nv_del_step", words "删除此步骤")
    ∷ ("nv_recent_h", words "最近运行")
    ∷ ("nv_view_log", words "查看日志 →")
    ∷ ("nv_notify_h", words "失败通知")
    ∷ ("nv_notify_toggle", words "失败时通知我")
    ∷ ("nv_notify_hint", words "粘贴群机器人的 Webhook 地址（支持 Slack / 飞书 / 钉钉，自动识别格式）。运行失败时会发一条消息。")
    ∷ ("nv_adv_summary", words "更多设置（并发、重试、超时……）")
    ∷ (
      "nv_adv_body",
      with2 (λ r m.
          codes "这些默认值已经够用："
          ++ (if above 0 r then codes "失败自动重试 " ++ show r ++ codes " 次、" else [])
          ++ codes "同一时间只跑 "
          ++ show m
          ++ codes " 份。"),
    )
    ∷ ("nv_adv_body2", words "需要精细控制时再展开，或")
    ∷ ("nv_adv_body3", words "查看全部设置项。")
    ∷ ("nv_to_expert", words "切到专家模式")
    ∷ (
      "nv_fail_ribbon",
      with2 (λ n i. codes "第 " ++ show n ++ codes " 步 " ++ show i ++ codes " 失败"),
    )
    ∷ ("nv_fail_ribbon_generic", words "最近一次运行失败")
    ∷ ("nv_see_log", words "看日志")
    ∷ ("nv_step_extract", words "抽取数据")
    ∷ ("nv_step_transform", words "加工处理")
    ∷ ("nv_step_load", words "写入结果")
    ∷ ("nv_step_fetch", words "取数")
    ∷ ("nv_step_render", words "生成并发送报表")
    ∷ ("nv_step_1", words "第一步")
    ∷ []
