-- ===== src/I18n/Zh1.antt =====
-- The dictionary `DICT.zh` of internal/web/static/base.js, part 1 of 6.
use cronova.Base.{List, [], ◌∷◌, ◌++◌, codes}
use cronova.I18n.Phrases.{String, Phrase, words, with1, show}

unfoldable pub zh_1 : List (String × Phrase)
zh_1 =
    ("workspace", words "工作区")
    ∷ ("nav_dags", words "工作流")
    ∷ ("newdag", words "+ 新建工作流")
    ∷ ("f_all", words "全部")
    ∷ ("f_running", words "运行中")
    ∷ ("f_failed", words "失败")
    ∷ ("f_paused", words "已暂停")
    ∷ ("dags_sub", words "点击名称查看运行记录和结构；用左侧开关暂停 / 恢复自动调度。")
    ∷ ("ov_fail_title", with1 (λ i. show i ++ codes " 最近一次运行失败"))
    ∷ ("ov_fail_more", with1 (λ n. codes "另有 " ++ show n ++ codes " 个工作流也在失败"))
    ∷ ("ov_rest_ok", with1 (λ n. codes "其余 " ++ show n ++ codes " 个工作流一切正常"))
    ∷ ("ov_all_ok", words "所有工作流运行正常")
    ∷ ("ov_last_run", with1 (λ w. codes "最近一次运行 " ++ show w))
    ∷ ("ov_running", words "运行中")
    ∷ ("ov_running_tip", words "正在执行的运行数")
    ∷ ("ov_rate", words "近期成功率")
    ∷ ("ov_go", words "去处理 →")
    ∷ (
      "hlp_dag",
      words
          "<b>工作流（DAG）</b>= 一组按依赖顺序自动执行的任务，加上「什么时候跑」的调度规则。<span class=\"eg\">例如：每天 2 点，先取数 → 再加工 → 最后写入。</span>",
    )
    ∷ ("hlp_toggle", words "<b>调度开关。</b>关掉后不再自动运行（手动触发仍可用），历史全部保留，随时可恢复。")
    ∷ (
      "hlp_spark",
      words
          "每一格是一次运行：<b class=\"ok\">绿</b>=成功、<b class=\"bad\">红</b>=失败、<b class=\"run\">蓝</b>=进行中，越高耗时越长。悬停看详情。",
    )
    ∷ ("hlp_next", words "按调度规则算出的下一次自动运行时间。「就绪」= 正在等一个空闲槽位。")
    ∷ ("hlp_rate", words "最近运行中成功的比例（每个工作流最多统计 14 次，跳过和取消不计入）。")
    ∷ ("toggle_tip_on", words "已启用 —— 点击暂停自动调度")
    ∷ ("toggle_tip_off", words "已暂停 —— 点击恢复自动调度")
    ∷ ("btn_run_word", words "运行")
    ∷ ("run_now_tip", words "立即手动运行一次，不影响原有调度")
    ∷ ("day_today", words "今天")
    ∷ ("day_yesterday", words "昨天")
    ∷ ("h_dag", words "工作流")
    ∷ ("h_spark", words "最近 14 次")
    ∷ ("h_pool", words "POOL")
    ∷ ("h_next", words "下次运行")
    ∷ ("no_match", words "没有匹配的工作流")
    ∷ ("no_match_filter", words "这个筛选下没有工作流")
    ∷ ("no_dags_title", words "还没有工作流")
    ∷ ("no_dags_sub", words "创建第一个工作流，开始调度任务。")
    ∷ ("trigger", words "触发")
    ∷ ("manual_trigger", words "手动触发")
    ∷ ("back_dags", words "← 工作流")
    ∷ ("run_word", words "run")
    ∷ ("sub_manual", words "仅手动触发")
    ∷ ("max_active", words "最大并发")
    ∷ ("run_progress", words "进度")
    ∷ ("sec_graph", words "依赖图")
    ∷ ("sec_structure", words "结构")
    ∷ ("sec_runs", words "运行历史")
    ∷ ("sec_instances", words "任务实例")
    ∷ ("g_timeline", words "时间线")
    ∷ ("g_never_ran", words "未运行")
    ∷ ("run_no_tasks", words "该运行暂无任务实例")
    ∷ ("run_done_ok", words "运行成功完成")
    ∷ ("run_done_fail", words "运行失败")
    ∷ ("run_done_timeout", words "运行超时")
    ∷ ("run_cancel", words "取消运行")
    ∷ ("run_retry", words "重跑失败")
    ∷ ("task_retry", words "重跑")
    ∷ ("run_cancelled_toast", words "运行已取消")
    ∷ ("run_retried_toast", words "已重新排队")
    ∷ ("task_mark", words "标记状态")
    ∷ ("run_mark", words "标记运行")
    ∷ ("mark_skip", words "跳过")
    ∷ ("mark_done_toast", words "已标记")
    ∷ ("mark_task_title", with1 (λ i. codes "标记任务“" ++ show i ++ codes "”为?"))
    ∷ ("mark_task_body", words "手动覆盖任务状态。运行中的任务会先被终止;标记成功/跳过会放行被它阻塞的下游。")
    ∷ ("mark_run_title", with1 (λ i. codes "标记运行“" ++ show i ++ codes "”为?"))
    ∷ ("mark_run_body", words "覆盖已结束运行的最终状态(不改动任务)。标记成功会触发下游工作流。")
    ∷ ("confirm_cancel_title", with1 (λ i. codes "取消运行“" ++ show i ++ codes "”?"))
    ∷ ("confirm_cancel_body", words "正在运行的任务会被终止。")
    ∷ ("th_act", words "操作")
    ∷ ("confirm_retry_title", with1 (λ i. codes "重跑“" ++ show i ++ codes "”?"))
    ∷ ("confirm_retry_body", words "该任务及其所有下游任务会被重置并重新运行。")
    ∷ ("copied", words "已复制")
    ∷ ("copy_fail", words "复制失败，请手动选择文本")
    ∷ ("copy_hint", words "点击复制")
    ∷ ("search_ph", words "搜索工作流…")
    ∷ ("jump_open", words "打开")
    ∷ ("jump_none", words "无匹配工作流")
    ∷ ("gz_in", words "放大")
    ∷ ("gz_out", words "缩小")
    ∷ ("gz_fit", words "适应视图")
    ∷ ("gz_hint", words "拖拽平移 · Ctrl/⌘+滚轮缩放")
    ∷ ("login_title", words "登录 cronova")
    ∷ ("login_sub", words "请输入你的账户凭据")
    ∷ ("login_user", words "用户名")
    ∷ ("login_pass", words "密码")
    ∷ ("login_btn", words "登录")
    ∷ ("login_bad", words "用户名或密码错误")
    ∷ ("logout", words "登出")
    ∷ ("sess_expired", words "会话已过期，请重新登录")
    ∷ ("role_admin", words "管理员")
    ∷ ("role_viewer", words "只读")
    ∷ ("tab_runs", words "运行")
    ∷ ("tab_structure", words "结构")
    ∷ ("tab_settings", words "设置")
    ∷ ("dh_last", words "上次运行")
    ∷ ("dh_next", words "调度")
    ∷ ("dh_rate", words "近期成功率")
    ∷ ("dh_never", words "还没有运行")
    ∷ ("dh_norate", words "—")
    ∷ ("set_done", words "完成")
    ∷ ("set_edit", words "编辑")
    ∷ ("set_none", words "无")
    ∷ ("set_sched", words "调度")
    ∷ ("set_max", words "最大并发")
    ∷ ("set_retries", words "默认重试")
    ∷ ("set_deps", words "上游依赖")
    ∷ ("set_deps_hint", words "上游工作流成功后自动触发本工作流")
    ∷ ("set_no_deps_avail", words "暂无其他工作流可选")
    ∷ ("set_notify", words "通知")
    ∷ ("set_notify_hint", words "运行结束后向 Webhook 发送 JSON（兼容 Slack/飞书/Discord），或引用告警组一次通知多个渠道")
    ∷ ("notify_failure", words "失败")
    ∷ ("notify_success", words "成功")
    ∷ ("notify_off", words "未选择事件")
    ∷ ("notify_need_url", words "先填写 Webhook URL 或选择告警组，再选择触发事件")
    ∷ ("err_notify_url", words "通知 URL 必须以 http://、https:// 或 mailto: 开头")
    ∷ ("nf_label", words "消息格式")
    ∷ ("nf_hint", words "raw = 完整 JSON 载荷;其余按平台的入群机器人格式包装摘要文本;email 供 mailto: 地址使用")
    ∷ ("nf_feishu", words "飞书")
    ∷ ("nf_dingtalk", words "钉钉")
    ∷ ("nf_email", words "邮件")
    ∷ ("set_group", words "告警组")
    ∷ ("ag_group_none", words "不使用告警组")
    ∷ ("ag_opt_missing", with1 (λ n. show n ++ codes "（不存在）"))
    ∷ ("ag_url_overridden", words "已选择告警组，单独 URL 将被忽略")
    ∷ []
