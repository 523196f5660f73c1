-- ===== src/I18n/Zh2.antt =====
-- The dictionary `DICT.zh` of internal/web/static/base.js, part 2 of 6.
use cronova.Base.{List, [], ◌∷◌, ◌++◌, codes}
use cronova.I18n.Phrases.{String, Phrase, words, with1, with2, show}

unfoldable pub zh_2 : List (String × Phrase)
zh_2 =
    ("notify_mailto_hint", words "URL 也支持 mailto:地址1,地址2（需在服务端配置 smtp: 后才能发信）")
    ∷ ("btn_backfill", words "回填")
    ∷ ("bf_hint", words "为区间内每个调度周期补建一次运行(含首尾;已存在的周期自动跳过,执行受最大并发限制)")
    ∷ ("bf_from", words "开始日期")
    ∷ ("bf_to", words "结束日期")
    ∷ ("bf_go", words "开始回填")
    ∷ ("bf_need_dates", words "请选择起止日期")
    ∷ (
      "bf_done",
      with2 (λ c s. codes "回填已入队:新建 " ++ show c ++ codes " 个运行,跳过 " ++ show s ++ codes " 个已存在"),
    )
    ∷ ("rf_all", words "全部")
    ∷ ("rf_running", words "进行中")
    ∷ ("rf_failed", words "失败")
    ∷ ("rf_success", words "成功")
    ∷ ("t_backoff", words "重试退避")
    ∷ ("bo_fixed", words "固定间隔")
    ∷ ("bo_exponential", words "指数退避")
    ∷ ("t_backoff_hint", words "指数退避:第 n 次重试等待 重试间隔×2ⁿ⁻¹")
    ∷ ("t_backoffmax", words "退避上限(秒)")
    ∷ ("t_backoffmax_hint", words "指数退避的最长等待;0 = 不封顶")
    ∷ ("set_sla", words "SLA（软）")
    ∷ ("set_sla_hint", words "从 run 开始算，超时未完成即告警（继续运行）。0=关闭。需配置通知 Webhook。")
    ∷ ("set_timeout", words "运行超时（硬）")
    ∷ ("set_timeout_hint", words "从 run 开始算，超时则强制失败并杀掉运行中任务 → timed_out。0=关闭。")
    ∷ ("secs", words "秒")
    ∷ ("set_off", words "关闭")
    ∷ ("t_sla", words "任务 SLA（秒）")
    ∷ ("t_sla_hint", words "从 run 开始算，此任务超时未完成即告警。0=关闭。")
    ∷ ("t_timeout_hint", words "单次执行超时即杀（秒）。0=不限。")
    ∷ ("danger_title", words "危险操作")
    ∷ ("danger_del_hint", words "归档此工作流：不再调度，历史保留。")
    ∷ ("nd_more", words "调度与更多选项")
    ∷ ("nd_less", words "收起")
    ∷ ("nav_resources", words "变量 & 连接")
    ∷ ("nav_audit", words "审计")
    ∷ ("nav_api", words "API")
    ∷ ("audit_sub", words "运维操作记录:谁在何时对哪个工作流/运行做了什么。")
    ∷ ("audit_empty", words "暂无操作记录")
    ∷ ("au_time", words "时间")
    ∷ ("au_actor", words "操作人")
    ∷ ("au_action", words "操作")
    ∷ ("au_target", words "对象")
    ∷ ("act_trigger", words "触发")
    ∷ ("act_cancel", words "取消")
    ∷ ("act_retry_run", words "重跑运行")
    ∷ ("act_retry_task", words "重跑任务")
    ∷ ("act_mark_task", words "标记任务")
    ∷ ("act_mark_run", words "标记运行")
    ∷ ("act_update_dag", words "保存工作流")
    ∷ ("act_create_dag", words "创建工作流")
    ∷ ("act_delete_dag", words "归档工作流")
    ∷ ("act_pause", words "暂停")
    ∷ ("act_unpause", words "恢复")
    ∷ ("act_create_token", words "创建 Token")
    ∷ ("act_delete_token", words "撤销 Token")
    ∷ ("act_set_alert_group", words "保存告警组")
    ∷ ("act_delete_alert_group", words "删除告警组")
    ∷ ("api_title", words "API 与集成")
    ∷ ("api_sub", words "把 cronova 的全部能力对接到你的平台。查看交互式 API 文档,并管理机器访问用的 API Token。")
    ∷ ("api_docs_h", words "API 文档")
    ∷ ("api_docs_hint", words "完整的 OpenAPI 参考,内置 curl / Go / Python / Java 示例,可在页面内切换语言。")
    ∷ ("api_open_docs", words "打开 API 文档 →")
    ∷ ("api_spec_link", words "OpenAPI 规范")
    ∷ ("tok_title", words "API Tokens")
    ∷ ("tok_sub", words "机器访问凭据。以 Authorization: Bearer <token> 调用 API。明文仅在创建时显示一次。")
    ∷ ("tok_name", words "名称")
    ∷ ("tok_role", words "角色")
    ∷ ("tok_prefix", words "前缀")
    ∷ ("tok_created", words "创建时间")
    ∷ ("tok_lastused", words "最近使用")
    ∷ ("tok_never", words "从未使用")
    ∷ ("tok_create", words "创建 Token")
    ∷ ("tok_none", words "还没有 Token")
    ∷ ("tok_name_ph", words "如 ci-bot")
    ∷ ("tok_revoke", words "撤销")
    ∷ ("tok_need_name", words "请填写名称")
    ∷ ("tok_revoke_title", with1 (λ n. codes "撤销 Token“" ++ show n ++ codes "”?"))
    ∷ ("tok_revoke_body", words "撤销后使用该 Token 的调用会立即失败,且不可恢复。")
    ∷ ("tok_created_ok", words "Token 已创建")
    ∷ ("tok_revoked", words "Token 已撤销")
    ∷ ("tok_reveal_h", words "你的新 API Token")
    ∷ ("tok_reveal_warn", words "请立即复制并妥善保存 —— 关闭后将无法再次查看明文。")
    ∷ ("tok_copy", words "复制")
    ∷ ("tok_done", words "我已保存")
    ∷ ("role_admin_full", words "管理员(读写)")
    ∷ ("role_operator", words "运维(触发/取消/重跑)")
    ∷ ("role_viewer_ro", words "只读(仅 GET)")
    ∷ ("res_vars", words "变量")
    ∷ ("res_conns", words "连接")
    ∷ ("res_groups", words "告警组")
    ∷ ("res_sub", words "跨任务共享的配置。命令里用 {{ var.KEY }} / {{ conn.ID.字段 }} 引用，触发时用 {{ params.KEY }}。")
    ∷ ("ag_hint", words "把多个通知渠道打包成一个具名分组，工作流通过 notify.group 引用；值班渠道调整时只需改这里。")
    ∷ ("ag_name", words "组名")
    ∷ ("ag_channels", words "渠道")
    ∷ ("ag_updated", words "更新时间")
    ∷ ("ag_channel_n", with1 (λ n. show n ++ codes " 个渠道"))
    ∷ ("ag_none", words "还没有告警组")
    ∷ ("ag_add", words "新建告警组")
    ∷ ("ag_edit", words "编辑告警组")
    ∷ ("ag_add_channel", words "+ 添加渠道")
    ∷ ("ag_remove_channel", words "移除渠道")
    ∷ ("ag_fmt", words "格式")
    ∷ ("ag_url_ph", words "https://hooks.slack.com/… 或 mailto:oncall@example.com")
    ∷ ("ag_max", with1 (λ n. codes "最多 " ++ show n ++ codes " 个渠道"))
    ∷ ("ag_err_channels", words "告警组需要 1-16 个通知渠道")
    ∷ ("ag_err_url", words "渠道 URL 必须以 http://、https:// 或 mailto: 开头")
    ∷ ("ag_mailto_hint", words "mailto: 渠道通过服务端 SMTP 发信，需先在配置文件的 smtp: 段配置邮件服务器")
    ∷ ("ag_del_title", with1 (λ n. codes "删除告警组“" ++ show n ++ codes "”？"))
    ∷ ("ag_del_body", words "引用它的工作流将退回使用各自的通知 URL 或实例默认通知，不会丢失告警。")
    ∷ ("v_key", words "变量名")
    ∷ ("v_value", words "值")
    ∷ ("v_add", words "添加变量")
    ∷ ("v_none", words "还没有变量")
    ∷ ("v_save", words "保存")
    ∷ ("c_id", words "连接 ID")
    ∷ ("c_type", words "类型")
    ∷ ("c_host", words "主机")
    ∷ ("c_port", words "端口")
    ∷ ("c_login", words "用户名")
    ∷ ("c_password", words "密码")
    ∷ ("c_extra", words "额外(JSON)")
    ∷ ("c_add", words "新建连接")
    ∷ ("c_edit", words "编辑连接")
    ∷ ("c_none", words "还没有连接")
    ∷ ("c_pw_set", words "已设置")
    ∷ ("c_pw_none", words "未设置")
    ∷ ("c_pw_keep", words "留空则不修改")
    ∷ []
