-- ===== src/I18n/Zh5.antt =====
-- The dictionary `DICT.zh` of internal/web/static/base.js, part 5 of 6.
use cronova.Base.{List, [], ◌∷◌, ◌++◌, codes}
use cronova.I18n.Phrases.{String, Phrase, words, with1, with2, show}

unfoldable pub zh_5 : List (String × Phrase)
zh_5 =
    ("dod_fail", words "失败")
    ∷ ("dod_skip", words "跳过")
    ∷ ("parent_run", words "父运行")
    ∷ ("child_run", words "子运行")
    ∷ ("nav_graph", words "关系图")
    ∷ ("graph_title", words "工作流关系图")
    ∷ ("graph_sub", words "按 trigger_after 展示工作流之间的触发依赖")
    ∷ ("graph_none", words "暂无跨工作流依赖（没有工作流配置 trigger_after）")
    ∷ ("graph_view_hint", words "提示：箭头表示「触发后」方向；点击节点查看该工作流；虚线节点为未找到的工作流")
    ∷ ("ss_saved", words "已保存")
    ∷ ("ss_saving", words "保存中…")
    ∷ ("ss_invalid", words "待修复后保存")
    ∷ ("ss_error", words "保存失败")
    ∷ ("dag_no_tasks_title", words "暂无任务")
    ∷ ("dag_no_tasks_sub", words "添加一个任务以启用此工作流")
    ∷ ("dag_disabled_hint", words "添加任务后可触发")
    ∷ ("nd_title", words "新建工作流")
    ∷ ("nd_create", words "创建")
    ∷ ("nd_cancel", words "取消")
    ∷ ("nd_dagid_dup", words "该 DAG ID 已存在")
    ∷ ("tpl_start", words "从模板开始")
    ∷ ("tpl_tasks", words "个任务")
    ∷ ("tpl_blank", words "空白")
    ∷ ("tpl_blank_d", words "从零开始,稍后自己加任务")
    ∷ ("tpl_etl", words "每日 ETL")
    ∷ ("tpl_etl_d", words "抽取 → 转换 → 加载 的三步流水线")
    ∷ ("tpl_report", words "定时报表")
    ∷ ("tpl_report_d", words "取数 → 生成报表,预设每天 08:00")
    ∷ ("tpl_fanout", words "扇出-扇入")
    ∷ ("tpl_fanout_d", words "start → 两个并行分支 → 汇合")
    ∷ ("coach_tpl_ready", words "模板已就绪 — 点「触发运行」看它跑一遍,再按需修改任务")
    ∷ ("sp_every", with2 (λ n u. codes "每 " ++ show n ++ codes " " ++ show u ++ codes "运行一次"))
    ∷ ("sp_next", words "接下来")
    ∷ ("sp_invalid", words "表达式无效,无法计算触发时间")
    ∷ ("tz_note", words "调度按 UTC 计算;页面时间按你的本地时区显示")
    ∷ ("btn_duplicate", words "⧉ 复制")
    ∷ ("dup_dag_title", words "复制为新工作流(输入新 ID)")
    ∷ ("dup_done", words "已复制")
    ∷ ("y_copy", words "复制")
    ∷ ("y_download", words "下载")
    ∷ ("y_close", words "关闭")
    ∷ ("y_copied", words "YAML 已复制到剪贴板")
    ∷ ("y_copy_fail", words "复制失败,请手动选择文本")
    ∷ ("nd_import_yaml", words "或粘贴 YAML 导入…")
    ∷ ("nd_back_form", words "← 返回表单创建")
    ∷ ("nd_import", words "导入")
    ∷ ("nd_yaml_empty", words "请先粘贴 YAML 内容")
    ∷ ("nd_imported", words "YAML 已导入")
    ∷ ("gs_title", words "快速上手")
    ∷ ("gs_create", words "创建第一个工作流")
    ∷ ("gs_trigger", words "触发一次运行")
    ∷ ("gs_green", words "拿到一次成功运行")
    ∷ ("adv_options", words "高级选项")
    ∷ ("log_find_ph", words "在日志中查找…")
    ∷ ("log_download", words "下载完整日志")
    ∷ ("log_matches", with1 (λ n. show n ++ codes " 行匹配"))
    ∷ ("log_capped", with1 (λ n. codes "仅显示最近 " ++ show n ++ codes " 行"))
    ∷ ("back_dag", with1 (λ d. codes "← 返回 " ++ show d))
    ∷ ("confirm_del_task_title", with1 (λ i. codes "删除任务 “" ++ show i ++ codes "”？"))
    ∷ ("nav_workers", words "工作节点")
    ∷ ("wk_sub", words "接入本调度器的远程工作节点：实时状态、负载与排空/移除操作。任务通过 worker_group 路由到对应分组。")
    ∷ ("wk_name", words "名称")
    ∷ ("wk_group", words "分组")
    ∷ ("wk_state", words "状态")
    ∷ ("wk_active", words "运行任务")
    ∷ ("wk_version", words "版本")
    ∷ ("wk_heartbeat", words "最近心跳")
    ∷ ("wk_created", words "加入时间")
    ∷ ("wk_online", words "在线")
    ∷ ("wk_offline", words "离线")
    ∷ ("wk_lost", words "失联")
    ∷ ("wk_draining", words "排空中")
    ∷ ("wk_unnamed", words "（未命名）")
    ∷ ("wk_drain", words "排空")
    ∷ ("wk_undrain", words "恢复分配")
    ∷ ("wk_drain_title", with1 (λ n. codes "排空工作节点“" ++ show n ++ codes "”？"))
    ∷ ("wk_drain_body", words "排空后不再分配新任务，正在运行的任务会继续跑完。可随时恢复。")
    ∷ ("wk_undrain_title", with1 (λ n. codes "恢复工作节点“" ++ show n ++ codes "”？"))
    ∷ ("wk_undrain_body", words "恢复后该节点重新参与任务分配。")
    ∷ ("wk_drained_toast", words "已开始排空")
    ∷ ("wk_undrained_toast", words "已恢复分配")
    ∷ ("wk_remove", words "移除")
    ∷ ("wk_remove_title", with1 (λ n. codes "移除工作节点“" ++ show n ++ codes "”？"))
    ∷ ("wk_remove_body", words "移除立即生效且不可撤销：该节点的证书随即失效，无法重新连接；再次接入必须用新令牌重新加入。")
    ∷ ("wk_removed_toast", words "工作节点已移除")
    ∷ ("wk_none_title", words "还没有工作节点接入")
    ∷ ("wk_none_sub", words "两步接入一个远程工作节点：")
    ∷ ("wk_join_step1", words "在本页生成一次性加入令牌")
    ∷ ("wk_join_step2", words "在工作节点主机上运行：")
    ∷ ("wk_token_btn", words "生成加入令牌")
    ∷ ("wk_token_title", words "生成一次性加入令牌")
    ∷ ("wk_token_ttl", words "有效期")
    ∷ ("wk_ttl_1h", words "1 小时")
    ∷ ("wk_ttl_24h", words "24 小时")
    ∷ ("wk_ttl_7d", words "7 天")
    ∷ ("wk_token_create", words "生成")
    ∷ ("wk_token_reveal_h", words "你的加入令牌")
    ∷ ("wk_token_warn", words "令牌仅显示这一次，且只能使用一次——关闭后无法再次查看。")
    ∷ ("wk_join_cmd_h", words "在工作节点主机上运行：")
    ∷ ("wk_expires", words "过期时间")
    ∷ ("err_code_workers_disabled", words "工作节点接入未启用——需在服务端配置 worker_listen")
    ∷ (
      "wk_disabled_hint",
      words "服务端未启用工作节点接入。在 cronova.yaml 配置 worker_listen（或设置 CRONOVA_WORKER_LISTEN），重启后再试。",
    )
    ∷ ("rel_now", words "刚刚")
    ∷ ("rel_ago", with1 (λ s. show s ++ codes "前"))
    ∷ ("set_policy", words "运行策略")
    ∷ ("set_policy_hint", words "同一工作流多个运行同时就绪时如何准入。串行策略强制同一时间最多一个活跃运行（无视最大并发）。")
    ∷ ("po_parallel", words "并行")
    ∷ ("po_serial_wait", words "串行等待")
    ∷ ("po_serial_discard", words "串行丢弃")
    ∷ ("po_serial_priority", words "串行优先")
    ∷ ("pod_parallel", words "并行：按「最大并发」允许多个运行同时执行（默认）")
    ∷ ("pod_serial_wait", words "串行等待：同一时间只跑一个，后到的运行排队，按逻辑时间依次执行")
    ∷ ("pod_serial_discard", words "串行丢弃：同一时间只跑一个，忙碌期间到来的运行会被取消（可见，不静默）")
    ∷ ("pod_serial_priority", words "串行优先：同一时间只跑一个，队列按运行优先级从高到低出队")
    ∷ ("p_priority", words "优先级")
    ∷ ("p_priority_hint", words "-100 到 100，默认 0；数值高者优先获得调度槽位（serial_priority 队列也按它出队）")
    ∷ ("run_priority_tip", words "运行优先级：高者优先获得调度槽位")
    ∷ ("mode_novice", words "新手")
    ∷ ("mode_expert", words "专家")
    ∷ ("mode_toggle_title", words "界面模式：新手默认只保留必需信息，专家显示全部指标与操作")
    ∷ ("nv_workbench", words "工作台")
    ∷ ("nv_myflows", words "我的工作流")
    ∷ ("nv_shared", words "共享配置")
    ∷ ("nv_help", words "帮助中心")
    ∷ []
