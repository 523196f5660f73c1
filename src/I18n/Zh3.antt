-- ===== src/I18n/Zh3.antt =====
-- The dictionary `DICT.zh` of internal/web/static/base.js, part 3 of 6.
use cronova.Base.{List, [], ◌∷◌, ◌++◌, codes}
use cronova.I18n.Phrases.{String, Phrase, words, with1, with2, show}

unfoldable pub zh_3 : List (String × Phrase)
zh_3 =
    ("c_del_title", with1 (λ i. codes "删除连接“" ++ show i ++ codes "”?"))
    ∷ ("v_del_title", with1 (λ k. codes "删除变量“" ++ show k ++ codes "”?"))
    ∷ ("del_body", words "此操作不可撤销。")
    ∷ ("trig_params", words "带参数触发")
    ∷ ("p_params", words "参数")
    ∷ ("p_add", words "加一行")
    ∷ ("p_key", words "键")
    ∷ ("p_val", words "值")
    ∷ ("p_trigger", words "触发")
    ∷ ("p_hint", words "参数注入为 CRONOVA_PARAM_* 环境变量，命令里用 {{ params.键 }} 引用。")
    ∷ ("run_params", words "参数")
    ∷ ("res_saved", words "已保存")
    ∷ ("res_deleted", words "已删除")
    ∷ ("err_key", words "无效名称（仅限字母、数字、_ . -）")
    ∷ ("btn_trigger", words "▶ 触发运行")
    ∷ ("btn_pause", words "暂停")
    ∷ ("btn_resume", words "恢复")
    ∷ ("btn_delete", words "删除")
    ∷ ("confirm_del_dag_title", with1 (λ i. codes "归档工作流“" ++ show i ++ codes "”？"))
    ∷ ("confirm_del_dag_body", words "它将被归档(从列表隐藏),运行历史保留,之后可恢复。")
    ∷ ("dag_archived", words "该工作流已归档(已删除)。")
    ∷ ("confirm_word", words "确定")
    ∷ ("cancel_word", words "取消")
    ∷ ("aria_theme", words "切换主题")
    ∷ ("aria_lang", words "切换语言")
    ∷ ("toast_run_queued", words "已触发，run 已排队")
    ∷ ("toast_pool_saved", words "池已保存")
    ∷ ("toast_dag_deleted", words "工作流已归档")
    ∷ ("th_id", words "id")
    ∷ ("th_type", words "类型")
    ∷ ("th_command", words "命令")
    ∷ ("th_deps", words "依赖")
    ∷ ("th_logical", words "逻辑时间")
    ∷ ("th_state", words "状态")
    ∷ ("th_trig", words "触发")
    ∷ ("th_started", words "开始")
    ∷ ("th_dur", words "耗时")
    ∷ ("th_task", words "任务")
    ∷ ("th_try", words "尝试")
    ∷ ("th_logs", words "日志")
    ∷ ("no_runs", words "还没有运行记录 — 触发一次。")
    ∷ ("k_logical", words "逻辑时间")
    ∷ ("k_trig", words "触发")
    ∷ ("k_dur", words "耗时")
    ∷ ("k_started", words "开始")
    ∷ ("log_word", words "日志")
    ∷ ("live", words "实时")
    ∷ ("pools_sub", words "全局并发槽位，跨所有工作流与 run 共享。")
    ∷ ("p_name", words "名称")
    ∷ ("p_slots", words "槽位")
    ∷ ("p_save", words "保存")
    ∷ ("p_newname", words "新池名称")
    ∷ ("p_create", words "创建池")
    ∷ ("p_need", words "需要名称和正整数槽位")
    ∷ ("trig_fail", words "触发失败")
    ∷ ("api_err", words "API 错误")
    ∷ ("err_code_not_found", words "对象不存在（可能已被删除）")
    ∷ ("err_code_no_tasks", words "该工作流还没有任何步骤，先添加一个再运行")
    ∷ ("err_code_bad_mark_state", words "不允许标记为这个状态")
    ∷ ("err_code_queue_full", words "运行队列已满，请稍后再试")
    ∷ ("err_code_active_runs", words "该工作流还有正在进行的运行，先取消或等它们结束")
    ∷ ("err_code_run_not_active", words "这次运行已经结束，无法取消")
    ∷ ("err_code_nothing_to_retry", words "这次运行没有失败的步骤，无需重跑")
    ∷ ("err_code_run_still_active", words "这次运行还在进行中，结束后才能重跑")
    ∷ ("err_code_bad_group_name", words "告警组名称不合法（仅限字母、数字、_ . -，不超过 128 字符）")
    ∷ ("err_code_dag_conflict", words "该工作流已被其他人修改——请刷新页面合并你的改动，直接重试会再次冲突")
    ∷ ("err_code_group_channels", words "告警组需要 1-16 个通知渠道")
    ∷ ("err_code_group_channel_url", words "渠道 URL 必须以 http://、https:// 或 mailto: 开头")
    ∷ ("err_code_group_channel_format", words "渠道格式不合法（raw / slack / feishu / dingtalk / email）")
    ∷ ("dt_hint", words "运行时长趋势：越高越慢，颜色为结果；点击柱子打开该次运行")
    ∷ ("runs_more", words "加载更多 ↓")
    ∷ ("audit_more", words "加载更多 ↓")
    ∷ ("log_all", words "全部任务")
    ∷ ("bulk_all", words "全选（当前筛选）")
    ∷ ("bulk_pick", with1 (λ i. codes "选择 " ++ show i))
    ∷ ("bulk_selected", with1 (λ n. codes "已选 " ++ show n ++ codes " 个工作流"))
    ∷ (
      "bulk_done",
      with2 (λ ok n. codes "批量操作完成：" ++ show ok ++ codes "/" ++ show n ++ codes " 成功"),
    )
    ∷ ("bulk_del_title", with1 (λ n. codes "归档选中的 " ++ show n ++ codes " 个工作流？"))
    ∷ ("au_f_actor", words "按操作人筛选")
    ∷ ("au_f_action", words "按操作筛选")
    ∷ ("au_f_all", words "全部")
    ∷ ("nx_paused", words "已暂停")
    ∷ ("nx_due", words "就绪")
    ∷ ("nx_in", with1 (λ m. show m ++ codes " 分钟后"))
    ∷ ("b_dag_info", words "DAG 信息")
    ∷ ("f_dag_id", words "DAG ID")
    ∷ ("f_start", words "开始日期")
    ∷ ("f_catchup", words "补跑 catchup")
    ∷ ("f_maxactive", words "最大并发")
    ∷ ("f_defretries", words "默认重试")
    ∷ ("f_catchup_hint", words "开启后，从 start_date 起每个错过的调度周期都会补建一次运行（每个 tick 最多补一个，受最大并发限制，不会形成风暴）")
    ∷ ("f_trigger_after", words "上游依赖 (成功后触发)")
    ∷ ("b_addtask", words "+ 添加任务")
    ∷ ("b_remove", words "移除")
    ∷ ("t_id", words "任务 ID")
    ∷ ("t_type", words "类型")
    ∷ ("t_command", words "命令")
    ∷ ("t_pool", words "Pool")
    ∷ ("t_priority", words "优先级")
    ∷ ("t_http", words "HTTP 请求")
    ∷ ("http_method", words "方法")
    ∷ ("http_url", words "URL")
    ∷ ("http_headers", words "请求头")
    ∷ ("http_headers_hint", words "每行一个,格式 Key: Value,可用 {{ var. }} / {{ conn. }}")
    ∷ ("http_body", words "请求体")
    ∷ ("http_status", words "期望状态码")
    ∷ ("http_status_hint", words "逗号分隔,如 200,201;留空=任意 2xx")
    ∷ ("err_httpurl", words "HTTP 任务必须填 URL")
    ∷ ("t_python", words "Python 代码")
    ∷ (
      "python_hint",
      words "内联 Python,用 python3 -c 执行;CRONOVA_* 变量在环境里可读;可用 {{ var. }} 模板。退出码非 0=失败。",
    )
    ∷ ("t_sql", words "SQL 查询")
    ∷ ("sql_conn", words "连接")
    ∷ ("sql_conn_hint", words "已配置的连接 id(其类型定驱动:postgres/mysql/sqlite)。见「变量 & 连接」。")
    ∷ ("err_sqlconn", words "SQL 任务必须选连接")
    ∷ ("t_retries", words "重试 (空=默认)")
    ∷ ("t_retrydelay", words "重试间隔(秒)")
    ∷ ("t_timeout", words "超时(秒)")
    ∷ ("t_deps", words "依赖")
    ∷ ("t_nodeps", words "暂无其他任务")
    ∷ ("t_project", words "工程")
    ∷ ("t_optional", words "(可选)")
    ∷ ("proj_none", words "无(不附加工程)")
    ∷ ("proj_upload", words "上传 / 新建工程")
    ∷ ("proj_hint", words "选中后,命令会在该工程的干净副本目录里运行(如 python3 main.py)。仅 shell 任务可用。")
    ∷ []
