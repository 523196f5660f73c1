-- ===== src/I18n/Zh4.antt =====
-- The dictionary `DICT.zh` of internal/web/static/base.js, part 4 of 6.
use cronova.Base.{List, [], ◌∷◌, ◌++◌, codes}
use cronova.I18n.Phrases.{String, Phrase, words, with1, with2, show}

unfoldable pub zh_4 : List (String × Phrase)
zh_4 =
    ("proj_name", words "工程名")
    ∷ ("proj_name_bad", words "工程名只能含字母/数字/. _ -")
    ∷ ("proj_mode_files", words "上传文件 / 文件夹")
    ∷ ("proj_mode_inline", words "写脚本")
    ∷ ("proj_drop", words "把文件或文件夹拖到这里")
    ∷ ("proj_pick_files", words "选择文件")
    ∷ ("proj_pick_folder", words "选择文件夹")
    ∷ ("proj_ziphint", words "拖入 .zip 会自动解压")
    ∷ ("proj_filename", words "文件名")
    ∷ ("proj_content", words "脚本内容")
    ∷ ("proj_do_upload", words "上传")
    ∷ ("proj_selected", with1 (λ n. codes "已选 " ++ show n ++ codes " 个文件"))
    ∷ ("proj_uploaded", words "工程已上传")
    ∷ ("proj_upload_fail", words "上传失败")
    ∷ ("proj_need_name", words "请先填写工程名")
    ∷ ("proj_need_files", words "请先选择文件或写入脚本内容")
    ∷ ("proj_manage", words "管理工程")
    ∷ ("err_dagid", words "请填写合法 DAG ID（字母/数字/_-.）")
    ∷ ("err_taskid", words "任务 ID 不合法（字母/数字/_-.）")
    ∷ ("err_dup", words "任务 ID 重复")
    ∷ ("err_emptyid", words "存在空任务 ID")
    ∷ ("err_emptycmd", words "存在空命令")
    ∷ ("err_cycle", words "依赖存在环")
    ∷ ("sched", words "调度")
    ∷ ("sm_manual", words "手动")
    ∷ ("sm_every", words "固定间隔")
    ∷ ("sm_cron", words "Cron 表达式")
    ∷ ("sched_manual_hint", words "仅手动触发或被上游工作流触发")
    ∷ ("sched_every_pre", words "每隔")
    ∷ ("unit_s", words "秒")
    ∷ ("unit_m", words "分钟")
    ∷ ("unit_h", words "小时")
    ∷ ("disabled_note", words "(暂不可用)")
    ∷ ("cp_min", words "每分钟")
    ∷ ("cp_hour", words "每小时")
    ∷ ("cp_day", words "每天 0:00")
    ∷ ("cp_2am", words "每天 2:00")
    ∷ ("cp_mon", words "每周一 0:00")
    ∷ ("cron_help", words "用法")
    ∷ ("ch_title", words "Cron 写法")
    ∷ ("ch_format", words "格式：分 时 日 月 周（5 段，空格分隔）")
    ∷ ("ch_fields", words "字段")
    ∷ ("ch_ops", words "符号")
    ∷ ("ch_examples", words "常用示例（点击填入）")
    ∷ ("ch_shortcuts", words "快捷写法")
    ∷ ("t_rule", words "触发规则")
    ∷ ("tr_all_success", words "全部成功")
    ∷ ("tr_all_done", words "全部完成")
    ∷ ("tr_one_success", words "任一成功")
    ∷ ("tr_one_failed", words "任一失败")
    ∷ ("tr_all_failed", words "全部失败")
    ∷ ("tr_none_failed", words "无失败")
    ∷ ("trd_all_success", words "全部上游成功才运行(默认)")
    ∷ ("trd_all_done", words "全部上游完成即运行(无论成败)——适合清理/汇总")
    ∷ ("trd_one_success", words "任一上游成功即运行")
    ∷ ("trd_one_failed", words "任一上游失败即运行——适合告警")
    ∷ ("trd_all_failed", words "全部上游都失败才运行")
    ∷ ("trd_none_failed", words "没有上游失败(成功或跳过)时运行")
    ∷ ("pool_hint", words "并发槽位,跨所有工作流共享;同名 pool 的任务竞争同一批槽位")
    ∷ ("cb_interp", words "解释器")
    ∷ ("cb_runas", words "运行方式")
    ∷ ("cb_target", words "模块 / 脚本")
    ∷ ("cb_args", words "参数")
    ∷ ("cb_jar", words "Jar 路径")
    ∷ ("cb_mainclass", words "主类")
    ∷ ("cb_client", words "SQL 客户端")
    ∷ ("cb_query", words "SQL 查询")
    ∷ ("cmdopt_module", words "模块 (-m)")
    ∷ ("cmdopt_script", words "脚本文件")
    ∷ ("cmd_will_run", words "将执行:")
    ∷ ("cmd_edit_raw", words "编辑原始命令")
    ∷ ("cmd_use_form", words "用表单填写")
    ∷ ("cmd_cant_parse", words "当前命令无法解析成表单,已保留原始编辑")
    ∷ ("var_insert", words "点击或拖拽插入变量")
    ∷ ("var_editor_aria", words "命令编辑器,可插入变量药丸")
    ∷ ("var_pill_aria", with1 (λ n. codes "变量 " ++ show n))
    ∷ ("var_pill_remove", with1 (λ n. codes "移除变量 " ++ show n))
    ∷ ("var_empty", words "无")
    ∷ ("var_add_key", words "自定义…")
    ∷ ("var_conn_field", words "选字段")
    ∷ ("var_goto_settings", words "去设置")
    ∷ ("vd_logical_date", words "本次运行的逻辑日期(到天)")
    ∷ ("vd_logical_datetime", words "逻辑日期时间(RFC3339)")
    ∷ (
      "vd_date_expr",
      words
          "日期表达式：±N d/h/w/mo 偏移、.month_start/.month_end/.week_start/.week_end 锚点、| %Y%m%d 自定义格式，可组合",
    )
    ∷ ("vd_run_id", words "本次运行的唯一 ID")
    ∷ ("vd_dag_id", words "所属 DAG 的 ID")
    ∷ ("vd_task_id", words "当前任务 ID")
    ∷ ("vd_try_number", words "第几次尝试(重试递增)")
    ∷ ("vd_var", words "共享变量")
    ∷ ("vd_conn", words "连接字段")
    ∷ ("vd_params", words "手动触发参数")
    ∷ ("vg_builtin", words "内置")
    ∷ ("vg_var", words "变量")
    ∷ ("vg_conn", words "连接")
    ∷ ("vg_params", words "参数")
    ∷ (
      "graph_connect_hint",
      words "拖动节点右侧圆点到另一任务即可连线；点击节点打开任务编辑；Shift+点击两个节点（或开启连线模式后依次点击）同样可连接/断开；点击连线可移除依赖",
    )
    ∷ ("ge_addtask", words "+ 添加任务")
    ∷ ("ge_connect", words "连线模式")
    ∷ ("ge_connect_tip", words "开启后：点上游任务、再点下游任务即可连接/断开依赖（支持键盘操作）")
    ∷ ("ge_new_id_title", words "新任务 ID")
    ∷ ("ge_edge_remove", words "移除依赖")
    ∷ ("ge_dup_dep", words "依赖已存在")
    ∷ (
      "ge_edge_aria",
      with2 (λ a b. codes "依赖 " ++ show a ++ codes " → " ++ show b ++ codes "，回车移除"),
    )
    ∷ ("ge_node_aria", with1 (λ i. codes "任务 " ++ show i))
    ∷ ("diff_unsaved", with1 (λ n. show n ++ codes " 处修改未保存"))
    ∷ ("diff_save", words "保存")
    ∷ ("diff_discard", words "放弃")
    ∷ ("diff_show", words "查看差异")
    ∷ ("diff_hide", words "收起差异")
    ∷ ("diff_loading", words "正在生成差异预览…")
    ∷ ("diff_invalid", words "当前修改未通过校验")
    ∷ ("diff_same", words "与已保存版本一致")
    ∷ ("diff_discarded", words "已放弃未保存的修改")
    ∷ ("t_subdag", words "目标工作流")
    ∷ ("subdag_hint", words "作为子流程运行另一个工作流：本任务跟随子运行的最终状态，取消会级联到子运行")
    ∷ ("subdag_none", words "选择工作流…")
    ∷ ("err_subdag", words "子流程任务必须选择目标工作流")
    ∷ ("dod_title", words "跨工作流依赖")
    ∷ ("dod_hint", words "等待另一个工作流对应周期的运行成功后，此任务才就绪")
    ∷ ("dod_dag", words "依赖的工作流")
    ∷ ("dod_offset", words "周期偏移")
    ∷ ("dod_offset_hint", words "- 1d / .month_start / 留空=同周期")
    ∷ ("dod_timeout", words "等待超时（秒）")
    ∷ ("dod_timeout_hint", words "0 = 一直等到运行超时")
    ∷ ("dod_on_timeout", words "超时后")
    ∷ []
