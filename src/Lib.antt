-- ===== src/Lib.antt =====
-- cronova's web console (internal/web/static): the logic of its pages as functions and state machines.
--
-- The console edits a definition of dependent tasks (a DAG) in memory and keeps it saved. Its parts,
-- and where each is modelled:
--
--   Diff      diffLines of views.js, the line diff of the definition that a graph session is about to
--             save: the table of longest common subsequences and the walk over it.
--   Schedule  parseScheduleState and computeSchedule of builder.js, between the text of a schedule and
--             the mode, interval and cron text of its controls; Schedule.Controls is their use in
--             wireSchedModes and wireSchedBody.
--   Build     the definition that the two forms below send.
--   NewDag    the dialog for a new definition: newDagModal, renderNewDag, updateNewDagValidity,
--             submitNewDag and importYamlDag of builder.js.
--   Wizard    the wizard for a first definition, builder.js: wzSteps, wzValidate, the handlers of
--             wireWizard, createAndRunWizard and wzDailyCron.
--   TopoOrder topoOrder of base.js, the order in which the steps of a run are numbered.
--   Esc       esc of base.js, through which every text goes into the markup of a page.
--   Jump      the quick jump of the top bar, base.js: updateJump, jumpMove, jumpEnter and closeJump.
--   I18n      the texts of the console in both languages, base.js: DICT, t, and the labels of states,
--             types of runs, next times, roles (views.js) and audited actions (auditActionLabel).
--   Session   the browser's session, base.js: api and the errors it throws, the sign-in (initAuth,
--             showLogin, doLogout), the mode of the console (resolveMode, setMode), and the page of an
--             address (applyRoute).
--   Run       the page of a run, views.js: showLog with its cap and filter, showAllLogs, the poll of
--             showRun and startRunPoll, and what it offers (renderRunActions, openDefaultRunLog).
--   Dashboard the list of definitions, views.js: the filter of renderDags, the selection of wireBulk,
--             runBulk, healthBarHtml and gettingStartedHtml.
--   Command   the command of a task as a form, views.js: CMD_BUILDERS and computeCmdRaw,
--             and its editor: fillPillEditor, readPillEditor and removePill.
--   Charts    durations and the bars of runs, base.js: secsLabel, fmtMs and sparkline.
--   Resources the page of shared configuration, views.js: its tables of variables, connections and alert
--             groups as saveVar, delVar, connDialog and groupDialog change them, the tab of variables
--             (wireVarsTab) and the dialog of an alert group.
--   Audit     the page of the audit trail, views.js: showAudit and renderAudit, with ListAudit of
--             internal/store/sqlite/sqlite.go for the answers.
--   Fleet     the page of the remote workers, views.js: showWorkers, startWorkersPoll, refreshWorkers
--             and renderWorkers.
--   Trigger   the dialog that triggers a run with parameters, views.js: triggerParamsDialog and the request
--             of triggerActiveDag.
--   Layout    the layout of a graph, base.js: renderGraph, from the nodes (with the stubs of other
--             definitions) to their places and the ends of the edges.
--   Dag       the editor of a definition, views.js. Dag.Model has the fields that showDag gives a task
--             and the definition. Dag.Cycle is hasCycle, with its colours and the plain objects it
--             looks names up in. Dag.Validate is validateDag. Dag.Spec is dagSpecFrom with
--             parseHeaderLines and parseStatusList, what is sent; Dag.Load is the loading of stored
--             tasks in showDag. Dag.Edit is addTask, deleteTask, duplicateTask and renameActiveTask.
--             Dag.Graph is the graph editor: graphMutate, graphSaveSession, graphDiscardSession,
--             addTaskFromGraph, onGraphNodeActivate, graphToggleDep and graphDropAllowed. Dag.Save is
--             the pipeline saveDag, flushSave, flushPendingSaves, with reflectSaveState and the flags
--             of deleteActiveDag.
--   Base      texts as lists of code units, the array and string methods that the console calls,
--             decimal numbers, the pieces of its patterns.
--
-- An edit changes the tasks or the form and calls saveDag, which checks validateDag and arms a timeout;
-- flushSave rewrites the schedule by computeSchedule and sends dagSpecFrom. The machine of Dag.Save
-- takes these from Dag.Validate, Schedule and Dag.Spec. Its events are what the browser can interleave:
-- an await ends a step, so a request and its answer are two events. The handlers of Dag.Edit and
-- Dag.Graph return the new definition and the list of what they do beside (a save, a warning, a page).
--
-- The sign-in of Session, the poll of Run, Audit and Fleet are machines of the same kind. Every request
-- goes through Session.Api, whose errors Dashboard reports; its messages, as all labels, are phrases of
-- I18n.
--
-- Fuel: the search of hasCycle has depth tasks + 2, since each nested call colours one more name and
-- only the last of a chain can be one of no task; the loops that look for a free name have one round
-- more than there are tasks; the passes of topoOrder are at most two more than the tasks; the search of
-- renderGraph has depth nodes + 1, enough where the dependencies have no cycle; a number below n prints
-- in n + 1 digits. That each is enough is proved. The logs of Run take their cap as an argument, which
-- the page sets to LOG_CAP, 5000.
--
-- Arguments of the model stand for what the browser brings: the answers to requests, the codec of
-- addresses (encodeURIComponent and decodeURIComponent), and toLowerCase on the lines of a log.
-- Elsewhere lower case is that of ASCII, to which ids belong.
--
-- Not modelled: the server (Go) but for the page of the audit log that it answers with, the vendored
-- API documentation bundle, HTML strings, DOM listeners and the caret of editors; the run history of a
-- definition, and the pages of tokens, pools and the graph of definitions. Numbers are integers, so a
-- fraction or NaN typed in a number field, and sums beyond 2^53, are left out, and a rounded share is
-- that of the exact fraction. Objects used as maps keep the order of insertion, which JavaScript does
-- not for names that look like array indices, and an assignment to the name __proto__ is read as any
-- other.
pub mod Base
pub mod Diff
pub mod Dag
pub mod Schedule
pub mod Build
pub mod NewDag
pub mod Wizard
pub mod TopoOrder
pub mod Jump
pub mod Esc
pub mod I18n
pub mod Session
pub mod Run
pub mod Dashboard
pub mod Command
pub mod Charts
pub mod Resources
pub mod Audit
pub mod Fleet
pub mod Trigger
pub mod Layout
