-- ===== src/Run.antt =====
-- The page of a run: the live log of a task, the log of all tasks, the poll of the run, and the actions
-- that it offers. Code: views.js of internal/web/static, from `TASK_TERMINAL` on and from `showRun` to
-- `showAllLogs`.
pub mod Tail
pub mod Log
pub mod Joined
pub mod LogView
pub mod AllLogs
pub mod AllView
pub mod Poll
pub mod Watch
pub mod Actions
pub mod Offers
mod Samples
