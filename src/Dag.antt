-- ===== src/Dag.antt =====
-- The definition that the operation page edits in memory (`D` in internal/web/static/base.js): its
-- tasks and form fields, and the operations of internal/web/static/views.js on them.
pub mod Model
pub mod Cycle
pub mod Validate
pub mod Spec
pub mod Load
pub mod Save
pub mod Edit
pub mod Graph
