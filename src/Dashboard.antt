-- ===== src/Dashboard.antt =====
-- The dashboard of definitions: its filter, the selection of rows and the operations on it. Code:
-- renderDags, wireBulk, renderBulkBar, runBulk, healthBarHtml and gettingStartedHtml of
-- internal/web/static/views.js.
pub mod Rows
pub mod Bulk
pub mod Sets
pub mod Selected
pub mod Health
mod Samples
