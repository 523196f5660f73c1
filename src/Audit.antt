-- ===== src/Audit.antt =====
-- The page of the audit trail, which loads the log of operations a page at a time. Code: showAudit and
-- renderAudit of internal/web/static/views.js, setLang of base.js, which draws the page again, and
-- ListAudit of internal/store/sqlite/sqlite.go.
pub mod Page
pub mod Pages
pub mod Runs
pub mod Loaded
mod Samples
