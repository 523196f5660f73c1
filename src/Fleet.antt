-- ===== src/Fleet.antt =====
-- The page of the remote workers and its poll. Code: showWorkers to renderWorkers of
-- internal/web/static/views.js.
pub mod Workers
pub mod Drawn
pub mod Behind
mod Samples
