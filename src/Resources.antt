-- ===== src/Resources.antt =====
-- The page of shared configuration: variables, connections and alert groups, which the page keeps as
-- tables sorted by their keys. Code: showResources to groupDialog of internal/web/static/views.js.
pub mod Order
pub mod Table
pub mod Sorted
pub mod Lookup
pub mod Vars
pub mod Edits
pub mod Groups
pub mod Channels
mod Samples
