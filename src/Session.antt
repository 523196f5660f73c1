-- ===== src/Session.antt =====
-- The session of a browser with the server: requests, sign-in, the mode of the console and the page
-- that the address names. Code: api, initAuth, doLogout, showLogin, resolveMode, setMode, setHash and
-- applyRoute of internal/web/static/base.js.
pub mod Api
pub mod Errors
pub mod Login
pub mod Gate
pub mod Mode
pub mod Route
pub mod Address
mod Samples
