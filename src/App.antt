-- ===== src/App.antt =====
-- internal/app: the manager of the MCP servers, one backend for each, and the calls to them.
pub mod Client
pub mod Handshake
pub mod Pages
pub mod Apply
pub mod Status
pub mod Calls
pub mod Checks
pub mod Discover
