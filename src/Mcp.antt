-- ===== src/Mcp.antt =====
-- internal/mcp
pub mod Protocol
pub mod Meta
