-- ===== src/Transport.antt =====
-- internal/transport: the clients of MCP servers, over pipes and over HTTP.
pub mod Stdio
pub mod Sse
pub mod StreamableHttp
pub mod LegacySse
