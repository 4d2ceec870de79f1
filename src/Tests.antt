-- ===== src/Tests.antt =====
-- Runs of the modelled code at concrete values.
pub mod Values
pub mod Registry
pub mod Stores
pub mod Legacy
pub mod Logs
pub mod Configs
pub mod Pipes
pub mod Streams
pub mod Sessions
pub mod Gateways
pub mod Methods
pub mod Applied
pub mod Calls
