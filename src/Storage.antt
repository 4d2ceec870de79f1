-- ===== src/Storage.antt =====
-- internal/storage
pub mod Sort
pub mod Page
pub mod Search
pub mod Interface
pub mod Memory
