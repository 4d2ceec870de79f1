-- ===== src/Logbuf.antt =====
-- internal/logbuf
pub mod Ring
pub mod Rotation
