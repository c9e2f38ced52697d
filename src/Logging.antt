-- ===== src/Logging.antt =====
-- internal/logging: the ring of log records.
pub mod Ring
pub mod Fanout
