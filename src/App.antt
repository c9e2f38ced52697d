-- ===== src/App.antt =====
-- internal/app: how the program runs and ends.
pub mod Lifecycle
