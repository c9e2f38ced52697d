-- ===== src/Config.antt =====
-- internal/config: the settings in the database and the environment.
pub mod Settings
pub mod Env
