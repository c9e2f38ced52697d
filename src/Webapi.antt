-- ===== src/Webapi.antt =====
-- internal/webapi: sessions, the login lock and the handlers that use them.
pub mod Auth
