-- ===== src/Botapi.antt =====
-- internal/platform/botapi: the client of the HTTP interface for bots.
pub mod ChatId
pub mod Client
