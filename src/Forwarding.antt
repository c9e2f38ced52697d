-- ===== src/Forwarding.antt =====
-- internal/forwarding: the forwarding engine.
pub mod Cursor
pub mod Album
pub mod Filters
pub mod Footer
pub mod Engine
