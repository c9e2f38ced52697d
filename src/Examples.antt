-- ===== src/Examples.antt =====
-- Concrete runs at which the theorems of this library hold, with the data that they share.
pub mod Fixtures
pub mod Cursors
pub mod Engines
pub mod Platform
pub mod Telegram
pub mod Services
pub mod Logins
