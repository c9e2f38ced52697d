-- ===== src/Forwarding/Engine.antt =====
-- internal/forwarding/engine.go: the engine, in children for its parts.
pub mod State
pub mod Retry
pub mod Process
pub mod Execute
pub mod Control
