-- ===== src/Core.antt =====
-- pkg/core/core.go: the handlers over the engine and the stores.
pub mod Timeout
pub mod Events
pub mod Recovery
