-- ===== src/Datasource.antt =====
-- pkg/datasource: the sources of events.
pub mod Buffered
mod Manager
