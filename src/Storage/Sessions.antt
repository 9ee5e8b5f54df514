-- ===== src/Storage/Sessions.antt =====
-- internal/storage/sqlite/sqlite.go: the session that rebuildSession derives from a session's events.
pub mod Identity
pub mod Environment
pub mod Rebuild
