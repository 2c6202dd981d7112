-- ===== src/SyncEngine.antt =====
-- cli/internal/syncengine: the conflict rules, the sync cursor and the sync lock.
pub mod Resolve
