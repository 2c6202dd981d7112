-- ===== src/Sync.antt =====
-- cli/internal/sync: reconciling the local store and the cloud.
pub mod Children
pub mod Plan
pub mod Bundle
pub mod Service
pub mod Outside
pub mod Run
pub mod World
pub mod Laws
pub mod Files
pub mod Apply
pub mod Pass
pub mod ChatPass
pub mod Cycle
pub mod LocalDatabase
