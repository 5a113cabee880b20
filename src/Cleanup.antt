-- ===== src/Cleanup.antt =====
-- contracts/lumenflow/src/lib.rs: the entry points that remove old records.
pub mod Handlers
pub mod Sweeping
pub mod Expired
pub mod Swept
pub mod Purging
pub mod Retention
pub mod Expiry
