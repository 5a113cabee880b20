-- ===== src/Query.antt =====
-- contracts/lumenflow/src/lib.rs: the entry points that read.
pub mod Filter
pub mod Pages
pub mod Split
pub mod Walk
pub mod History
pub mod Complete
pub mod Merchants
pub mod Skipping
pub mod Stats
pub mod Window
pub mod Getters
pub mod Access
