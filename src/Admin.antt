-- ===== src/Admin.antt =====
-- contracts/lumenflow/src/lib.rs, "Admin": who the administrator is, pausing the contract, its
-- configuration and its upgrades.
pub mod Handlers
pub mod Settings
pub mod Upgrade
pub mod Timelock
pub mod Limits
pub mod Migration
