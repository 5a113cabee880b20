-- ===== src/Registration.antt =====
-- contracts/lumenflow/src/lib.rs, "Merchant registration".
pub mod Handlers
pub mod Counts
pub mod Commitment
