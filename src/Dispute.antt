-- ===== src/Dispute.antt =====
-- The disputes of contracts/lumenflow/src/lib.rs.
pub mod Handlers
pub mod Resolution
