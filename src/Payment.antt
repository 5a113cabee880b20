-- ===== src/Payment.antt =====
-- The payments of contracts/lumenflow/src/lib.rs.
pub mod Index
pub mod Fees
pub mod Processing
pub mod Replay
pub mod SignedChecks
pub mod Signed
pub mod Requests
pub mod Batch
pub mod Grouping
pub mod Checked
pub mod Stored
pub mod Settlement
unfoldable pub use Index.*
