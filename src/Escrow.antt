-- ===== src/Escrow.antt =====
-- The escrows of contracts/lumenflow/src/lib.rs.
pub mod Timed
pub mod Conditional
pub mod Solvency
pub mod History
pub mod Finality
pub mod Vault
pub mod Refinement
pub mod Deadlines
unfoldable pub use Timed.*
unfoldable pub use Conditional.*
