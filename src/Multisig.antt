-- ===== src/Multisig.antt =====
-- The multi-signature payments of contracts/lumenflow/src/lib.rs.
pub mod Handlers
pub mod Signers
pub mod Execution
unfoldable pub use Handlers.*
