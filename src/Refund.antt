-- ===== src/Refund.antt =====
-- The refunds of contracts/lumenflow/src/lib.rs.
pub mod Requests
pub mod Execution
pub mod Lifecycle
pub mod Limits
pub mod Change
pub mod History
pub mod Accounts
pub mod Approval
unfoldable pub use Requests.*
unfoldable pub use Execution.*
