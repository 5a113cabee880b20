-- ===== src/Subscription.antt =====
-- The subscriptions of contracts/lumenflow/src/lib.rs.
pub mod Calls
pub mod Counting
pub mod Handlers
pub mod Charges
unfoldable pub use Handlers.*
