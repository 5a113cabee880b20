-- ===== src/Storage.antt =====
-- contracts/lumenflow/src/storage.rs: the state and its accessors.
pub mod State
pub mod Settings
pub mod Configuration
pub mod Entries
pub use State.{World}
pub use Settings.*
pub use Entries.*
pub use Configuration.*
