-- ===== src/Guards.antt =====
-- contracts/lumenflow/src/helper.rs: the checks that entry points begin with, and the lockout of
-- callers that keep failing the administrator check (storage.rs, record_auth_failure).
pub mod Lockout
pub mod Checks
pub mod Access
pub mod Rollback
unfoldable pub use Lockout.*
unfoldable pub use Checks.*
