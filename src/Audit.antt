-- ===== src/Audit.antt =====
-- The administrator's audit log.
pub mod Log
pub mod Window
pub mod Query
unfoldable pub use Log.*
