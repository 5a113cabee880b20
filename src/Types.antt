-- ===== src/Types.antt =====
-- contracts/lumenflow/src/types.rs and error.rs.
pub mod Errors
pub mod Records
pub use Errors.*
pub use Records.*
