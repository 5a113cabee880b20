-- ===== src/Router.antt =====
-- contracts/router/src/lib.rs: the router contract.
pub mod State
pub mod Handlers
pub mod Traffic
pub mod Cutover
