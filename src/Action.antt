-- ===== src/Action.antt =====
-- An entry point of the contract as an action: it reads the host, changes the storage, and ends
-- with a value, with an error of `PaymentError`, or in a trap (a panic: a failed authorisation, a
-- token contract that refuses, an overflow). What was written before an error is in the state that
-- comes with it; after a trap the host keeps nothing, so a trap carries no state.
mod Monad
mod Arithmetic
pub use Monad.*
pub use Arithmetic.*
