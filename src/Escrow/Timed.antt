-- ===== src/Escrow/Timed.antt =====
-- contracts/lumenflow/src/lib.rs, "Escrow": funds that a payer locks until a time.
use lumenflow_contracts.Host.{Env, escrow_cancelled, escrow_created, escrow_released, transfer}
use lumenflow_contracts.Types.{
  EscrowRecord, Address, EscrowStatus, escrow_already_exists, escrow_already_finalised,
  escrow_lock_expired, escrow_not_found, escrow_not_unlocked, escrow_unauthorised, invalid_input,
  merchant_inactive, merchant_not_found, token_not_allowed,
}
use lumenflow_contracts.Action.{
  Action, Done, ask, call_token, fail_if, gets, modify, or_fail, publish, require_auth, ◌>>=◌, ◌>>◌,
}
use lumenflow_contracts.Base.{
  Bool, String, eqb, false, is_some, leb, ltb, nat_eq, not, string_eq, true, ℕ,
}
use lumenflow_contracts.Base.Int.{ℤ}
use lumenflow_contracts.Guards.{require_not_paused, require_positive, require_valid_id}
use lumenflow_contracts.Storage.{get_escrow, get_merchant, is_token_allowed, set_escrow}

-- The record that `create_escrow` writes.
abbrev pub new_escrow : Address → Address → ℤ → Address → ℕ → String → Env → EscrowRecord
new_escrow payer merchant amount token unlock_at order_id env = record {
  order_id = order_id;
  payer = payer;
  merchant = merchant;
  token = token;
  amount = amount;
  unlock_at = unlock_at;
  status = EscrowStatus.locked;
  created_at = env.timestamp;
}

unfoldable pub create_escrow : Address → Address → ℤ → Address → ℕ → String → Action Done
unfolding require_not_paused require_positive require_valid_id
create_escrow payer merchant amount token unlock_at order_id = do
  require_not_paused
  require_auth payer
  require_positive amount
  require_valid_id order_id
  env ← ask
  fail_if (leb unlock_at env.timestamp) invalid_input
  allowed ← gets (is_token_allowed token)
  fail_if (not allowed) token_not_allowed
  existing ← gets (get_escrow order_id)
  fail_if (is_some existing) escrow_already_exists
  found ← gets (get_merchant merchant)
  m ← or_fail found merchant_not_found
  fail_if (not m.active) merchant_inactive
  call_token (transfer token payer env.contract amount)
  modify (set_escrow (new_escrow payer merchant amount token unlock_at order_id env))
  publish (escrow_created order_id amount)

abbrev pub is_locked : EscrowStatus → Bool
is_locked EscrowStatus.locked = true
is_locked EscrowStatus.released = false
is_locked EscrowStatus.cancelled = false

unfoldable pub release_escrow : String → Action Done
unfolding require_not_paused
release_escrow order_id = do
  require_not_paused
  found ← gets (get_escrow order_id)
  escrow ← or_fail found escrow_not_found
  fail_if (not (is_locked escrow.status)) escrow_already_finalised
  env ← ask
  fail_if (ltb env.timestamp escrow.unlock_at) escrow_not_unlocked
  modify (set_escrow (record escrow { status = EscrowStatus.released }))
  call_token (transfer escrow.token env.contract escrow.merchant escrow.amount)
  publish (escrow_released order_id escrow.amount)

unfoldable pub cancel_escrow_before_lock : Address → String → Action Done
unfolding require_not_paused
cancel_escrow_before_lock payer order_id = do
  require_not_paused
  require_auth payer
  found ← gets (get_escrow order_id)
  escrow ← or_fail found escrow_not_found
  fail_if (not (is_locked escrow.status)) escrow_already_finalised
  fail_if (not (eqb escrow.payer payer)) escrow_unauthorised
  env ← ask
  fail_if (leb escrow.unlock_at env.timestamp) escrow_lock_expired
  modify (set_escrow (record escrow { status = EscrowStatus.cancelled }))
  call_token (transfer escrow.token env.contract escrow.payer escrow.amount)
  publish (escrow_cancelled order_id escrow.amount)
