-- ===== src/Escrow/Conditional.antt =====
-- contracts/lumenflow/src/lib.rs, "Conditional Escrow": funds that an arbiter releases.
use lumenflow_contracts.Host.{Env, escrow_held, hold_cancelled, hold_released, transfer}
use lumenflow_contracts.Action.{
  Action, Done, ask, call_token, fail_if, gets, modify, or_fail, publish, pure, require_auth, ◌>>=◌,
  ◌>>◌,
}
use lumenflow_contracts.Base.{
  Bool, String, eqb, false, is_some, leb, length, nat_eq, not, string_eq, true, ℕ, ◌&&◌,
}
use lumenflow_contracts.Base.Int.{ℤ}
use lumenflow_contracts.Guards.{require_not_paused, require_positive, require_valid_id}
use lumenflow_contracts.Storage.{get_escrow_hold, get_merchant, is_token_allowed, set_escrow_hold}
use lumenflow_contracts.Types.{
  Address, Bytes, EscrowHold, EscrowHoldStatus, escrow_already_exists, escrow_already_finalised,
  escrow_lock_expired, escrow_not_found, escrow_not_unlocked, escrow_unauthorised, invalid_input,
  merchant_inactive, merchant_not_found, token_not_allowed,
}

-- The record that `escrow_hold` writes.
abbrev pub new_hold :
    Address → String → Address → Address → ℤ → Bytes → Address → ℕ → Env → EscrowHold
new_hold payer escrow_id merchant token amount condition_hash arbiter timeout_at env = record {
  escrow_id = escrow_id;
  payer = payer;
  merchant = merchant;
  token = token;
  amount = amount;
  condition_hash = condition_hash;
  arbiter = arbiter;
  timeout_at = timeout_at;
  status = EscrowHoldStatus.held;
  created_at = env.timestamp;
}

unfoldable pub escrow_hold :
    Address → String → Address → Address → ℤ → Bytes → Address → ℕ → Action EscrowHold
unfolding require_not_paused require_positive require_valid_id
escrow_hold payer escrow_id merchant token amount condition_hash arbiter timeout_at = do
  require_not_paused
  require_auth payer
  require_positive amount
  require_valid_id escrow_id
  fail_if (not (eqb (length condition_hash) 32)) invalid_input
  env ← ask
  fail_if (leb timeout_at env.timestamp) invalid_input
  allowed ← gets (is_token_allowed token)
  fail_if (not allowed) token_not_allowed
  existing ← gets (get_escrow_hold escrow_id)
  fail_if (is_some existing) escrow_already_exists
  found ← gets (get_merchant merchant)
  m ← or_fail found merchant_not_found
  fail_if (not m.active) merchant_inactive
  call_token (transfer token payer env.contract amount)
  let hold = new_hold payer escrow_id merchant token amount condition_hash arbiter timeout_at env
  modify (set_escrow_hold hold)
  publish (escrow_held escrow_id payer merchant amount condition_hash)
  pure hold

abbrev pub is_held : EscrowHoldStatus → Bool
is_held EscrowHoldStatus.held = true
is_held EscrowHoldStatus.released = false
is_held EscrowHoldStatus.cancelled = false

unfoldable pub escrow_release : Address → String → Action Done
unfolding require_not_paused
escrow_release caller escrow_id = do
  require_not_paused
  require_auth caller
  found ← gets (get_escrow_hold escrow_id)
  hold ← or_fail found escrow_not_found
  fail_if (not (is_held hold.status)) escrow_already_finalised
  env ← ask
  fail_if (not (eqb hold.arbiter caller) && not (leb hold.timeout_at env.timestamp))
      escrow_not_unlocked
  modify (set_escrow_hold (record hold { status = EscrowHoldStatus.released }))
  call_token (transfer hold.token env.contract hold.merchant hold.amount)
  publish (hold_released escrow_id hold.merchant hold.amount)

unfoldable pub escrow_cancel : Address → String → Action Done
unfolding require_not_paused
escrow_cancel caller escrow_id = do
  require_not_paused
  require_auth caller
  found ← gets (get_escrow_hold escrow_id)
  hold ← or_fail found escrow_not_found
  fail_if (not (is_held hold.status)) escrow_already_finalised
  fail_if (not (eqb hold.payer caller)) escrow_unauthorised
  env ← ask
  fail_if (leb hold.timeout_at env.timestamp) escrow_lock_expired
  modify (set_escrow_hold (record hold { status = EscrowHoldStatus.cancelled }))
  call_token (transfer hold.token env.contract hold.payer hold.amount)
  publish (hold_cancelled escrow_id hold.payer hold.amount)
