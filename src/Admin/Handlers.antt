-- ===== src/Admin/Handlers.antt =====
-- contracts/lumenflow/src/lib.rs, "Admin": the administrator's key, the pause with its timelock and
-- guardians, and the settings that other parts read.
use lumenflow_contracts.Action.{
  Action, Done, add_u64, ask, fail_if, gets, modify, publish, require_auth, when, ◌>>=◌, ◌>>◌,
}
use lumenflow_contracts.Audit.Log.{append_audit}
use lumenflow_contracts.Base.{
  Bool, List, Option, String, [], contains, eqb, false, is_some, leb, length, ltb, nat_eq, none,
  not, push_back, some, string_eq, true, ℕ, ◌&&◌, ◌*◌, ◌∷◌,
}
use lumenflow_contracts.Guards.{
  clear_auth_lockout, require_admin, require_admin_rate_limited, require_non_empty_string,
}
use lumenflow_contracts.Host.{
  admin_set, admin_transferred, auth_lockout_reset, contract_unpaused, multisig_override,
  paused_with_reason,
}
use lumenflow_contracts.Storage.{
  clear_early_unpause_approvals, clear_pause_reason, clear_unpause_lock_until, get_admin,
  get_early_unpause_approvals, get_pause_guardians, get_unpause_lock_until, set_admin_key,
  set_early_unpause_approvals, set_pause_guardians_key, set_pause_reason, set_paused,
  set_unpause_lock_until,
}
use lumenflow_contracts.Types.{
  Address, AdminActionType, Bytes, admin_already_set, already_approved_unpause,
  invalid_admin_address, invalid_input, not_a_pause_guardian, timelock_active,
}
use lumenflow_contracts.Host.{Event}

abbrev pub pause_timelock_secs : ℕ
pause_timelock_secs = 7 * 24 * 3600

abbrev pub early_unpause_threshold : ℕ
early_unpause_threshold = 3

unfoldable pub set_admin : Address → Action Done
unfolding append_audit
set_admin admin = do
  existing ← gets get_admin
  fail_if (is_some existing) admin_already_set
  require_auth admin
  modify (set_admin_key admin)
  append_audit AdminActionType.set_admin admin ""
  publish (admin_set admin)

-- `raw.iter().all(|b| b == 0)`
abbrev pub all_zero : Bytes → Bool
all_zero [] = true
all_zero (b ∷ bs) = eqb b 0 && all_zero bs

unfoldable pub transfer_admin : Address → Address → Action Done
unfolding require_admin append_audit
transfer_admin current_admin new_admin = do
  require_admin current_admin
  fail_if (eqb new_admin current_admin) invalid_admin_address
  env ← ask
  fail_if (all_zero (env.address_xdr new_admin)) invalid_admin_address
  modify (set_admin_key new_admin)
  publish (admin_transferred current_admin new_admin)
  append_audit AdminActionType.transfer_admin current_admin ""

unfoldable pub pause_contract : Address → Action Done
unfolding require_admin_rate_limited append_audit
pause_contract admin = do
  require_admin_rate_limited admin
  modify (set_paused true)
  append_audit AdminActionType.pause_contract admin ""
  publish Event.contract_paused

-- `if let Some(lock_until) = ... { timestamp < lock_until }`
abbrev pub is_before : Option ℕ → ℕ → Bool
is_before none now = false
is_before (some t) now = ltb now t

unfoldable pub unpause_contract : Address → Action Done
unfolding require_admin_rate_limited append_audit
unpause_contract admin = do
  require_admin_rate_limited admin
  env ← ask
  lock ← gets get_unpause_lock_until
  fail_if (is_before lock env.timestamp) timelock_active
  modify clear_unpause_lock_until
  modify clear_pause_reason
  modify clear_early_unpause_approvals
  modify (set_paused false)
  append_audit AdminActionType.unpause_contract admin ""
  publish contract_unpaused

unfoldable pub pause_with_reason : Address → String → Action Done
unfolding require_admin_rate_limited require_non_empty_string
pause_with_reason admin reason = do
  require_admin_rate_limited admin
  require_non_empty_string reason
  modify (set_paused true)
  modify (set_pause_reason reason)
  env ← ask
  lock_until ← add_u64 env.timestamp pause_timelock_secs
  modify (set_unpause_lock_until lock_until)
  modify clear_early_unpause_approvals
  publish (paused_with_reason reason lock_until)

unfoldable pub set_pause_guardians : Address → List Address → Action Done
unfolding require_admin_rate_limited
set_pause_guardians admin guardians = do
  require_admin_rate_limited admin
  fail_if (not (eqb (length guardians) 5)) invalid_input
  modify (set_pause_guardians_key guardians)

-- The end of `approve_early_unpause`: with enough approvals the contract is unpaused.
abbrev pub lift_pause : Action Done
lift_pause = do
  modify (set_paused false)
  modify clear_unpause_lock_until
  modify clear_pause_reason
  modify clear_early_unpause_approvals
  publish multisig_override

unfoldable pub approve_early_unpause : Address → Action Done
approve_early_unpause guardian = do
  require_auth guardian
  guardians ← gets get_pause_guardians
  fail_if (not (contains guardians guardian)) not_a_pause_guardian
  approvals ← gets get_early_unpause_approvals
  fail_if (contains approvals guardian) already_approved_unpause
  let extended = push_back approvals guardian
  modify (set_early_unpause_approvals extended)
  when (leb early_unpause_threshold (length extended)) lift_pause

unfoldable pub reset_auth_lockout : Address → Address → Action Done
unfolding require_admin_rate_limited
reset_auth_lockout admin address = do
  require_admin_rate_limited admin
  modify (clear_auth_lockout address)
  publish (auth_lockout_reset address)
