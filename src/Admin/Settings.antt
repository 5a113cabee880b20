-- ===== src/Admin/Settings.antt =====
-- contracts/lumenflow/src/lib.rs: the setters of the configuration. Where lib.rs defines a setter
-- twice, this is the first of the two.
use lumenflow_contracts.Action.{Action, Done, fail_if, gets, modify, publish, ◌>>=◌, ◌>>◌}
use lumenflow_contracts.Audit.Log.{append_audit}
use lumenflow_contracts.Base.{
  Bool, Option, eqb, false, ltb, nat_eq, none, not, some, string_eq, true, ℕ,
}
use lumenflow_contracts.Base.Int.{pos, ℤ}
use lumenflow_contracts.Guards.{require_admin, require_admin_rate_limited, require_positive}
use lumenflow_contracts.Host.{
  admin_action, issuer_allowed, issuer_disallowed, max_signers_updated, rate_limit_set,
  refund_window_set, signature_expiry_window_set, token_allowed, token_disallowed,
}
use lumenflow_contracts.Storage.{
  World, is_issuer_allowed, max_platform_fee_bps, min_refund_window_secs, put_cleanup_period,
  put_fee_recipient, put_large_payment_threshold, put_max_multisig_signers, put_min_refund_amount,
  put_multisig_expiry_duration, put_payment_rate_limit, put_payment_rate_window,
  put_platform_fee_bps, put_rate_limit_per_window, put_refund_retention_period, put_refund_window,
  put_signature_expiry_window, set_issuer_allowed, set_token_allowed,
}
use lumenflow_contracts.Types.{Address, AdminActionType, invalid_input, invalid_issuer}

unfoldable pub set_payment_cleanup_period : Address → ℕ → Action Done
unfolding require_admin_rate_limited
set_payment_cleanup_period admin period = do
  require_admin_rate_limited admin
  modify (put_cleanup_period period)
  publish (admin_action "set_payment_cleanup_period" admin (pos period))

unfoldable pub set_platform_fee : Address → ℕ → Address → Action Done
unfolding require_admin_rate_limited append_audit
set_platform_fee admin fee_bps fee_recipient = do
  require_admin_rate_limited admin
  fail_if (ltb max_platform_fee_bps fee_bps) invalid_input
  modify (put_platform_fee_bps fee_bps)
  modify (put_fee_recipient fee_recipient)
  append_audit AdminActionType.set_platform_fee admin ""

unfoldable pub set_large_payment_threshold : Address → ℤ → Action Done
unfolding require_admin_rate_limited require_positive
set_large_payment_threshold admin threshold = do
  require_admin_rate_limited admin
  require_positive threshold
  modify (put_large_payment_threshold threshold)
  publish (admin_action "set_large_payment_threshold" admin threshold)

unfoldable pub set_multisig_expiry_duration : Address → ℕ → Action Done
unfolding require_admin_rate_limited
set_multisig_expiry_duration admin duration = do
  require_admin_rate_limited admin
  fail_if (eqb duration 0) invalid_input
  modify (put_multisig_expiry_duration duration)

unfoldable pub set_max_signers : Address → ℕ → Action Done
unfolding require_admin_rate_limited
set_max_signers admin max_signers = do
  require_admin_rate_limited admin
  fail_if (eqb max_signers 0) invalid_input
  modify (put_max_multisig_signers max_signers)
  publish (max_signers_updated max_signers)

unfoldable pub set_refund_window : Address → ℕ → Action Done
unfolding require_admin_rate_limited
set_refund_window admin window_secs = do
  require_admin_rate_limited admin
  fail_if (ltb window_secs min_refund_window_secs) invalid_input
  modify (put_refund_window window_secs)
  publish (refund_window_set window_secs)

unfoldable pub set_min_refund_amount : Address → ℤ → Action Done
unfolding require_admin_rate_limited require_positive
set_min_refund_amount admin amount = do
  require_admin_rate_limited admin
  require_positive amount
  modify (put_min_refund_amount amount)

unfoldable pub set_signature_expiry_window : Address → ℕ → Action Done
unfolding require_admin_rate_limited
set_signature_expiry_window admin window_secs = do
  require_admin_rate_limited admin
  fail_if (eqb window_secs 0) invalid_input
  modify (put_signature_expiry_window window_secs)
  publish (signature_expiry_window_set window_secs)

unfoldable pub set_rate_limit : Address → ℕ → Action Done
unfolding require_admin_rate_limited
set_rate_limit admin limit = do
  require_admin_rate_limited admin
  fail_if (eqb limit 0) invalid_input
  modify (put_rate_limit_per_window limit)
  publish (rate_limit_set limit)

-- `if let Some(ref iss) = issuer { if !is_issuer_allowed(iss) { ... } }`
abbrev pub is_unknown_issuer : Option Address → World → Bool
is_unknown_issuer none w = false
is_unknown_issuer (some i) w = not (is_issuer_allowed i w)

unfoldable pub add_allowed_token : Address → Address → Option Address → Action Done
unfolding require_admin append_audit
add_allowed_token admin token issuer = do
  require_admin admin
  unknown ← gets (is_unknown_issuer issuer)
  fail_if unknown invalid_issuer
  modify (set_token_allowed token true)
  append_audit AdminActionType.add_allowed_token admin ""
  publish (token_allowed token)

unfoldable pub remove_allowed_token : Address → Address → Action Done
unfolding require_admin append_audit
remove_allowed_token admin token = do
  require_admin admin
  modify (set_token_allowed token false)
  append_audit AdminActionType.remove_allowed_token admin ""
  publish (token_disallowed token)

unfoldable pub add_allowed_issuer : Address → Address → Action Done
unfolding require_admin
add_allowed_issuer admin issuer = do
  require_admin admin
  modify (set_issuer_allowed issuer true)
  publish (issuer_allowed issuer)

unfoldable pub remove_allowed_issuer : Address → Address → Action Done
unfolding require_admin
remove_allowed_issuer admin issuer = do
  require_admin admin
  modify (set_issuer_allowed issuer false)
  publish (issuer_disallowed issuer)

unfoldable pub set_payment_rate_limit : Address → ℕ → Action Done
unfolding require_admin
set_payment_rate_limit admin limit = do
  require_admin admin
  fail_if (eqb limit 0) invalid_input
  modify (put_payment_rate_limit limit)

unfoldable pub set_payment_rate_window : Address → ℕ → Action Done
unfolding require_admin
set_payment_rate_window admin window_secs = do
  require_admin admin
  fail_if (eqb window_secs 0) invalid_input
  modify (put_payment_rate_window window_secs)

unfoldable pub set_refund_retention_period : Address → ℕ → Action Done
unfolding require_admin
set_refund_retention_period admin period = do
  require_admin admin
  modify (put_refund_retention_period period)
  publish (admin_action "set_refund_retention_period" admin (pos period))
