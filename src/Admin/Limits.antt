-- ===== src/Admin/Limits.antt =====
-- What the configuration keeps to.
use lumenflow_contracts.Action.{Action, Done, ok}
use lumenflow_contracts.Admin.Settings.{
  add_allowed_issuer, add_allowed_token, remove_allowed_token, set_large_payment_threshold,
  set_min_refund_amount, set_multisig_expiry_duration, set_payment_cleanup_period, set_platform_fee,
  set_refund_window, remove_allowed_issuer, set_max_signers, set_payment_rate_limit,
  set_payment_rate_window, set_rate_limit, set_refund_retention_period, set_signature_expiry_window,
}
use lumenflow_contracts.Base.{
  Bool, Option, leb, refl, ◌↔◌, arith, nat_eq, some, string_eq, true, ℕ, ◌≡◌, ◌≤◌,
}
use lumenflow_contracts.Base.Int.{pos, ℤ, ◌<ℤ◌}
use lumenflow_contracts.Host.{Env}
use lumenflow_contracts.Storage.{
  World, get_admin, get_large_payment_threshold, get_max_multisig_signers, get_min_refund_amount,
  get_multisig_expiry_duration, get_platform_fee_bps, get_rate_limit_per_window, get_refund_window,
  get_signature_expiry_window, max_platform_fee_bps, min_refund_window_secs,
}
use lumenflow_contracts.Types.{Address}

-- The configured fee is at most the whole amount, the window of refunds is at least an hour, and the
-- other limits that may not be zero are not.
pub record IsConfigured (w : World) : Type 0 where
  pub fee_bounded : get_platform_fee_bps w ≤ max_platform_fee_bps
  pub threshold_positive : pos 0 <ℤ get_large_payment_threshold w
  pub refund_positive : pos 0 <ℤ get_min_refund_amount w
  pub expiry_positive : 1 ≤ get_multisig_expiry_duration w
  pub signers_positive : 1 ≤ get_max_multisig_signers w
  pub signature_positive : 1 ≤ get_signature_expiry_window w
  pub rate_positive : 1 ≤ get_rate_limit_per_window w
  pub window_long : min_refund_window_secs ≤ get_refund_window w

-- A call of one of the setters of the configuration.
pub data Setting : Type 0 where
  cleanup_period refund_window multisig_expiry max_signers signature_window rate_limit : ℕ → Setting
  payment_rate_limit payment_rate_window retention_period : ℕ → Setting
  large_threshold min_refund : ℤ → Setting
  platform_fee_of : ℕ → Address → Setting
  allow_token : Address → Option Address → Setting
  disallow_token allow_issuer disallow_issuer : Address → Setting

unfoldable pub configure : Address → Setting → Action Done
configure a (cleanup_period n) = set_payment_cleanup_period a n
configure a (refund_window n) = set_refund_window a n
configure a (multisig_expiry n) = set_multisig_expiry_duration a n
configure a (max_signers n) = set_max_signers a n
configure a (signature_window n) = set_signature_expiry_window a n
configure a (rate_limit n) = set_rate_limit a n
configure a (payment_rate_limit n) = set_payment_rate_limit a n
configure a (payment_rate_window n) = set_payment_rate_window a n
configure a (retention_period n) = set_refund_retention_period a n
configure a (large_threshold z) = set_large_payment_threshold a z
configure a (min_refund z) = set_min_refund_amount a z
configure a (platform_fee_of n r) = set_platform_fee a n r
configure a (allow_token t i) = add_allowed_token a t i
configure a (disallow_token t) = remove_allowed_token a t
configure a (allow_issuer i) = add_allowed_issuer a i
configure a (disallow_issuer i) = remove_allowed_issuer a i

-- Setting the window of the payments rate limit writes the window of refunds.
abbrev pub keeps_window : Setting → Bool
keeps_window (payment_rate_window n) = leb min_refund_window_secs n
keeps_window _ = true

-- If the configured fee is at most the whole amount, the window of refunds at least an hour, and the
-- threshold of large payments, the least refund, the time to expiry and the number of signers of a
-- multi-signature payment, the window of signatures and the rate limit are positive, then a setter
-- that goes through, whatever it was given, was called with the signature of the administrator, and
-- all this still holds exactly unless the setter was `set_payment_rate_window` with less than an hour.
pub configure-IsConfigured :
    (a : Address) (s : Setting) (env : Env) (w w' : World)
    → IsConfigured w
    → configure a s env w ≡ ok tt w'
    → (env.authorized a ≡ true)
      × (get_admin w ≡ some a)
      × (IsConfigured w' ↔ (keeps_window s ≡ true))
unfolding configure set_payment_cleanup_period set_refund_window set_multisig_expiry_duration
    set_max_signers set_signature_expiry_window set_rate_limit set_payment_rate_limit
    set_payment_rate_window set_refund_retention_period set_large_payment_threshold
    set_min_refund_amount set_platform_fee add_allowed_token remove_allowed_token add_allowed_issuer
    remove_allowed_issuer
configure-IsConfigured a (payment_rate_window n) env w w' c done =
    let written : get_refund_window w' ≡ n = ground arith in
    (ground arith, ground arith, (λ c'. ground (arith, c'.window_long, written), λ h. ground arith))
configure-IsConfigured a (cleanup_period n) env w w' c done =
    (ground arith, ground arith, (λ c'. refl, λ h. ground arith))
configure-IsConfigured a (platform_fee_of n r) env w w' c done =
    (ground arith, ground arith, (λ c'. refl, λ h. ground arith))
configure-IsConfigured a (allow_token t i) env w w' c done =
    (ground arith, ground arith, (λ c'. refl, λ h. ground arith))
configure-IsConfigured a _ env w w' c done =
    (ground arith, ground arith, (λ c'. refl, λ h. ground arith))
