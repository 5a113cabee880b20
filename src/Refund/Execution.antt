-- ===== src/Refund/Execution.antt =====
-- contracts/lumenflow/src/lib.rs: paying a refund out, by `execute_refund` or by a dispute that is
-- resolved in the payer's favour.
use lumenflow_contracts.Action.{
  Action, Done, add_i128, add_u32, call_token, fail_if, gets, modify, or_fail, publish,
  require_auth, saturating_add, saturating_add_u32, ◌>>=◌, ◌>>◌,
}
use lumenflow_contracts.Base.{
  Bool, Option, String, eqb, false, if◌then◌else◌, nat_eq, none, not, some, string_eq, ℕ,
}
use lumenflow_contracts.Base.Int.{leb_ℤ, ℤ}
use lumenflow_contracts.Guards.{require_admin_or, require_not_paused}
use lumenflow_contracts.Host.{payment_status_updated, refund_executed, transfer}
use lumenflow_contracts.Refund.Requests.{is_approved}
use lumenflow_contracts.Storage.{
  get_global_stats, get_merchant_stats, get_payment, get_refund, set_global_stats,
  set_merchant_stats, set_payment, set_refund,
}
use lumenflow_contracts.Types.{
  Address, PaymentStatus, RefundStatus, payment_not_found, refund_not_approved, refund_not_found,
  version_mismatch,
}

abbrev pub refund_status : ℤ → ℤ → PaymentStatus
refund_status amount refunded =
    if leb_ℤ amount refunded then PaymentStatus.fully_refunded else PaymentStatus.partially_refunded

-- The statistics of `execute_refund` and `resolve_dispute` after a refund of `amount`.
abbrev pub count_merchant_refund : Address → ℤ → Action Done
count_merchant_refund merchant amount = do
  stats ← gets (get_merchant_stats merchant)
  refunds ← add_u32 stats.total_refunds 1
  modify (
      set_merchant_stats merchant (record stats {
        total_refunds = refunds;
        total_refund_volume = saturating_add stats.total_refund_volume amount;
      }))

abbrev pub count_refund : ℤ → Action Done
count_refund amount = do
  stats ← gets get_global_stats
  refunds ← add_u32 stats.total_refunds 1
  modify (
      set_global_stats (record stats {
        total_refunds = refunds;
        total_refund_volume = saturating_add stats.total_refund_volume amount;
      }))

unfoldable pub execute_refund : String → Action Done
unfolding require_not_paused
execute_refund refund_id = do
  require_not_paused
  found ← gets (get_refund refund_id)
  refund ← or_fail found refund_not_found
  fail_if (not (is_approved refund.status)) refund_not_approved
  paid ← gets (get_payment refund.order_id)
  payment ← or_fail paid payment_not_found
  require_auth payment.merchant_address
  refunded ← add_i128 payment.refunded_amount refund.amount
  version ← add_u32 payment.version 1
  modify (
      set_payment (record payment {
        refunded_amount = refunded;
        status = refund_status payment.amount refunded;
        version = version;
      }))
  modify (set_refund (record refund { status = RefundStatus.completed }))
  count_merchant_refund payment.merchant_address refund.amount
  count_refund refund.amount
  call_token (transfer payment.token payment.merchant_address payment.payer refund.amount)
  publish (refund_executed payment.merchant_address refund_id refund.order_id)

-- `if let Some(ev) = expected_version { payment.version != ev }`
abbrev pub differs : Option ℕ → ℕ → Bool
differs none version = false
differs (some expected) version = not (eqb version expected)

-- `update_payment_status`: the caller states the refunded amount.
unfoldable pub update_payment_status : Address → String → ℤ → Option ℕ → Action Done
unfolding require_not_paused require_admin_or
update_payment_status caller order_id refunded_amount expected_version = do
  require_not_paused
  found ← gets (get_payment order_id)
  payment ← or_fail found payment_not_found
  require_admin_or caller payment.merchant_address
  fail_if (differs expected_version payment.version) version_mismatch
  modify (
      set_payment (record payment {
        refunded_amount = refunded_amount;
        version = saturating_add_u32 payment.version 1;
        status = refund_status payment.amount refunded_amount;
      }))
  publish (payment_status_updated order_id refunded_amount payment.amount)
