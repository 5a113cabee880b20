-- ===== src/Refund/Requests.antt =====
-- contracts/lumenflow/src/lib.rs, "Refunds": asking for a refund, and deciding on it.
use lumenflow_contracts.Action.{
  Action, Done, add_i128, add_u64, ask, fail_if, gets, modify, or_fail, publish, require_auth,
  ◌>>=◌, ◌>>◌,
}
use lumenflow_contracts.Base.{
  Bool, String, eqb, false, is_some, leb, length, ltb, nat_eq, not, string_eq, true, ℕ, ◌&&◌,
}
use lumenflow_contracts.Base.Int.{ltb_ℤ, pos, ℤ}
use lumenflow_contracts.Guards.{
  require_admin_or, require_min_refund_amount, require_not_paused, require_positive,
  require_valid_id,
}
use lumenflow_contracts.Host.{refund_approved, refund_initiated, refund_rejected}
use lumenflow_contracts.Storage.{
  add_order_refund_id, get_min_refund_amount, get_order_refund_ids, get_payment, get_refund,
  get_refund_window, set_refund,
}
use lumenflow_contracts.Types.{
  Address, RefundRecord, RefundStatus, payment_not_found, refund_already_completed,
  refund_already_exists, refund_below_minimum, refund_exceeds_original, refund_limit_exceeded,
  refund_not_found, refund_window_expired, unauthorized,
}

abbrev pub max_refunds_per_payment : ℕ
max_refunds_per_payment = 10

-- The record that `initiate_refund` writes.
abbrev pub new_refund : String → String → Address → ℤ → String → ℕ → RefundRecord
new_refund refund_id order_id caller amount reason now = record {
  refund_id = refund_id;
  order_id = order_id;
  initiator = caller;
  amount = amount;
  reason = reason;
  status = RefundStatus.pending;
  created_at = now;
}

unfoldable pub initiate_refund : Address → String → String → ℤ → String → Action Done
unfolding require_not_paused require_positive require_min_refund_amount require_valid_id
initiate_refund caller refund_id order_id amount reason = do
  require_not_paused
  require_auth caller
  require_positive amount
  require_min_refund_amount amount
  require_valid_id refund_id
  existing ← gets (get_refund refund_id)
  fail_if (is_some existing) refund_already_exists
  found ← gets (get_payment order_id)
  payment ← or_fail found payment_not_found
  ids ← gets (get_order_refund_ids order_id)
  fail_if (leb max_refunds_per_payment (length ids)) refund_limit_exceeded
  fail_if (not (eqb caller payment.payer) && not (eqb caller payment.merchant_address)) unauthorized
  env ← ask
  window ← gets get_refund_window
  deadline ← add_u64 payment.paid_at window
  fail_if (ltb deadline env.timestamp) refund_window_expired
  requested ← add_i128 payment.refunded_amount amount
  fail_if (ltb_ℤ payment.amount requested) refund_exceeds_original
  min_refund ← gets get_min_refund_amount
  fail_if (ltb_ℤ (pos 0) min_refund && ltb_ℤ amount min_refund) refund_below_minimum
  modify (set_refund (new_refund refund_id order_id caller amount reason env.timestamp))
  modify (add_order_refund_id order_id refund_id)
  publish (refund_initiated payment.merchant_address refund_id order_id)

abbrev pub is_pending : RefundStatus → Bool
is_pending RefundStatus.pending = true
is_pending _ = false

abbrev pub is_approved : RefundStatus → Bool
is_approved RefundStatus.approved = true
is_approved _ = false

unfoldable pub approve_refund : Address → String → Action Done
unfolding require_not_paused require_admin_or
approve_refund caller refund_id = do
  require_not_paused
  found ← gets (get_refund refund_id)
  refund ← or_fail found refund_not_found
  paid ← gets (get_payment refund.order_id)
  payment ← or_fail paid payment_not_found
  require_admin_or caller payment.merchant_address
  fail_if (not (is_pending refund.status)) refund_already_completed
  modify (set_refund (record refund { status = RefundStatus.approved }))
  publish (refund_approved payment.merchant_address refund_id refund.order_id)

unfoldable pub reject_refund : Address → String → Action Done
unfolding require_not_paused require_admin_or
reject_refund caller refund_id = do
  require_not_paused
  found ← gets (get_refund refund_id)
  refund ← or_fail found refund_not_found
  paid ← gets (get_payment refund.order_id)
  payment ← or_fail paid payment_not_found
  require_admin_or caller payment.merchant_address
  fail_if (not (is_pending refund.status)) refund_already_completed
  modify (set_refund (record refund { status = RefundStatus.rejected }))
  publish (refund_rejected payment.merchant_address refund_id refund.order_id)
