-- ===== src/Dispute/Handlers.antt =====
-- contracts/lumenflow/src/lib.rs, "Dispute resolution" and the disputes without a refund.
use lumenflow_contracts.Action.{
  Action, Done, add_i128, ask, call_token, fail_if, gets, modify, or_fail, publish, require_auth,
  when, ◌>>=◌, ◌>>◌,
}
use lumenflow_contracts.Base.{
  Bool, Option, String, eqb, false, if◌then◌else◌, is_some, len, ltb, nat_eq, none, not, some,
  string_eq, true, ℕ, ◌&&◌, ◌||◌,
}
use lumenflow_contracts.Guards.{require_admin_rate_limited, require_not_paused, require_valid_id}
use lumenflow_contracts.Host.{
  dispute_escalated, dispute_initiated, dispute_raised, dispute_resolved, dispute_under_review,
  transfer,
}
use lumenflow_contracts.Refund.Execution.{count_merchant_refund, count_refund, refund_status}
use lumenflow_contracts.Storage.{
  get_dispute, get_payment, get_refund, set_dispute, set_payment, set_refund,
}
use lumenflow_contracts.Types.{
  Address, DisputeRecord, DisputeStatus, RefundStatus, dispute_already_escalated,
  dispute_already_exists, dispute_already_resolved, dispute_not_found, dispute_not_open,
  dispute_refund_not_rejected, invalid_input, merchant_favor, payer_favor, payment_not_found,
  refund_not_found, unauthorized,
}

abbrev pub is_rejected : RefundStatus → Bool
is_rejected RefundStatus.rejected = true
is_rejected _ = false

abbrev pub is_resolved : DisputeStatus → Bool
is_resolved DisputeStatus.resolved = true
is_resolved _ = false

abbrev pub is_escalated : DisputeStatus → Bool
is_escalated DisputeStatus.escalated = true
is_escalated _ = false

abbrev pub is_opened : DisputeStatus → Bool
is_opened DisputeStatus.opened = true
is_opened _ = false

-- The record that `raise_dispute` and `initiate_dispute` write.
abbrev pub new_dispute : String → String → String → Address → String → ℕ → DisputeRecord
new_dispute dispute_id order_id refund_id caller reason now = record {
  dispute_id = dispute_id;
  order_id = order_id;
  refund_id = refund_id;
  initiator = caller;
  reason = reason;
  status = DisputeStatus.opened;
  outcome = none;
  resolution = none;
  created_at = now;
}

unfoldable pub raise_dispute : Address → String → String → String → Action Done
unfolding require_not_paused require_valid_id
raise_dispute caller dispute_id refund_id reason = do
  require_not_paused
  require_auth caller
  require_valid_id dispute_id
  fail_if (ltb 256 (len reason)) invalid_input
  existing ← gets (get_dispute dispute_id)
  fail_if (is_some existing) dispute_already_exists
  found ← gets (get_refund refund_id)
  refund ← or_fail found refund_not_found
  fail_if (not (is_rejected refund.status)) dispute_refund_not_rejected
  paid ← gets (get_payment refund.order_id)
  payment ← or_fail paid payment_not_found
  fail_if (not (eqb caller payment.payer)) unauthorized
  env ← ask
  modify
      (set_dispute (new_dispute dispute_id refund.order_id refund_id caller reason env.timestamp))
  publish (dispute_raised dispute_id refund_id refund.order_id)

-- The refund that a dispute resolved for the payer forces. It reads the refund whatever its status.
unfoldable pub force_refund : String → Action Done
force_refund refund_id = do
  found ← gets (get_refund refund_id)
  refund ← or_fail found refund_not_found
  paid ← gets (get_payment refund.order_id)
  payment ← or_fail paid payment_not_found
  refunded ← add_i128 payment.refunded_amount refund.amount
  modify (
      set_payment (record payment {
        refunded_amount = refunded;
        status = refund_status payment.amount refunded;
      }))
  modify (set_refund (record refund { status = RefundStatus.completed }))
  count_refund refund.amount
  count_merchant_refund payment.merchant_address refund.amount
  call_token (transfer payment.token payment.merchant_address payment.payer refund.amount)

unfoldable pub resolve_dispute : Address → String → String → Bool → Action Done
unfolding require_not_paused require_admin_rate_limited force_refund
resolve_dispute admin dispute_id resolution forced = do
  require_not_paused
  require_admin_rate_limited admin
  fail_if (eqb (len resolution) 0 || ltb 256 (len resolution)) invalid_input
  found ← gets (get_dispute dispute_id)
  dispute ← or_fail found dispute_not_found
  fail_if (is_resolved dispute.status) dispute_already_resolved
  modify (
      set_dispute (record dispute {
        status = DisputeStatus.resolved;
        outcome = some (if forced then payer_favor else merchant_favor);
        resolution = some resolution;
      }))
  when forced (force_refund dispute.refund_id)
  publish (dispute_resolved dispute_id resolution forced)

unfoldable pub initiate_dispute : Address → String → String → String → Action Done
unfolding require_not_paused require_valid_id
initiate_dispute caller dispute_id order_id reason = do
  require_not_paused
  require_auth caller
  require_valid_id dispute_id
  fail_if (eqb (len reason) 0 || ltb 256 (len reason)) invalid_input
  existing ← gets (get_dispute dispute_id)
  fail_if (is_some existing) dispute_already_exists
  paid ← gets (get_payment order_id)
  payment ← or_fail paid payment_not_found
  fail_if (not (eqb caller payment.payer) && not (eqb caller payment.merchant_address)) unauthorized
  env ← ask
  modify (set_dispute (new_dispute dispute_id order_id "" caller reason env.timestamp))
  publish (dispute_initiated dispute_id order_id caller reason)

unfoldable pub mark_dispute_under_review : Address → String → Action Done
unfolding require_not_paused require_admin_rate_limited
mark_dispute_under_review admin dispute_id = do
  require_not_paused
  require_admin_rate_limited admin
  found ← gets (get_dispute dispute_id)
  dispute ← or_fail found dispute_not_found
  fail_if (not (is_opened dispute.status)) dispute_not_open
  modify (set_dispute (record dispute { status = DisputeStatus.under_review }))
  publish (dispute_under_review dispute_id)

abbrev pub is_long : Option String → Bool
is_long none = false
is_long (some notes) = ltb 256 (len notes)

unfoldable pub escalate_dispute : Address → String → Option String → Action Done
unfolding require_not_paused require_admin_rate_limited
escalate_dispute admin dispute_id notes = do
  require_not_paused
  require_admin_rate_limited admin
  found ← gets (get_dispute dispute_id)
  dispute ← or_fail found dispute_not_found
  fail_if (is_resolved dispute.status) dispute_already_resolved
  fail_if (is_escalated dispute.status) dispute_already_escalated
  fail_if (is_long notes) invalid_input
  modify (set_dispute (record dispute { status = DisputeStatus.escalated; resolution = notes }))
  publish (dispute_escalated dispute_id)
