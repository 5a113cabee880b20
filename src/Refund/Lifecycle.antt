-- ===== src/Refund/Lifecycle.antt =====
-- What the refund entry points do to the records, on success.
use lumenflow_contracts.Action.{err, ok}
use lumenflow_contracts.Base.{
  ==_refl, length, none, ◌<◌, ◌≤◌, ◌⊎◌, String, arith, nat_eq, some, string_eq, true, ◌+◌, ◌∷◌, ◌≡◌,
}
use lumenflow_contracts.Base.Dict.{lookup-put, lookup-put_self, put}
use lumenflow_contracts.Base.Int.{pos, ℤ, ◌<ℤ◌, ◌≤ℤ◌, ◌+ℤ◌}
use lumenflow_contracts.Refund.Requests.{initiate_refund, new_refund}
use lumenflow_contracts.Storage.{
  get_min_refund_amount, get_order_refund_ids, get_refund_window, World, get_payment, get_refund,
}
use lumenflow_contracts.Types.{
  Address, refund_not_approved, PaymentOrder, RefundRecord, RefundStatus,
}
use lumenflow_contracts.Host.{Env, transfer}
use lumenflow_contracts.Refund.Execution.{execute_refund, refund_status}

-- A success of `execute_refund` comes from an approved refund of a known payment, adds the refund's
-- amount to what the payment has refunded, completes the refund, and asks the payment's token to
-- move that amount from the merchant, who has signed, to the payer.
pub execute_refund_lem :
    (k : String) (env : Env) (w w' : World) (r : RefundRecord) (p : PaymentOrder)
    → get_refund k w ≡ some r
    → get_payment r.order_id w ≡ some p
    → execute_refund k env w ≡ ok tt w'
    → (r.status ≡ RefundStatus.approved)
      × (env.authorized p.merchant_address ≡ true)
      × (w'.claims.refunds
          ≡ put r.refund_id (record r { status = RefundStatus.completed }) w.claims.refunds)
      × (w'.book.payments
          ≡ put p.order_id
              (record p {
                refunded_amount = p.refunded_amount +ℤ r.amount;
                status = refund_status p.amount (p.refunded_amount +ℤ r.amount);
                version = p.version + 1;
              })
              w.book.payments)
      × (w'.calls ≡ transfer p.token p.merchant_address p.payer r.amount ∷ w.calls)
unfolding execute_refund
execute_refund_lem k env w w' r p found paid done =
    (ground arith, ground arith, ground arith, ground arith, ground arith)

-- A refund that was executed is completed, so executing it again is refused.
pub execute_refund_twice :
    (k : String) (env later : Env) (w w' : World) (r : RefundRecord) (p : PaymentOrder)
    → get_refund k w ≡ some r
    → r.refund_id ≡ k
    → get_payment r.order_id w ≡ some p
    → execute_refund k env w ≡ ok tt w'
    → execute_refund k later w' ≡ err refund_not_approved w'
unfolding execute_refund
execute_refund_twice k env later w w' r p found keyed paid done = ground (
  arith,
  lookup-put k r.refund_id (record r { status = RefundStatus.completed }) w.claims.refunds,
  ==_refl k,
)

-- A success of `initiate_refund` meets every limit, and records the request as pending.
pub initiate_refund_lem :
    (caller : Address) (k order : String) (amount : ℤ) (reason : String) (env : Env) (w w' : World)
    (p : PaymentOrder)
    → get_payment order w ≡ some p
    → initiate_refund caller k order amount reason env w ≡ ok tt w'
    → (env.authorized caller ≡ true)
      × ((caller ≡ p.payer) ⊎ (caller ≡ p.merchant_address))
      × (pos 0 <ℤ amount)
      × (get_min_refund_amount w ≤ℤ amount)
      × (p.refunded_amount +ℤ amount ≤ℤ p.amount)
      × (env.timestamp ≤ p.paid_at + get_refund_window w)
      × (length (get_order_refund_ids order w) < 10)
      × (get_refund k w ≡ none)
      × (get_refund k w' ≡ some (new_refund k order caller amount reason env.timestamp))
      × (w'.calls ≡ w.calls)
unfolding initiate_refund
initiate_refund_lem caller k order amount reason env w w' p found done = (
  ground arith,
  ground arith,
  ground arith,
  ground arith,
  ground arith,
  ground arith,
  ground arith,
  ground arith,
  ground (
    arith,
    lookup-put_self k (new_refund k order caller amount reason env.timestamp) w.claims.refunds,
  ),
  ground arith,
)
