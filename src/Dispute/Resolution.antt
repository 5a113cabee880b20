-- ===== src/Dispute/Resolution.antt =====
-- What resolving a dispute does, and to what.
use lumenflow_contracts.Action.{is_ok, ok}
use lumenflow_contracts.Base.{
  Bool, Option, String, arith, false, if◌then◌else◌, nat_eq, some, string_eq, true, ◌∷◌, ◌≡◌, ◌⊎◌,
}
use lumenflow_contracts.Base.Dict.{lookup-put_self, put}
use lumenflow_contracts.Base.Int.{◌+ℤ◌}
use lumenflow_contracts.Dispute.Handlers.{
  escalate_dispute, is_resolved, mark_dispute_under_review, resolve_dispute,
}
use lumenflow_contracts.Host.{Env, transfer}
use lumenflow_contracts.Refund.Execution.{refund_status}
use lumenflow_contracts.Storage.{World, get_admin, get_dispute, get_payment, get_refund}
use lumenflow_contracts.Types.{
  Address, DisputeRecord, DisputeStatus, PaymentOrder, RefundRecord, RefundStatus, merchant_favor,
  payer_favor,
}

-- A resolution that goes through is the administrator's, of a dispute that was not resolved, and
-- leaves it resolved, with the outcome chosen and the note. Unless the refund is forced, nothing is
-- paid and no payment or refund changes.
pub resolve_dispute_lem :
    (admin : Address) (k note : String) (forced : Bool) (env : Env) (w w' : World)
    (d : DisputeRecord)
    → get_dispute k w ≡ some d
    → d.dispute_id ≡ k
    → resolve_dispute admin k note forced env w ≡ ok tt w'
    → (env.authorized admin ≡ true)
      × (get_admin w ≡ some admin)
      × (is_resolved d.status ≡ false)
      × (get_dispute k w'
          ≡ some (record d {
            status = DisputeStatus.resolved;
            outcome = some (if forced then payer_favor else merchant_favor);
            resolution = some note;
          }))
      × ((forced ≡ true)
          ⊎ ((w'.calls ≡ w.calls)
              × (w'.claims.refunds ≡ w.claims.refunds)
              × (w'.book.payments ≡ w.book.payments)))
unfolding resolve_dispute
resolve_dispute_lem admin k note forced env w w' d found keyed done =
    let d' = record d {
      status = DisputeStatus.resolved;
      outcome = some (if forced then payer_favor else merchant_favor);
      resolution = some note;
    } in
    (
      ground arith,
      ground arith,
      ground arith,
      ground (arith, lookup-put_self k d' w.claims.disputes),
      ground arith,
    )

-- When a dispute over a known refund of a known payment is resolved with a forced refund, the
-- refund's amount is moved from the merchant to the payer and added to what the payment has
-- refunded, and the refund is completed; no condition is put on the refund's status, on the amount
-- left or on the merchant's signature.
pub resolve_dispute_forced :
    (admin : Address) (k note : String) (env : Env) (w w' : World) (d : DisputeRecord)
    (r : RefundRecord) (p : PaymentOrder)
    → get_dispute k w ≡ some d
    → get_refund d.refund_id w ≡ some r
    → get_payment r.order_id w ≡ some p
    → resolve_dispute admin k note true env w ≡ ok tt w'
    → (w'.calls ≡ transfer p.token p.merchant_address p.payer r.amount ∷ w.calls)
      × (w'.claims.refunds
          ≡ put r.refund_id (record r { status = RefundStatus.completed }) w.claims.refunds)
      × (w'.book.payments
          ≡ put p.order_id
              (record p {
                refunded_amount = p.refunded_amount +ℤ r.amount;
                status = refund_status p.amount (p.refunded_amount +ℤ r.amount);
              })
              w.book.payments)
unfolding resolve_dispute
resolve_dispute_forced admin k note env w w' d r p found claimed paid done =
    (ground arith, ground arith, ground arith)

-- In the state that a resolution leaves, the dispute can be neither resolved again, escalated nor
-- taken under review, whoever calls.
pub resolve_dispute_final :
    (admin a : Address) (k note other_note : String) (notes : Option String) (forced again : Bool)
    (env later : Env) (w w' : World) (d : DisputeRecord)
    → get_dispute k w ≡ some d
    → d.dispute_id ≡ k
    → resolve_dispute admin k note forced env w ≡ ok tt w'
    → (is_ok (resolve_dispute a k other_note again later w') ≡ false)
      × (is_ok (escalate_dispute a k notes later w') ≡ false)
      × (is_ok (mark_dispute_under_review a k later w') ≡ false)
unfolding resolve_dispute escalate_dispute mark_dispute_under_review
resolve_dispute_final admin a k note other_note notes forced again env later w w' d found keyed
      done =
    let kept = (resolve_dispute_lem admin k note forced env w w' d found keyed done).3 in
    (ground arith, ground arith, ground arith)
