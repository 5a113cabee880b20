-- ===== src/Refund/Limits.antt =====
-- How many refunds a payment can have, and how much they can come to.
use mathlib.Core.Option
use lumenflow_contracts.Action.{ok, After, left_by, u32_max}
use lumenflow_contracts.Base.{
  ==_eq, ap, ◌∙◌, ◌∷◌, List, length-push_back, push_back, ◌≢◌, String, arith, false, length, nat_eq,
  some, string_eq, true, ◌+◌, ◌≡◌, ◌≤◌,
}
use lumenflow_contracts.Base.Dict.{lookup, lookup-put, lookup-put_self}
use lumenflow_contracts.Refund.Execution.{refund_status, execute_refund}
use lumenflow_contracts.Refund.Lifecycle.{execute_refund_lem}
use lumenflow_contracts.Base.Int.{in_i128, ℤ, ◌+ℤ◌}
use lumenflow_contracts.Host.{Env, transfer}
use lumenflow_contracts.Refund.Requests.{initiate_refund}
use lumenflow_contracts.Storage.{
  World, get_global_stats, get_merchant_stats, get_order_refund_ids, get_paused, get_payment,
  get_refund,
}
use lumenflow_contracts.Types.{Address, PaymentOrder, RefundRecord, RefundStatus}

-- An order with at most ten refund requests still has at most ten after `initiate_refund`, for
-- whichever order it is called and whatever its outcome.
pub initiate_refund_limit :
    (caller : Address) (k order o : String) (amount : ℤ) (reason : String) (env : Env) (w : World)
    → length (get_order_refund_ids o w) ≤ 10
    → After
        (λ w'. length (get_order_refund_ids o w') ≤ 10)
        (initiate_refund caller k order amount reason env w)
unfolding initiate_refund
initiate_refund_limit caller k order o amount reason env w h =
    let ids : List String = push_back (get_order_refund_ids order w) k in
    ground (
      arith,
      lookup-put o order ids w.claims.order_refund_ids,
      length-push_back (get_order_refund_ids order w) k,
    )

-- The conditions under which an approved refund is paid. None of them looks at the amount that the
-- payment has left.
pub record CanExecute (k : String) (r : RefundRecord) (p : PaymentOrder) (env : Env) (w : World)
    : Type 0 where
  pub running : get_paused w ≡ false
  pub found : get_refund k w ≡ some r
  pub approved : r.status ≡ RefundStatus.approved
  pub paid : get_payment r.order_id w ≡ some p
  pub signed : env.authorized p.merchant_address ≡ true
  pub accepted : env.accepts w.calls (transfer p.token p.merchant_address p.payer r.amount) ≡ true
  pub in_range : in_i128 (p.refunded_amount +ℤ r.amount) ≡ true
  pub version_fits : p.version + 1 ≤ u32_max
  pub merchant_count_fits : (get_merchant_stats p.merchant_address w).total_refunds + 1 ≤ u32_max
  pub count_fits : (get_global_stats w).total_refunds + 1 ≤ u32_max

execute_refund-is_ok :
    (k : String) (r : RefundRecord) (p : PaymentOrder) (env : Env) (w : World)
    → CanExecute k r p env w
    → execute_refund k env w ≡ ok tt (left_by w (execute_refund k env w))
unfolding execute_refund
execute_refund-is_ok k r p env w h = ground (
  arith, h.running, h.found, h.approved, h.paid, h.signed, h.accepted, h.in_range, h.version_fits,
  h.merchant_count_fits, h.count_fits,
)

-- An approved refund of a known payment goes through if the contract runs, the merchant has signed,
-- the token accepts the transfer and no counter or sum leaves its type: nothing else is asked for,
-- such as that the payment has the amount left. Then the one token call made is the transfer of the
-- refund's amount from the merchant to the payer, the refund is stored as completed, and the amount is
-- added to what the payment has refunded.
pub execute_refund_succeeds :
    (k : String) (r : RefundRecord) (p : PaymentOrder) (env : Env) (w : World)
    → CanExecute k r p env w
    → (w' : World) × (execute_refund k env w ≡ ok tt w')
      × (w'.calls ≡ transfer p.token p.merchant_address p.payer r.amount ∷ w.calls)
      × (get_refund r.refund_id w' ≡ some (record r { status = RefundStatus.completed }))
      × (get_payment p.order_id w'
          ≡ some (record p {
            refunded_amount = p.refunded_amount +ℤ r.amount;
            status = refund_status p.amount (p.refunded_amount +ℤ r.amount);
            version = p.version + 1;
          }))
execute_refund_succeeds k r p env w h =
    let w' : World = left_by w (execute_refund k env w) in
    let done : execute_refund k env w ≡ ok tt w' = execute_refund-is_ok k r p env w h in
    let (was, by, refunds, payments, calls) =
      execute_refund_lem k env w w' r p h.found h.paid done in
    let r' : RefundRecord = record r { status = RefundStatus.completed } in
    let p' : PaymentOrder = record p {
      refunded_amount = p.refunded_amount +ℤ r.amount;
      status = refund_status p.amount (p.refunded_amount +ℤ r.amount);
      version = p.version + 1;
    } in
    (
      w',
      done,
      calls,
      ap (lookup r.refund_id) refunds ∙ lookup-put_self r.refund_id r' w.claims.refunds,
      ap (lookup p.order_id) payments ∙ lookup-put_self p.order_id p' w.book.payments,
    )

-- If two different refunds of one payment are executed one after the other, the payment ends with
-- the sum of both amounts refunded; there is no condition on that sum and the payment's amount.
pub execute_refund_uncapped :
    (j k : String) (r s : RefundRecord) (p : PaymentOrder) (env : Env) (w u v : World)
    → get_refund j w ≡ some r
    → get_refund k w ≡ some s
    → r.refund_id ≡ j
    → k ≢ j
    → s.order_id ≡ r.order_id
    → get_payment r.order_id w ≡ some p
    → p.order_id ≡ r.order_id
    → execute_refund j env w ≡ ok tt u
    → execute_refund k env u ≡ ok tt v
    → Option.map (λ q. q.refunded_amount) (get_payment r.order_id v)
      ≡ some (p.refunded_amount +ℤ r.amount +ℤ s.amount)
execute_refund_uncapped j k r s p env w u v found found' keyed distinct same paid p_keyed first
      second =
    let p' : PaymentOrder = record p {
      refunded_amount = p.refunded_amount +ℤ r.amount;
      status = refund_status p.amount (p.refunded_amount +ℤ r.amount);
      version = p.version + 1;
    } in
    let q : PaymentOrder = record p' {
      refunded_amount = p'.refunded_amount +ℤ s.amount;
      status = refund_status p'.amount (p'.refunded_amount +ℤ s.amount);
      version = p'.version + 1;
    } in
    let one = execute_refund_lem j env w u r p found paid first in
    let found'' : get_refund k u ≡ some s = ground (
      arith,
      one.2,
      lookup-put k r.refund_id (record r { status = RefundStatus.completed }) w.claims.refunds,
      ==_eq r.refund_id k,
    ) in
    let paid' : get_payment s.order_id u ≡ some p' =
      ground (arith, one.3, lookup-put_self p.order_id p' w.book.payments) in
    let two = execute_refund_lem k env u v s p' found'' paid' second in
    ground (arith, two.3, lookup-put_self p.order_id q u.book.payments)
