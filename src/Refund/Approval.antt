-- ===== src/Refund/Approval.antt =====
-- No refund is paid that was not approved.
use lumenflow_contracts.Action.{ok}
use lumenflow_contracts.Base.{
  ==_eq, Bool-cases, subst, sym, Bool, Option, Option-cases, String, arith, false, inl, inr, nat_eq,
  none, some, string_eq, true, ◌==◌, ◌||◌, ◌≡◌, ◌⊎◌,
}
use lumenflow_contracts.Base.Dict.{lookup-put, Entries-lookup}
use lumenflow_contracts.Base.Int.{ℤ}
use lumenflow_contracts.Guards.{require_admin_or}
use lumenflow_contracts.Host.{Env}
use lumenflow_contracts.Refund.Accounts.{IsAccounted, Reach-IsAccounted, own_id, is_completed}
use lumenflow_contracts.Refund.Change.{with_status}
use lumenflow_contracts.Refund.Execution.{execute_refund}
use lumenflow_contracts.Refund.Requests.{
  approve_refund, initiate_refund, is_approved, new_refund, reject_refund,
}
use lumenflow_contracts.Storage.{World, get_refund, get_admin, get_payment}
use lumenflow_contracts.Types.{Address, PaymentOrder, RefundRecord, RefundStatus}
use lumenflow_contracts.Refund.History.{
  Operation, Reach, Step, call, elsewhere, here, next, pay, perform,
}

-- Approved, whether paid or not.
abbrev pub is_cleared : Option RefundRecord → Bool
is_cleared none = false
is_cleared (some r) = is_approved r.status || is_completed r.status

-- `c` has signed, and is the administrator or the merchant of the payment of the refund `k`.
pub record IsApprover (c : Address) (k : String) (env : Env) (w : World) : Type 0 where
  pub signed : env.authorized c ≡ true
  pub refund : RefundRecord
  pub payment : PaymentOrder
  pub found : get_refund k w ≡ some refund
  pub paid : get_payment refund.order_id w ≡ some payment
  pub open_still : refund.status ≡ RefundStatus.pending
  pub entitled : (get_admin w ≡ some c) ⊎ (c ≡ payment.merchant_address)

-- The history has an approval of the refund `k`, by someone who was entitled to it.
pub data IsApproved {w : World} (k : String) : (w' : World) → Reach w w' → Type 0 where
  granted :
      {u v : World} {r : Reach w u} {c : Address} {j : String} {env : Env}
      {done : perform (Operation.approve c j) env u ≡ ok tt v}
      → j ≡ k
      → IsApprover c j env u
      → IsApproved k v (next r (call (Operation.approve c j) env done))
  earlier :
      {u v : World} {r : Reach w u} {s : Step u v} → IsApproved k u r → IsApproved k v (next r s)

approve_refund-IsApprover :
    (c : Address) (k : String) (env : Env) (w w' : World)
    → approve_refund c k env w ≡ ok tt w'
    → IsApprover c k env w
unfolding approve_refund require_admin_or
approve_refund-IsApprover c k env w w' done = elim (Option-cases (get_refund k w)) [
  | inl unknown ↦ ground arith
  | inr (r, found) ↦ elim (Option-cases (get_payment r.order_id w)) [
    | inl unpaid ↦ ground arith
    | inr (p, paid) ↦ record {
      signed = ground arith;
      refund = r;
      payment = p;
      found = found;
      paid = paid;
      open_still = ground arith;
      entitled = ground arith;
    }
  ]
]

-- A call of another entry point, or for another refund, clears no refund.
initiate_refund-is_cleared :
    (c : Address) (j o : String) (x : ℤ) (reason k : String) (env : Env) (w w' : World)
    → initiate_refund c j o x reason env w ≡ ok tt w'
    → is_cleared (get_refund k w) ≡ false
    → is_cleared (get_refund k w') ≡ false
unfolding initiate_refund
initiate_refund-is_cleared c j o x reason k env w w' done h =
    ground (arith, lookup-put k j (new_refund j o c x reason env.timestamp) w.claims.refunds)

module _ (j k : String) (env : Env) (w w' : World) (h : is_cleared (get_refund k w) ≡ false)
    (inv : IsAccounted w) where
  reject_refund-is_cleared :
      (c : Address) → reject_refund c j env w ≡ ok tt w' → is_cleared (get_refund k w') ≡ false
  unfolding reject_refund
  reject_refund-is_cleared c done = elim (Option-cases (get_refund j w)) [
    | inl unknown ↦ ground arith
    | inr (r, found) ↦
        ground
          (arith, lookup-put k r.refund_id (with_status RefundStatus.rejected r) w.claims.refunds)
  ]

  execute_refund-is_cleared :
      execute_refund j env w ≡ ok tt w' → is_cleared (get_refund k w') ≡ false
  unfolding execute_refund
  execute_refund-is_cleared done = elim (Option-cases (get_refund j w)) [
    | inl unknown ↦ ground arith
    | inr (r, found) ↦
        let here_too = own_id j r w inv found in
        let after =
          lookup-put k r.refund_id (with_status RefundStatus.completed r) w.claims.refunds in
        elim (Bool-cases (r.refund_id == k)) [
          | inl same ↦
              let found_k : get_refund k w ≡ some r =
                subst (λ i. get_refund i w ≡ some r) (==_eq r.refund_id k same) here_too in
              ground (arith, found_k)
          | inr differ ↦ ground (arith, after)
        ]
  ]

  approve_refund-is_cleared :
      (c : Address)
      → (j == k) ≡ false
      → approve_refund c j env w ≡ ok tt w'
      → is_cleared (get_refund k w') ≡ false
  unfolding approve_refund
  approve_refund-is_cleared c other done = elim (Option-cases (get_refund j w)) [
    | inl unknown ↦ ground arith
    | inr (r, found) ↦
        let keyed : r.refund_id ≡ j =
          Entries-lookup _ j r w.claims.refunds inv.refunds_keyed found in
        let after =
          lookup-put k r.refund_id (with_status RefundStatus.approved r) w.claims.refunds in
        let differ : (r.refund_id == k) ≡ false = subst (λ i. (i == k) ≡ false) (sym keyed) other in
        ground (arith, after, differ)
  ]

-- A step that clears a refund is an approval of it.
Clears : {u v : World} → String → Step u v → Type 0
Clears {u} k (call (Operation.approve c j) env done) = (j ≡ k) × IsApprover c j env u
Clears k _ = ⊥

step-Clears :
    {u v : World} (k : String) (s : Step u v)
    → IsAccounted u
    → is_cleared (get_refund k u) ≡ false
    → is_cleared (get_refund k v) ≡ true
    → Clears k s
unfolding Clears perform
step-Clears {u} {v} k (call (Operation.initiate c j o x reason) env done) inv h l =
    ground (arith, initiate_refund-is_cleared c j o x reason k env u v done h)
step-Clears {u} {v} k (call (Operation.reject c j) env done) inv h l =
    ground (arith, reject_refund-is_cleared j k env u v h inv c done)
step-Clears {u} {v} k (call (Operation.execute j) env done) inv h l =
    ground (arith, execute_refund-is_cleared j k env u v h inv done)
step-Clears {u} {v} k (call (Operation.approve c j) env done) inv h l = elim (Bool-cases (j == k)) [
  | inl same ↦ (==_eq j k same, approve_refund-IsApprover c j env u v done)
  | inr differ ↦ ground (arith, approve_refund-is_cleared j k env u v h inv c differ done)
]
step-Clears {u} {v} k (elsewhere refunds payments) inv h l = ground arith
step-Clears {u} {v} k (pay p fresh unrefunded refunds payments) inv h l = ground arith

approves :
    {w u v : World} (k : String) (r : Reach w u) (s : Step u v)
    → Clears k s
    → IsApproved k v (next r s)
unfolding Clears
approves k r (call (Operation.initiate c j o x reason) env done) e = absurd e
approves k r (call (Operation.reject c j) env done) e = absurd e
approves k r (call (Operation.execute j) env done) e = absurd e
approves k r (call (Operation.approve c j) env done) (same, approver) = granted same approver
approves k r (elsewhere refunds payments) e = absurd e
approves k r (pay p fresh unrefunded refunds payments) e = absurd e

-- After any history of requests, approvals, rejections and executions of refunds, with new payments
-- and with changes that touch neither refunds nor payments in between, from a state in which each
-- record stands under its own id and the amounts refunded agree with the completed refunds: a refund
-- that was neither approved nor paid at the start and is approved or paid at the end was approved on
-- the way, while it was pending, by the administrator or by the merchant of its payment, who had
-- signed the approval.
pub Reach-IsApproved :
    {w w' : World} (k : String) (h : Reach w w')
    → IsAccounted w
    → is_cleared (get_refund k w) ≡ false
    → is_cleared (get_refund k w') ≡ true
    → IsApproved k w' h
Reach-IsApproved k here inv fresh cleared = ground arith
Reach-IsApproved {w} k (next {u} {v} r s) inv fresh cleared =
    elim (Bool-cases (is_cleared (get_refund k u))) [
      | inl already ↦ earlier (Reach-IsApproved k r inv fresh already)
      | inr still ↦ approves k r s (step-Clears k s (Reach-IsAccounted inv r) still cleared)
    ]
