-- ===== src/Refund/Accounts.antt =====
-- The books of the refunds: what a payment has refunded is what its completed refunds come to.
use lumenflow_contracts.Base.{
  ==_eq, Bool, Bool-cases, Option, String, false, if◌then◌else◌, inl, inr, nat_eq, none, refl, some,
  string_eq, sym, true, ◌&&◌, ◌==◌, ◌≡◌, subst, ◌∙◌,
}
use lumenflow_contracts.Base.Dict.{
  Entries, Entries-lookup, lookup, lookup-put, put, put-Entries, total, total-put, total-put_new,
}
use lumenflow_contracts.Base.Int.{int_laws, pos, ℤ, ◌+ℤ◌}
use lumenflow_contracts.Action.{ok}
use lumenflow_contracts.Host.{Env}
use lumenflow_contracts.Refund.Change.{
  Change, approve, approve_refund-Change, execute, execute_refund-Change, initiate_refund-Change,
  moved, refunded, reject, reject_refund-Change, requested, with_status, ◌⟶◌,
}
use lumenflow_contracts.Refund.History.{
  Operation, Reach, Step, call, elsewhere, here, next, pay, perform,
}
use lumenflow_contracts.Storage.{World, get_payment, get_refund}
use lumenflow_contracts.Types.{PaymentOrder, RefundRecord, RefundStatus}

abbrev pub is_completed : RefundStatus → Bool
is_completed RefundStatus.completed = true
is_completed _ = false

-- What a refund adds to the amount that the payment `o` has refunded.
abbrev pub paid_back : String → RefundRecord → ℤ
paid_back o r = if is_completed r.status && r.order_id == o then r.amount else pos 0

abbrev pub refunded_of : Option PaymentOrder → ℤ
refunded_of none = pos 0
refunded_of (some p) = p.refunded_amount

-- Each record stands under its own id, and each payment has refunded the sum of its completed
-- refunds; an order that has no payment has no completed refunds.
pub record IsAccounted (w : World) : Type 0 where
  pub refunds_keyed : Entries (λ k r. r.refund_id ≡ k) w.claims.refunds
  pub payments_keyed : Entries (λ k p. p.order_id ≡ k) w.book.payments
  pub accounted :
      (o : String) → refunded_of (get_payment o w) ≡ total (paid_back o) w.claims.refunds

-- A record is found under its own id.
pub own_id :
    (k : String) (r : RefundRecord) (w : World)
    → IsAccounted w
    → get_refund k w ≡ some r
    → get_refund r.refund_id w ≡ some r
own_id k r w inv found =
    let keyed : r.refund_id ≡ k = Entries-lookup _ k r w.claims.refunds inv.refunds_keyed found in
    subst (λ j. get_refund j w ≡ some r) (sym keyed) found

requested-IsAccounted :
    (r : RefundRecord) (w w' : World)
    → IsAccounted w
    → get_refund r.refund_id w ≡ none
    → r.status ≡ RefundStatus.pending
    → w'.claims.refunds ≡ put r.refund_id r w.claims.refunds
    → w'.book.payments ≡ w.book.payments
    → IsAccounted w'
requested-IsAccounted r w w' inv fresh pending refunds payments = record {
  refunds_keyed = rw refunds (put-Entries _ r.refund_id r w.claims.refunds refl inv.refunds_keyed);
  payments_keyed = rw payments inv.payments_keyed;
  accounted = λ o.
      let added = total-put_new (paid_back o) r.refund_id r w.claims.refunds fresh in
      rw payments (rw refunds (grind (int_laws, added, inv.accounted o, pending)));
}

-- A change of status that does not complete the refund.
decided-IsAccounted :
    (k : String) (r : RefundRecord) (s : RefundStatus) (w w' : World)
    → IsAccounted w
    → get_refund k w ≡ some r
    → is_completed r.status ≡ false
    → is_completed s ≡ false
    → w'.claims.refunds ≡ put r.refund_id (with_status s r) w.claims.refunds
    → w'.book.payments ≡ w.book.payments
    → IsAccounted w'
decided-IsAccounted k r s w w' inv found before after refunds payments = record {
  refunds_keyed =
      rw refunds
        (put-Entries _ r.refund_id (with_status s r) w.claims.refunds refl inv.refunds_keyed);
  payments_keyed = rw payments inv.payments_keyed;
  accounted = λ o.
      let moved =
        total-put (paid_back o) r.refund_id (with_status s r) r w.claims.refunds
          (own_id k r w inv found) in
      rw payments (rw refunds (grind (int_laws, moved, inv.accounted o, before, after)));
}

-- What the payment of an order has refunded after a refund of `p`.
refunded_of-put :
    (o : String) (x : ℤ) (p : PaymentOrder) (w : World)
    → lookup p.order_id w.book.payments ≡ some p
    → refunded_of (lookup o (put p.order_id (refunded x p) w.book.payments))
      ≡ refunded_of (lookup o w.book.payments) +ℤ (if p.order_id == o then x else pos 0)
refunded_of-put o x p w found = elim (Bool-cases (p.order_id == o)) [
  | inl same ↦
      let key : p.order_id ≡ o = ==_eq p.order_id o same in
      let put_here = lookup-put o p.order_id (refunded x p) w.book.payments in
      let found_here : lookup o w.book.payments ≡ some p = rw (sym key) found in
      rw put_here (rw same (rw found_here refl))
  | inr other ↦
      let put_there = lookup-put o p.order_id (refunded x p) w.book.payments in
      rw put_there (rw other (omega int_laws))
]

executed-IsAccounted :
    (k : String) (r : RefundRecord) (p : PaymentOrder) (w w' : World)
    → IsAccounted w
    → get_refund k w ≡ some r
    → r.status ≡ RefundStatus.approved
    → get_payment r.order_id w ≡ some p
    → w'.claims.refunds ≡ put r.refund_id (with_status RefundStatus.completed r) w.claims.refunds
    → w'.book.payments ≡ put p.order_id (refunded r.amount p) w.book.payments
    → IsAccounted w'
executed-IsAccounted k r p w w' inv found approved paid refunds payments =
    let done = with_status RefundStatus.completed r in
    let order : p.order_id ≡ r.order_id =
      Entries-lookup _ r.order_id p w.book.payments inv.payments_keyed paid in
    record {
      refunds_keyed =
          rw refunds (put-Entries _ r.refund_id done w.claims.refunds refl inv.refunds_keyed);
      payments_keyed =
          rw payments (
            put-Entries _ p.order_id (refunded r.amount p) w.book.payments refl inv.payments_keyed);
      accounted = λ o.
          let counted =
            total-put (paid_back o) r.refund_id done r w.claims.refunds (own_id k r w inv found) in
          let added =
            refunded_of-put o r.amount p w
              (subst (λ o. get_payment o w ≡ some p) (sym order) paid) in
          rw payments
            (rw refunds (grind (int_laws, counted, added, inv.accounted o, approved, order)));
    }

completed_from : (s : RefundStatus) → s ⟶ RefundStatus.completed → s ≡ RefundStatus.approved
completed_from s execute = refl

source_open : (s t : RefundStatus) → s ⟶ t → is_completed s ≡ false
source_open s t approve = refl
source_open s t reject = refl
source_open s t execute = refl

Change-IsAccounted : {w w' : World} → IsAccounted w → Change w w' → IsAccounted w'
Change-IsAccounted {w} {w'} inv (requested r fresh pending refunds payments) =
    requested-IsAccounted r w w' inv fresh pending refunds payments
Change-IsAccounted {w} {w'} inv
      (moved k r RefundStatus.completed found edge refunds (p, paid, payments)) =
    executed-IsAccounted k r p w w' inv found (completed_from r.status edge) paid refunds payments
Change-IsAccounted {w} {w'} inv (moved k r RefundStatus.approved found edge refunds payments) =
    decided-IsAccounted k r RefundStatus.approved w w' inv found (source_open r.status _ edge) refl
      refunds payments
Change-IsAccounted {w} {w'} inv (moved k r RefundStatus.rejected found edge refunds payments) =
    decided-IsAccounted k r RefundStatus.rejected w w' inv found (source_open r.status _ edge) refl
      refunds payments
Change-IsAccounted {w} {w'} inv (moved k r RefundStatus.pending found edge refunds payments) =
    decided-IsAccounted k r RefundStatus.pending w w' inv found (source_open r.status _ edge) refl
      refunds payments

perform-Change :
    (op : Operation) (env : Env) (w w' : World) → perform op env w ≡ ok tt w' → Change w w'
unfolding perform
perform-Change (Operation.initiate c k o x reason) env w w' =
    initiate_refund-Change c k o x reason env w w'
perform-Change (Operation.approve c k) env w w' = approve_refund-Change c k env w w'
perform-Change (Operation.reject c k) env w w' = reject_refund-Change c k env w w'
perform-Change (Operation.execute k) env w w' = execute_refund-Change k env w w'

pay-IsAccounted :
    (p : PaymentOrder) (w w' : World)
    → IsAccounted w
    → get_payment p.order_id w ≡ none
    → p.refunded_amount ≡ pos 0
    → w'.claims.refunds ≡ w.claims.refunds
    → w'.book.payments ≡ put p.order_id p w.book.payments
    → IsAccounted w'
pay-IsAccounted p w w' inv fresh unrefunded refunds payments = record {
  refunds_keyed = rw refunds inv.refunds_keyed;
  payments_keyed = rw payments (put-Entries _ p.order_id p w.book.payments refl inv.payments_keyed);
  accounted = λ o.
      let added = lookup-put o p.order_id p w.book.payments in
      elim (Bool-cases (p.order_id == o)) [
        | inl same ↦
            let key : p.order_id ≡ o = ==_eq p.order_id o same in
            let none_there : get_payment o w ≡ none = rw (sym key) fresh in
            let nothing : pos 0 ≡ total (paid_back o) w.claims.refunds =
              rw none_there at (inv.accounted o) in
            rw payments (rw refunds (rw added (rw same (unrefunded ∙ nothing))))
        | inr other ↦ rw payments (rw refunds (rw added (rw other (inv.accounted o))))
      ];
}

Step-IsAccounted : {w w' : World} → IsAccounted w → Step w w' → IsAccounted w'
Step-IsAccounted {w} {w'} inv (call op env done) =
    Change-IsAccounted inv (perform-Change op env w w' done)
Step-IsAccounted {w} {w'} inv (elsewhere refunds payments) = record {
  refunds_keyed = rw refunds inv.refunds_keyed;
  payments_keyed = rw payments inv.payments_keyed;
  accounted = λ o. rw payments (rw refunds (inv.accounted o));
}
Step-IsAccounted {w} {w'} inv (pay p fresh unrefunded refunds payments) =
    pay-IsAccounted p w w' inv fresh unrefunded refunds payments

-- After any history of requests, approvals, rejections and executions of refunds, with new payments
-- and with changes that touch neither refunds nor payments in between, the amount that each payment
-- has refunded is the sum of the amounts of its completed refunds, each record stands under its own
-- id, and an order without a payment has no completed refunds, if all this was so before.
pub Reach-IsAccounted : {w w' : World} → IsAccounted w → Reach w w' → IsAccounted w'
Reach-IsAccounted inv here = inv
Reach-IsAccounted inv (next r s) = Step-IsAccounted (Reach-IsAccounted inv r) s
