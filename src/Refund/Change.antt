-- ===== src/Refund/Change.antt =====
-- What one committed call of a refund entry point does to the refunds and the payments.
use lumenflow_contracts.Action.{ok}
use lumenflow_contracts.Base.{
  Option-cases, String, arith, inl, inr, nat_eq, none, refl, some, string_eq, ◌+◌, ◌≡◌,
}
use lumenflow_contracts.Base.Dict.{put}
use lumenflow_contracts.Base.Int.{ℤ, ◌+ℤ◌}
use lumenflow_contracts.Host.{Env}
use lumenflow_contracts.Refund.Execution.{execute_refund, refund_status}
use lumenflow_contracts.Refund.Lifecycle.{execute_refund_lem}
use lumenflow_contracts.Refund.Requests.{approve_refund, initiate_refund, new_refund, reject_refund}
use lumenflow_contracts.Storage.{World, get_payment, get_refund}
use lumenflow_contracts.Types.{Address, PaymentOrder, RefundRecord, RefundStatus}

-- `p` after a refund of `x`.
abbrev pub refunded : ℤ → PaymentOrder → PaymentOrder
refunded x p = record p {
  refunded_amount = p.refunded_amount +ℤ x;
  status = refund_status p.amount (p.refunded_amount +ℤ x);
  version = p.version + 1;
}

abbrev pub with_status : RefundStatus → RefundRecord → RefundRecord
with_status s r = record r { status = s }

-- The edges of a refund's life: what it is before and after a call.
infix 40 ◌⟶◌
pub data ◌⟶◌ : RefundStatus → RefundStatus → Type 0 where
  approve : RefundStatus.pending ⟶ RefundStatus.approved
  reject : RefundStatus.pending ⟶ RefundStatus.rejected
  execute : RefundStatus.approved ⟶ RefundStatus.completed

-- What a call does to the payments: only an execution changes them.
abbrev pub Pays : RefundRecord → RefundStatus → World → World → Type 0
Pays r RefundStatus.completed w w' =
    (p : PaymentOrder) × (get_payment r.order_id w ≡ some p)
    × (w'.book.payments ≡ put p.order_id (refunded r.amount p) w.book.payments)
Pays r _ w w' = w'.book.payments ≡ w.book.payments

pub data Change (w w' : World) : Type 0 where
  requested :
      (r : RefundRecord)
      → get_refund r.refund_id w ≡ none
      → r.status ≡ RefundStatus.pending
      → w'.claims.refunds ≡ put r.refund_id r w.claims.refunds
      → w'.book.payments ≡ w.book.payments
      → Change w w'
  moved :
      (k : String) (r : RefundRecord) (s : RefundStatus)
      → get_refund k w ≡ some r
      → r.status ⟶ s
      → w'.claims.refunds ≡ put r.refund_id (with_status s r) w.claims.refunds
      → Pays r s w w'
      → Change w w'

pub initiate_refund-Change :
    (c : Address) (k o : String) (x : ℤ) (reason : String) (env : Env) (w w' : World)
    → initiate_refund c k o x reason env w ≡ ok tt w'
    → Change w w'
unfolding initiate_refund
initiate_refund-Change c k o x reason env w w' done =
    requested (new_refund k o c x reason env.timestamp) (ground arith) refl (ground arith)
      (ground arith)

pub approve_refund-Change :
    (c : Address) (k : String) (env : Env) (w w' : World)
    → approve_refund c k env w ≡ ok tt w'
    → Change w w'
unfolding approve_refund
approve_refund-Change c k env w w' done = elim (Option-cases (get_refund k w)) [
  | inl unknown ↦ ground arith
  | inr (r, found) ↦
      let open_still : r.status ≡ RefundStatus.pending = ground arith in
      moved k r RefundStatus.approved found (rw open_still approve) (ground arith) (ground arith)
]

pub reject_refund-Change :
    (c : Address) (k : String) (env : Env) (w w' : World)
    → reject_refund c k env w ≡ ok tt w'
    → Change w w'
unfolding reject_refund
reject_refund-Change c k env w w' done = elim (Option-cases (get_refund k w)) [
  | inl unknown ↦ ground arith
  | inr (r, found) ↦
      let open_still : r.status ≡ RefundStatus.pending = ground arith in
      moved k r RefundStatus.rejected found (rw open_still reject) (ground arith) (ground arith)
]

pub execute_refund-Change :
    (k : String) (env : Env) (w w' : World) → execute_refund k env w ≡ ok tt w' → Change w w'
unfolding execute_refund
execute_refund-Change k env w w' done = elim (Option-cases (get_refund k w)) [
  | inl unknown ↦ ground arith
  | inr (r, found) ↦ elim (Option-cases (get_payment r.order_id w)) [
    | inl unpaid ↦ ground arith
    | inr (p, paid) ↦
        let (approved, _, refunds, payments, _) =
          execute_refund_lem k env w w' r p found paid done in
        moved k r RefundStatus.completed found (rw approved execute) refunds (p, paid, payments)
  ]
]
