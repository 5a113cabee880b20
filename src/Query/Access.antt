-- ===== src/Query/Access.antt =====
-- Who can read one record.
use lumenflow_contracts.Action.{ok}
use lumenflow_contracts.Base.{
  Bool-cases, List, Option-cases, String, arith, contains, eqb, false, inl, inr, nat_eq, some,
  string_eq, subst, true, ◌↔◌, ◌≡◌, ◌⊎◌,
}
use lumenflow_contracts.Host.{Env}
use lumenflow_contracts.Query.Getters.{
  get_multisig_payment, get_payment_by_id, get_refunds_for_order, load_refunds, may_not_read,
}
use lumenflow_contracts.Storage.{World, get_admin, get_multisig, get_order_refund_ids, get_payment}
use lumenflow_contracts.Types.{Address, MultisigPayment, PaymentOrder, RefundRecord}
use lumenflow_contracts.Storage
use lumenflow_contracts.Query.Getters
use lumenflow_contracts.Guards.{is_address}

abbrev pub IsAdmin : World → Address → Type 0
IsAdmin w c = get_admin w ≡ some c

-- A party of the payment, or the administrator.
abbrev pub MayReadPayment : World → Address → PaymentOrder → Type 0
MayReadPayment w c p = IsAdmin w c ⊎ (c ≡ p.payer) ⊎ (c ≡ p.merchant_address)

-- The one who asked for the refund, a party of its payment, or the administrator.
abbrev pub MayReadRefund : World → Address → RefundRecord → Type 0
MayReadRefund w c r =
    IsAdmin w c
    ⊎ (c ≡ r.initiator)
    ⊎ ((p : PaymentOrder) × (get_payment r.order_id w ≡ some p)
        × ((c ≡ p.payer) ⊎ (c ≡ p.merchant_address)))

-- The initiator, a signer or the merchant, or the administrator.
abbrev pub MayReadMultisig : World → Address → MultisigPayment → Type 0
MayReadMultisig w c m =
    IsAdmin w c ⊎ (c ≡ m.initiator) ⊎ (contains m.signers c ≡ true) ⊎ (c ≡ m.merchant_address)

get_payment_by_id_lem :
    (c : Address) (k : String) (env : Env) (w w' : World) (p : PaymentOrder)
    → (get_payment_by_id c k env w ≡ ok p w')
      ↔ ((env.authorized c ≡ true) × (get_payment k w ≡ some p) × MayReadPayment w c p × (w' ≡ w))
unfolding get_payment_by_id
get_payment_by_id_lem c k env w w' p = (
  λ h. (ground arith, ground arith, ground arith, ground arith),
  λ (signed, found, may, same). ground arith,
)

get_refunds_for_order_lem :
    (c : Address) (k : String) (env : Env) (w w' : World) (rs : List RefundRecord)
    → (get_refunds_for_order c k env w ≡ ok rs w') ↔ (
        (env.authorized c ≡ true)
        × ((p : PaymentOrder) × (get_payment k w ≡ some p) × MayReadPayment w c p)
        × (rs ≡ load_refunds (get_order_refund_ids k w) w)
        × (w' ≡ w))
unfolding get_refunds_for_order
get_refunds_for_order_lem c k env w w' rs = elim (Option-cases (get_payment k w)) [
  | inl missing ↦ (λ h. ground arith, λ (signed, (p, found, may), value, same). ground arith)
  | inr (p, found) ↦ (
    λ h. (ground arith, (p, found, ground arith), ground arith, ground arith),
    λ (signed, (q, found', may), value, same).
        let own : q ≡ p = ground arith in
        let may_p : MayReadPayment w c p = subst (MayReadPayment w c) own may in ground arith,
  )
]

readers :
    (w : World) (c : Address) (r : RefundRecord) (p : PaymentOrder)
    → get_payment r.order_id w ≡ some p
    → may_not_read c r w ≡ false
    → MayReadRefund w c r
readers w c r p paid h = elim (Bool-cases (eqb c r.initiator)) [
  | inl own ↦ inr (inl (ground arith))
  | inr other ↦ elim (Bool-cases (is_address (get_admin w) c)) [
    | inl is_admin ↦ inl (ground arith)
    | inr ordinary ↦ inr (inr (p, paid, ground arith))
  ]
]

may_read_refund :
    (w : World) (c : Address) (r : RefundRecord) → MayReadRefund w c r → may_not_read c r w ≡ false
may_read_refund w c r (inl is_admin) = ground arith
may_read_refund w c r (inr (inl own)) = ground arith
may_read_refund w c r (inr (inr (p, paid, party))) = ground arith

may_not_read-MayReadRefund :
    (w : World) (c : Address) (r : RefundRecord)
    → (may_not_read c r w ≡ false) ↔ MayReadRefund w c r
may_not_read-MayReadRefund w c r = elim (Option-cases (get_payment r.order_id w)) [
  | inl missing ↦ (
    λ h. elim (Bool-cases (eqb c r.initiator)) [
      | inl own ↦ inr (inl (ground arith))
      | inr other ↦ inl (ground arith)
    ],
    may_read_refund w c r,
  )
  | inr (p, paid) ↦ (λ h. readers w c r p paid h, may_read_refund w c r)
]

get_refund_lem :
    (c : Address) (k : String) (env : Env) (w w' : World) (r : RefundRecord)
    → (Getters.get_refund c k env w ≡ ok r w') ↔ (
        (env.authorized c ≡ true)
        × (Storage.get_refund k w ≡ some r)
        × MayReadRefund w c r
        × (w' ≡ w))
unfolding Getters.get_refund
get_refund_lem c k env w w' r =
    let may = may_not_read-MayReadRefund w c r in
    (
      λ h. (ground arith, ground arith, may.0 (ground arith), ground arith),
      λ (signed, found, reader, same). ground (arith, may.1 reader),
    )

get_multisig_payment_lem :
    (c : Address) (k : String) (env : Env) (w w' : World) (m : MultisigPayment)
    → (get_multisig_payment c k env w ≡ ok m w')
      ↔ ((env.authorized c ≡ true) × (get_multisig k w ≡ some m) × MayReadMultisig w c m × (w' ≡ w))
unfolding get_multisig_payment
get_multisig_payment_lem c k env w w' m = (
  λ h. (ground arith, ground arith, ground arith, ground arith),
  λ (signed, found, may, same). ground arith,
)

-- The getters of a payment, of its refunds, of one refund and of a multi-signature payment return
-- the record that is stored, leave the state as it is, and do so exactly for a caller who has signed
-- and is entitled to it: the administrator; for a payment and its refunds, the payer and the
-- merchant; for one refund, also whoever asked for it; for a multi-signature payment, its initiator,
-- its signers and its merchant.
pub readers_lem :
    (c : Address) (k : String) (env : Env) (w w' : World) (p : PaymentOrder)
    (rs : List RefundRecord) (r : RefundRecord) (m : MultisigPayment)
    → ((get_payment_by_id c k env w ≡ ok p w') ↔ (
        (env.authorized c ≡ true) × (get_payment k w ≡ some p) × MayReadPayment w c p × (w' ≡ w)))
      × ((get_refunds_for_order c k env w ≡ ok rs w') ↔ (
          (env.authorized c ≡ true)
          × ((q : PaymentOrder) × (get_payment k w ≡ some q) × MayReadPayment w c q)
          × (rs ≡ load_refunds (get_order_refund_ids k w) w)
          × (w' ≡ w)))
      × ((Getters.get_refund c k env w ≡ ok r w') ↔ (
          (env.authorized c ≡ true)
          × (Storage.get_refund k w ≡ some r)
          × MayReadRefund w c r
          × (w' ≡ w)))
      × ((get_multisig_payment c k env w ≡ ok m w') ↔ (
          (env.authorized c ≡ true)
          × (get_multisig k w ≡ some m)
          × MayReadMultisig w c m
          × (w' ≡ w)))
readers_lem c k env w w' p rs r m = (
  get_payment_by_id_lem c k env w w' p,
  get_refunds_for_order_lem c k env w w' rs,
  get_refund_lem c k env w w' r,
  get_multisig_payment_lem c k env w w' m,
)
