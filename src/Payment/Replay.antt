-- ===== src/Payment/Replay.antt =====
-- What a payment does, and that it cannot be made twice.
use lumenflow_contracts.Base.{
  Option-cases, inl, inr, ◌∙◌, ap, refl, unwrap_or, eqb, false, some, ◌*◌, ◌++◌, ◌/◌, ◌<◌, arith,
  List, Option, String, nat_eq, none, string_eq, true, ℕ, ◌≡◌,
}
use lumenflow_contracts.Action.{left_by, is_ok, u64_max, ok, saturating_add_u64}
use lumenflow_contracts.Base.Dict.{lookup, lookup-put_self}
use lumenflow_contracts.Payment.Index.{add_merchant_payment_id, add_payer_payment_id, new_payment}
use lumenflow_contracts.Payment.Processing.{
  tally_payment, book_payment, increment_nonce, process_payment_with_nonce,
}
use lumenflow_contracts.Storage.{
  set_payment, get_fee_recipient, get_merchant, get_platform_fee_bps, World, get_nonce, get_payment,
  is_token_allowed,
}
use lumenflow_contracts.Escrow.Solvency.{net}
use lumenflow_contracts.Payment.Fees.{pay_out, platform_fee-eq, transfers}
use lumenflow_contracts.Types.{Merchant, PaymentOrder, Address}
use lumenflow_contracts.Base.Int.{◌-ℤ◌, pos, ℤ}
use lumenflow_contracts.Host.{Env}
use mathlib.Core.Option

increment_nonce_lem :
    (payer : Address) (w : World)
    → (get_nonce payer (increment_nonce payer w) ≡ saturating_add_u64 (get_nonce payer w) 1)
      × ((increment_nonce payer w).book.payments ≡ w.book.payments)
      × ((increment_nonce payer w).calls ≡ w.calls)
      × ((increment_nonce payer w).config ≡ w.config)
unfolding increment_nonce
increment_nonce_lem payer w = (
  ap (unwrap_or 0) (lookup-put_self payer (saturating_add_u64 (get_nonce payer w) 1) w.book.nonces),
  refl,
  refl,
  refl,
)

pub pay_out_lem :
    (token payer merchant : Address) (net fee : ℤ) (env : Env) (w w' : World)
    → pay_out token payer merchant net fee env w ≡ ok tt w'
    → (w'.book ≡ w.book)
      × (w'.calls ≡ transfers token payer merchant net fee (get_fee_recipient w) ++ w.calls)
unfolding pay_out
pay_out_lem token payer merchant net fee env w w' done = (ground arith, ground arith)

-- What the steps after the record leave as it is.
abbrev pub Keeps : World → World → Type 0
Keeps w w' =
    (w'.book.payments ≡ w.book.payments)
    × (w'.book.nonces ≡ w.book.nonces)
    × (w'.calls ≡ w.calls)
    × (w'.book.merchant_nonces ≡ w.book.merchant_nonces)

pub add_merchant_payment_id-Keeps :
    (m : Address) (k : String) (env : Env) (w w' : World)
    → add_merchant_payment_id m k env w ≡ ok tt w'
    → Keeps w w'
unfolding add_merchant_payment_id
add_merchant_payment_id-Keeps m k env w w' done =
    (ground arith, ground arith, ground arith, ground arith)

pub add_payer_payment_id-Keeps :
    (m : Address) (k : String) (env : Env) (w w' : World)
    → add_payer_payment_id m k env w ≡ ok tt w'
    → Keeps w w'
unfolding add_payer_payment_id
add_payer_payment_id-Keeps m k env w w' done =
    (ground arith, ground arith, ground arith, ground arith)

tally_payment-Keeps :
    (p : PaymentOrder) (m : Merchant) (received : ℤ) (env : Env) (w w' : World)
    → tally_payment p m received env w ≡ ok tt w'
    → Keeps w w'
unfolding tally_payment
tally_payment-Keeps p m received env w w' done =
    (ground arith, ground arith, ground arith, ground arith)

pub book_payment_lem :
    (p : PaymentOrder) (m : Merchant) (received : ℤ) (env : Env) (w w' : World)
    → book_payment p m received env w ≡ ok tt w'
    → (get_payment p.order_id w' ≡ some p)
      × (w'.book.nonces ≡ w.book.nonces)
      × (w'.calls ≡ w.calls)
      × (w'.book.merchant_nonces ≡ w.book.merchant_nonces)
unfolding book_payment
book_payment_lem p m received env w w' done =
    let w1 = set_payment p w in
    let w2 = left_by w (add_merchant_payment_id p.merchant_address p.order_id env w1) in
    let w3 = left_by w (add_payer_payment_id p.payer p.order_id env w2) in
    let one =
      add_merchant_payment_id-Keeps p.merchant_address p.order_id env w1 w2 (ground arith) in
    let two = add_payer_payment_id-Keeps p.payer p.order_id env w2 w3 (ground arith) in
    let three = tally_payment-Keeps p m received env w3 w' (ground arith) in
    (
      ap (lookup p.order_id) (three.0 ∙ two.0 ∙ one.0)
          ∙ lookup-put_self p.order_id p w.book.payments,
      three.1 ∙ two.1 ∙ one.1,
      three.2 ∙ two.2 ∙ one.2,
      three.3 ∙ two.3 ∙ one.3,
    )

-- A payment that goes through is signed by the payer, has the payer's current nonce, which it
-- spends, an allowed token, an active merchant and an order id without a payment. It moves the
-- amount less the fee to the merchant, and the fee, the amount's share rounded down, to its
-- recipient if there is one and the fee is positive, and it is recorded.
pub process_payment_with_nonce_lem :
    (payer merchant token : Address) (k memo : String) (n : ℕ) (tags : Option (List String))
    (nonce : ℕ) (env : Env) (w w' : World) (fee : ℤ)
    → fee ≡ pos (n * get_platform_fee_bps w / 10_000)
    → process_payment_with_nonce payer k merchant token (pos n) memo tags nonce env w ≡ ok tt w'
    → (env.authorized payer ≡ true)
      × (nonce ≡ get_nonce payer w)
      × (get_nonce payer w' ≡ saturating_add_u64 (get_nonce payer w) 1)
      × (is_token_allowed token w ≡ true)
      × (Option.map (λ m. m.active) (get_merchant merchant w) ≡ some true)
      × (get_payment k w ≡ none)
      × (get_payment k w'
          ≡ some (new_payment k merchant payer token (pos n) env.timestamp memo tags fee))
      × (w'.calls
          ≡ transfers token payer merchant (pos n -ℤ fee) fee (get_fee_recipient w) ++ w.calls)
unfolding process_payment_with_nonce increment_nonce
process_payment_with_nonce_lem payer merchant token k memo n tags nonce env w w' fee share done =
    let charge = platform_fee-eq n (get_platform_fee_bps w) env (increment_nonce payer w) in
    let spent = increment_nonce_lem payer w in
    let p = new_payment k merchant payer token (pos n) env.timestamp memo tags fee in
    let w1 = increment_nonce payer w in
    let u = left_by w (pay_out token payer merchant (pos n -ℤ fee) fee env w1) in
    let paid : pay_out token payer merchant (pos n -ℤ fee) fee env w1 ≡ ok tt u =
      ground (arith, charge, spent.3) in
    let out = pay_out_lem token payer merchant (pos n -ℤ fee) fee env w1 u paid in
    let booked : (get_payment k w' ≡ some p)
        × (w'.book.nonces ≡ u.book.nonces)
        × (w'.calls ≡ u.calls)
        × (w'.book.merchant_nonces ≡ u.book.merchant_nonces) =
      elim (Option-cases (get_merchant merchant w)) [
        | inl unknown ↦ (ground arith, ground arith, ground arith, ground arith)
        | inr (m, known) ↦
            book_payment_lem p m (pos n) env u w' (ground (arith, charge, spent.3, paid))
      ] in
    (
      ground arith,
      ground arith,
      ap (λ d. unwrap_or 0 (lookup payer d)) (booked.1 ∙ ap (λ b. b.nonces) out.0) ∙ spent.0,
      ground arith,
      ground arith,
      ground arith,
      booked.0,
      booked.2
          ∙ out.1
          ∙ ap (λ c. transfers token payer merchant (pos n -ℤ fee) fee (c.fee_recipient) ++ w.calls)
              spent.3,
    )

refused_nonce :
    (payer merchant token : Address) (k memo : String) (amount : ℤ) (tags : Option (List String))
    (nonce : ℕ) (env : Env) (w : World)
    → eqb nonce (get_nonce payer w) ≡ false
    → is_ok (process_payment_with_nonce payer k merchant token amount memo tags nonce env w) ≡ false
unfolding process_payment_with_nonce
refused_nonce payer merchant token k memo amount tags nonce env w differs = ground arith

-- After a payment of an amount that is not negative, no payment of the same payer with the same
-- nonce goes through in the state that it leaves, whatever its order, merchant, token and amount,
-- if the nonce is not the last that the type has.
pub nonce_spent :
    (payer merchant merchant' token token' : Address) (k k' memo memo' : String) (n : ℕ)
    (amount' : ℤ) (tags tags' : Option (List String)) (nonce : ℕ) (env later : Env) (w w' : World)
    → nonce < u64_max
    → process_payment_with_nonce payer k merchant token (pos n) memo tags nonce env w ≡ ok tt w'
    → is_ok
        (process_payment_with_nonce payer k' merchant' token' amount' memo' tags' nonce later w')
      ≡ false
unfolding process_payment_with_nonce
nonce_spent payer merchant merchant' token token' k k' memo memo' n amount' tags tags' nonce env
      later w w' small done =
    let one =
      process_payment_with_nonce_lem payer merchant token k memo n tags nonce env w w' _ refl
        done in
    let differs : eqb nonce (get_nonce payer w') ≡ false = ground (arith, one.1, one.2) in
    refused_nonce payer merchant' token' k' memo' amount' tags' nonce later w' differs
