-- ===== src/Payment/SignedChecks.antt =====
-- What a signed payment was checked for, and how it is settled.
use lumenflow_contracts.Action.{left_by, ok, saturating_add_u64}
use lumenflow_contracts.Base.{
  List, Option, Option-cases, String, ap, arith, inl, inr, nat_eq, none, refl, some, string_eq,
  true, unwrap_or, ℕ, ◌*◌, ◌++◌, ◌+◌, ◌/◌, ◌<◌, ◌∙◌, ◌≡◌, ◌≤◌,
}
use lumenflow_contracts.Base.Dict.{lookup-put_self}
use lumenflow_contracts.Base.Int.{pos, ℤ, ◌-ℤ◌}
use lumenflow_contracts.Host.{Env}
use lumenflow_contracts.Payment.Fees.{pay_out, platform_fee-eq, transfers}
use lumenflow_contracts.Payment.Index.{new_payment}
use lumenflow_contracts.Payment.Processing.{
  current_window_start, get_rate_limit_counter, increment_merchant_nonce,
  increment_rate_limit_counter, process_payment_with_signature, settle_signed, signed_payload,
  verify_signature,
}
use lumenflow_contracts.Payment.Replay.{book_payment_lem, pay_out_lem}
use lumenflow_contracts.Storage.{
  World, get_fee_recipient, get_merchant, get_merchant_nonce, get_payment, get_platform_fee_bps,
  get_rate_limit_per_window, get_signature_expiry_window, is_token_allowed,
}
use lumenflow_contracts.Types.{Address, Bytes, Merchant}

pub increment_merchant_nonce_lem :
    (m : Address) (w : World)
    → (get_merchant_nonce m (increment_merchant_nonce m w)
        ≡ saturating_add_u64 (get_merchant_nonce m w) 1)
      × ((increment_merchant_nonce m w).calls ≡ w.calls)
      × ((increment_merchant_nonce m w).config ≡ w.config)
unfolding increment_merchant_nonce
increment_merchant_nonce_lem m w = (
  ap (unwrap_or 0)
      (lookup-put_self m (saturating_add_u64 (get_merchant_nonce m w) 1) w.book.merchant_nonces),
  refl,
  refl,
)

pub increment_rate_limit_counter_lem :
    (m : Address) (start : ℕ) (env : Env) (w w' : World)
    → increment_rate_limit_counter m start env w ≡ ok tt w'
    → (w'.book.merchant_nonces ≡ w.book.merchant_nonces)
      × (w'.calls ≡ w.calls)
      × (w'.config ≡ w.config)
unfolding increment_rate_limit_counter
increment_rate_limit_counter_lem m start env w w' done = (ground arith, ground arith, ground arith)

pub settle_signed_lem :
    (payer merchant token : Address) (k memo : String) (n : ℕ) (tags : Option (List String))
    (m : Merchant) (env : Env) (w w' : World) (fee : ℤ)
    → fee ≡ pos (n * get_platform_fee_bps w / 10_000)
    → settle_signed payer k merchant token (pos n) memo tags m env w ≡ ok tt w'
    → (get_payment k w'
        ≡ some (new_payment k merchant payer token (pos n) env.timestamp memo tags fee))
      × (w'.book.merchant_nonces ≡ w.book.merchant_nonces)
      × (w'.calls
          ≡ transfers token payer merchant (pos n -ℤ fee) fee (get_fee_recipient w) ++ w.calls)
unfolding settle_signed
settle_signed_lem payer merchant token k memo n tags m env w w' fee share done =
    let charge = platform_fee-eq n (get_platform_fee_bps w) env w in
    let p = new_payment k merchant payer token (pos n) env.timestamp memo tags fee in
    let u = left_by w (pay_out token payer merchant (pos n -ℤ fee) fee env w) in
    let paid : pay_out token payer merchant (pos n -ℤ fee) fee env w ≡ ok tt u =
      ground (arith, charge) in
    let out = pay_out_lem token payer merchant (pos n -ℤ fee) fee env w u paid in
    let booked = book_payment_lem p m (pos n -ℤ fee) env u w' (ground (arith, charge, paid)) in
    (booked.0, booked.3 ∙ ap (λ b. b.merchant_nonces) out.0, booked.2 ∙ out.1)

-- What a signed payment was checked for, and the state in which it is settled.
pub record IsChecked (payer merchant token : Address) (k : String) (amount : ℤ)
    (nonce timestamp : ℕ) (signature key : Bytes) (env : Env) (w : World) (m : Merchant)
    : Type 0 where
  pub signed : env.authorized payer ≡ true
  pub next : nonce ≡ saturating_add_u64 (get_merchant_nonce merchant w) 1
  pub recent : env.timestamp ≤ timestamp + get_signature_expiry_window w
  pub verified :
      env.ed25519_verify key (signed_payload nonce k amount timestamp env) signature ≡ true
  pub allowed : is_token_allowed token w ≡ true
  pub known : get_merchant merchant w ≡ some m
  pub is_active : m.active ≡ true
  pub within :
      get_rate_limit_counter merchant (current_window_start env) w < get_rate_limit_per_window w
  pub fresh : get_payment k w ≡ none

pub known_merchant :
    (payer merchant token : Address) (k memo : String) (amount : ℤ) (tags : Option (List String))
    (nonce timestamp : ℕ) (signature key : Bytes) (env : Env) (w w' : World)
    → process_payment_with_signature payer k merchant token amount memo tags nonce timestamp
        signature key env w
      ≡ ok tt w'
    → (m : Merchant) × (get_merchant merchant w ≡ some m)
unfolding process_payment_with_signature
known_merchant payer merchant token k memo amount tags nonce timestamp signature key env w w' done =
    elim (Option-cases (get_merchant merchant w)) [ inl unknown ↦ ground arith | inr found ↦ found ]

pub process_payment_with_signature-IsChecked :
    (payer merchant token : Address) (k memo : String) (amount : ℤ) (tags : Option (List String))
    (nonce timestamp : ℕ) (signature key : Bytes) (env : Env) (w w' : World) (m : Merchant)
    → get_merchant merchant w ≡ some m
    → process_payment_with_signature payer k merchant token amount memo tags nonce timestamp
        signature key env w
      ≡ ok tt w'
    → let w1 = increment_merchant_nonce merchant w in
      let counted = increment_rate_limit_counter merchant (current_window_start env) env w1 in
      IsChecked payer merchant token k amount nonce timestamp signature key env w m
      × (counted ≡ ok tt (left_by w1 counted))
      × (settle_signed payer k merchant token amount memo tags m env (left_by w1 counted)
          ≡ ok tt w')
unfolding process_payment_with_signature increment_merchant_nonce verify_signature
process_payment_with_signature-IsChecked payer merchant token k memo amount tags nonce timestamp
      signature key env w w' m known done =
    (
      record {
        signed = ground arith;
        next = ground arith;
        recent = ground arith;
        verified = ground arith;
        allowed = ground arith;
        known = known;
        is_active = ground arith;
        within = ground arith;
        fresh = ground arith;
      },
      ground arith,
      ground arith,
    )
