-- ===== src/Payment/Signed.antt =====
-- A payment that its merchant has signed, and that the signature cannot be used again.
use lumenflow_contracts.Base.{
  eqb, false, List, Option, String, ap, arith, nat_eq, none, refl, some, string_eq, sym, true,
  unwrap_or, ℕ, ◌*◌, ◌++◌, ◌+◌, ◌/◌, ◌<◌, ◌∙◌, ◌≡◌, ◌≤◌,
}
use lumenflow_contracts.Escrow.Deadlines.{settled}
use lumenflow_contracts.Payment.SignedChecks.{
  increment_merchant_nonce_lem, increment_rate_limit_counter_lem, known_merchant,
  process_payment_with_signature-IsChecked, settle_signed_lem,
}
use lumenflow_contracts.Action.{is_ok, left_by, u64_max, ok, saturating_add_u64}
use lumenflow_contracts.Base.Dict.{lookup}
use lumenflow_contracts.Base.Int.{pos, ℤ, ◌-ℤ◌}
use lumenflow_contracts.Host.{Env}
use lumenflow_contracts.Payment.Fees.{transfers}
use lumenflow_contracts.Payment.Index.{new_payment}
use lumenflow_contracts.Payment.Processing.{
  current_window_start, get_rate_limit_counter, increment_merchant_nonce,
  increment_rate_limit_counter, process_payment_with_signature, signed_payload,
}
use mathlib.Core.Option
use lumenflow_contracts.Storage.{
  World, get_fee_recipient, get_merchant, get_merchant_nonce, get_payment, get_platform_fee_bps,
  get_rate_limit_per_window, get_signature_expiry_window, is_token_allowed,
}
use lumenflow_contracts.Types.{Address, Bytes}

-- A payment with a merchant's signature that goes through is signed by the payer, has the nonce that
-- follows the merchant's last one, which is the last one from then on, and a time that is not
-- further back than the window of signatures; the signature is one that the given key accepts for
-- the order, the amount, the nonce and that time. The token is allowed, the merchant is active and
-- has made fewer payments in this window than its limit, and the order id had no payment. It moves
-- the amount less the fee to the merchant, and the fee to its recipient if there is one and the fee
-- is positive, and it is recorded.
pub process_payment_with_signature_lem :
    (payer merchant token : Address) (k memo : String) (n : ℕ) (tags : Option (List String))
    (nonce timestamp : ℕ) (signature key : Bytes) (env : Env) (w w' : World) (fee : ℤ)
    → fee ≡ pos (n * get_platform_fee_bps w / 10_000)
    → process_payment_with_signature payer k merchant token
        (pos n)
        memo
        tags
        nonce
        timestamp
        signature
        key
        env
        w
      ≡ ok tt w'
    → (env.authorized payer ≡ true)
      × (nonce ≡ saturating_add_u64 (get_merchant_nonce merchant w) 1)
      × (get_merchant_nonce merchant w' ≡ nonce)
      × (env.timestamp ≤ timestamp + get_signature_expiry_window w)
      × (env.ed25519_verify key (signed_payload nonce k (pos n) timestamp env) signature ≡ true)
      × (is_token_allowed token w ≡ true)
      × (Option.map (λ m. m.active) (get_merchant merchant w) ≡ some true)
      × (get_rate_limit_counter merchant (current_window_start env) w < get_rate_limit_per_window w)
      × (get_payment k w ≡ none)
      × (get_payment k w'
          ≡ some (new_payment k merchant payer token (pos n) env.timestamp memo tags fee))
      × (w'.calls
          ≡ transfers token payer merchant (pos n -ℤ fee) fee (get_fee_recipient w) ++ w.calls)
process_payment_with_signature_lem payer merchant token k memo n tags nonce timestamp signature key
      env w w' fee share done =
    let (m, known) =
      known_merchant payer merchant token k memo (pos n) tags nonce timestamp signature key env w w'
        done in
    let w1 = increment_merchant_nonce merchant w in
    let start = current_window_start env in
    let w2 = left_by w1 (increment_rate_limit_counter merchant start env w1) in
    let (checked, counted, settled) =
      process_payment_with_signature-IsChecked payer merchant token k memo (pos n) tags nonce
        timestamp signature key env w w' m known done in
    let spent = increment_merchant_nonce_lem merchant w in
    let count = increment_rate_limit_counter_lem merchant start env w1 w2 counted in
    let config : w2.config ≡ w.config = count.2 ∙ spent.2 in
    let end =
      settle_signed_lem payer merchant token k memo n tags m env w2 w' fee
        (share ∙ ap (λ c. pos (n * unwrap_or 0 c.platform_fee_bps / 10_000)) (sym config))
        settled in
    let paid = transfers token payer merchant (pos n -ℤ fee) fee in
    (
      checked.signed,
      checked.next,
      ap (λ d. unwrap_or 0 (lookup merchant d)) (end.1 ∙ count.0) ∙ spent.0 ∙ sym checked.next,
      checked.recent,
      checked.verified,
      checked.allowed,
      rw checked.known (rw checked.is_active refl),
      checked.within,
      checked.fresh,
      end.0,
      end.2
          ∙ ap (λ c. paid (c.fee_recipient) ++ w2.calls) config
          ∙ ap (λ l. paid (get_fee_recipient w) ++ l) (count.1 ∙ spent.1),
    )

refused_signature :
    (payer merchant token : Address) (k memo : String) (amount : ℤ) (tags : Option (List String))
    (nonce timestamp : ℕ) (signature key : Bytes) (env : Env) (w : World)
    → eqb nonce (saturating_add_u64 (get_merchant_nonce merchant w) 1) ≡ false
    → is_ok (
        process_payment_with_signature payer k merchant token amount memo tags nonce timestamp
          signature key env w)
      ≡ false
unfolding process_payment_with_signature
refused_signature payer merchant token k memo amount tags nonce timestamp signature key env w
      differs =
    ground arith

-- After a payment with a merchant's signature, of an amount that is not negative, no payment to the
-- same merchant with the same nonce goes through in the state that it leaves, whoever pays, for
-- whatever order, token and amount and with whatever signature, if the nonce is not the last that
-- the type has.
pub signature_spent :
    (payer payer' merchant token token' : Address) (k k' memo memo' : String) (n : ℕ) (amount' : ℤ)
    (tags tags' : Option (List String)) (nonce timestamp timestamp' : ℕ)
    (signature signature' key key' : Bytes) (env later : Env) (w w' : World)
    → nonce < u64_max
    → process_payment_with_signature payer k merchant token
        (pos n)
        memo
        tags
        nonce
        timestamp
        signature
        key
        env
        w
      ≡ ok tt w'
    → is_ok (
        process_payment_with_signature payer' k' merchant token' amount' memo' tags' nonce
          timestamp' signature' key' later w')
      ≡ false
signature_spent payer payer' merchant token token' k k' memo memo' n amount' tags tags' nonce
      timestamp timestamp' signature signature' key key' env later w w' small done =
    let one =
      process_payment_with_signature_lem payer merchant token k memo n tags nonce timestamp
        signature key env w w' _ refl done in
    let differs : eqb nonce (saturating_add_u64 (get_merchant_nonce merchant w') 1) ≡ false =
      ground (arith, one.2) in
    refused_signature payer' merchant token' k' memo' amount' tags' nonce timestamp' signature' key'
      later w' differs
