-- ===== src/Examples/PaymentRuns.antt =====
-- Runs of the entry points for payments.
use lumenflow_contracts.Base.{
  List, suc, zero, ℕ, ◌+◌, ◌<◌, ◌≤◌, [], arith, false, nat_eq, none, refl, some, string_eq, true,
  ◌∷◌, ◌≡◌,
}
use lumenflow_contracts.Payment.Processing.{
  current_window_start, get_rate_limit_counter, increment_merchant_nonce,
  increment_rate_limit_counter, process_payment_with_signature, settle_signed, verify_signature,
  book_payment, increment_nonce, process_payment_with_nonce, require_valid_memo, tally_payment,
}
use lumenflow_contracts.Payment.Signed.{process_payment_with_signature_lem, signature_spent}
use lumenflow_contracts.Storage.{
  get_merchant_nonce, get_rate_limit_per_window, get_signature_expiry_window, World, get_merchant,
  get_nonce, get_payment, is_token_allowed,
}
use lumenflow_contracts.Action.{saturating_add_u64, is_ok, left_by, ok}
use lumenflow_contracts.Base.Dict.{lookup, put}
use lumenflow_contracts.Base.Int.{clamp_i128, div_ℤ, in_i128, pos, ◌*ℤ◌, ◌+ℤ◌, ◌-ℤ◌}
use lumenflow_contracts.Examples.Scene.{empty_world, host_at}
use lumenflow_contracts.Host.{transfer}
use lumenflow_contracts.Payment.Fees.{pay_out, platform_fee}
use lumenflow_contracts.Payment.Index.{add_merchant_payment_id, add_payer_payment_id, new_payment}
use lumenflow_contracts.Payment.Replay.{nonce_spent, process_payment_with_nonce_lem}
-- A fee of 2.5 per cent goes to 8.
use mathlib.Core.Option

abbrev fee_world : World
fee_world = record empty_world {
  config = record (empty_world.config) { platform_fee_bps = some 250; fee_recipient = some 8 };
}

abbrev paid_world : World
paid_world =
    left_by fee_world
      (process_payment_with_nonce 3 "order" 2 7 (pos 1000) "memo" none 0 (host_at 50) fee_world)

pay_run :
    process_payment_with_nonce 3 "order" 2 7 (pos 1000) "memo" none 0 (host_at 50) fee_world
    ≡ ok tt paid_world
unfolding process_payment_with_nonce lookup put platform_fee pay_out book_payment tally_payment
    increment_nonce add_merchant_payment_id add_payer_payment_id require_valid_memo in_i128
    clamp_i128 div_ℤ ◌*ℤ◌ ◌+ℤ◌ ◌-ℤ◌
pay_run = refl

process_payment_with_nonce_example :
    (true ≡ true)
    × (0 ≡ get_nonce 3 fee_world)
    × (get_nonce 3 paid_world ≡ 1)
    × (is_token_allowed 7 fee_world ≡ true)
    × (Option.map (λ m. m.active) (get_merchant 2 fee_world) ≡ some true)
    × (get_payment "order" fee_world ≡ none)
    × (get_payment "order" paid_world
        ≡ some (new_payment "order" 2 3 7 (pos 1000) 50 "memo" none (pos 25)))
    × (paid_world.calls ≡ transfer 7 3 8 (pos 25) ∷ transfer 7 3 2 (pos 975) ∷ [])
unfolding lookup ◌-ℤ◌
process_payment_with_nonce_example =
    process_payment_with_nonce_lem 3 2 7 "order" "memo" 1000 none 0 (host_at 50) fee_world
      paid_world (pos 25) refl pay_run

nonce_spent_example :
    is_ok (process_payment_with_nonce 3 "next" 2 7 (pos 1) "" none 0 (host_at 60) paid_world)
    ≡ false
nonce_spent_example =
    nonce_spent 3 2 2 7 7 "order" "next" "memo" "" 1000 (pos 1) none none 0 (host_at 50)
      (host_at 60) fee_world paid_world (omega arith) pay_run

abbrev zeros : ℕ → List ℕ
zeros zero = []
zeros (suc n) = 0 ∷ zeros n

abbrev signed_world : World
signed_world = left_by fee_world (
    process_payment_with_signature 3 "order" 2 7 (pos 1000) "memo" none 1 50 (zeros 64) (zeros 32)
      (host_at 50) fee_world)

sign_run :
    process_payment_with_signature 3 "order" 2 7
      (pos 1000)
      "memo"
      none
      1
      50
      (zeros 64)
      (zeros 32)
      (host_at 50)
      fee_world
    ≡ ok tt signed_world
unfolding process_payment_with_signature settle_signed lookup put platform_fee pay_out book_payment
    tally_payment increment_merchant_nonce increment_rate_limit_counter verify_signature
    add_merchant_payment_id add_payer_payment_id require_valid_memo in_i128 clamp_i128 div_ℤ ◌*ℤ◌
    ◌+ℤ◌ ◌-ℤ◌
sign_run = refl

process_payment_with_signature_example :
    (true ≡ true)
    × (1 ≡ saturating_add_u64 (get_merchant_nonce 2 fee_world) 1)
    × (get_merchant_nonce 2 signed_world ≡ 1)
    × (50 ≤ 50 + get_signature_expiry_window fee_world)
    × (true ≡ true)
    × (is_token_allowed 7 fee_world ≡ true)
    × (Option.map (λ m. m.active) (get_merchant 2 fee_world) ≡ some true)
    × (get_rate_limit_counter 2 (current_window_start (host_at 50)) fee_world
        < get_rate_limit_per_window fee_world)
    × (get_payment "order" fee_world ≡ none)
    × (get_payment "order" signed_world
        ≡ some (new_payment "order" 2 3 7 (pos 1000) 50 "memo" none (pos 25)))
    × (signed_world.calls ≡ transfer 7 3 8 (pos 25) ∷ transfer 7 3 2 (pos 975) ∷ [])
unfolding lookup ◌-ℤ◌
process_payment_with_signature_example =
    process_payment_with_signature_lem 3 2 7 "order" "memo" 1000 none 1 50 (zeros 64) (zeros 32)
      (host_at 50) fee_world signed_world (pos 25) refl sign_run

signature_spent_example :
    is_ok (
      process_payment_with_signature 5 "next" 2 7
        (pos 1)
        ""
        none
        1
        60
        (zeros 64)
        (zeros 32)
        (host_at 60)
        signed_world)
    ≡ false
signature_spent_example =
    signature_spent 3 5 2 7 7 "order" "next" "memo" "" 1000 (pos 1) none none 1 50 60 (zeros 64)
      (zeros 64) (zeros 32) (zeros 32) (host_at 50) (host_at 60) fee_world signed_world
      (omega arith) sign_run
