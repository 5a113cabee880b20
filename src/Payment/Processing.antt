-- ===== src/Payment/Processing.antt =====
-- contracts/lumenflow/src/lib.rs, "Payments": a payment signed by its merchant, and a payment with
-- the payer's nonce; with storage.rs, the nonces and the rate limit of a merchant.
use lumenflow_contracts.Action.{
  Action, Done, add_i128, add_u32, ask, asks, fail_if, gets, modify, ok, or_fail, publish,
  require_auth, saturating_add_u64, sub_i128, trap, when, ◌>>=◌, ◌>>◌,
}
use lumenflow_contracts.Base.{
  List, Option, String, [], eqb, if◌then◌else◌, is_some, leb, len, length, ltb, nat_eq, not,
  string_eq, unwrap_or, ℕ, ◌*◌, ◌++◌, ◌-◌, ◌/◌,
}
use lumenflow_contracts.Base.Dict.{Dict, lookup, put}
use lumenflow_contracts.Base.Int.{leb_ℤ, ℤ}
use lumenflow_contracts.Escrow.Solvency.{net}
use lumenflow_contracts.Guards.{
  require_not_paused, require_positive, require_valid_id, validate_tags,
}
use lumenflow_contracts.Host.{Env, Event, payment_processed}
use lumenflow_contracts.Payment.Fees.{pay_out, platform_fee}
use lumenflow_contracts.Payment.Index.{
  add_merchant_payment_id, add_payer_payment_id, count_merchant_payment, count_payment, new_payment,
}
use lumenflow_contracts.Storage.{
  World, get_large_payment_threshold, get_merchant, get_merchant_nonce, get_nonce, get_payment,
  get_platform_fee_bps, get_rate_limit_per_window, get_signature_expiry_window, is_token_allowed,
  set_merchant, set_payment,
}
use lumenflow_contracts.Types.{
  Address, Bytes, Merchant, PaymentOrder, invalid_memo_length, invalid_nonce, invalid_signature,
  merchant_inactive, merchant_not_found, payment_already_exists, rate_limit_exceeded,
  signature_expired, token_not_allowed,
}

unfoldable pub require_valid_memo : String → Action Done
require_valid_memo memo = do
  env ← ask
  fail_if (ltb env.max_memo_length (len memo)) invalid_memo_length

unfoldable pub increment_nonce : Address → World → World
increment_nonce payer w = record w {
  book = record (w.book) {
    nonces = put payer (saturating_add_u64 (get_nonce payer w) 1) w.book.nonces;
  };
}

unfoldable pub increment_merchant_nonce : Address → World → World
increment_merchant_nonce merchant w = record w {
  book = record (w.book) {
    merchant_nonces =
        put merchant (saturating_add_u64 (get_merchant_nonce merchant w) 1) w.book.merchant_nonces;
  };
}

abbrev pub rate_limit_window_ledgers : ℕ
rate_limit_window_ledgers = 300

abbrev pub current_window_start : Env → ℕ
current_window_start env = env.sequence / rate_limit_window_ledgers * rate_limit_window_ledgers

-- The counters of one merchant, by window.
abbrev pub counters_of : Address → World → Dict ℕ ℕ
counters_of m w = unwrap_or [] (lookup m w.book.rate_limit_counters)

abbrev pub get_rate_limit_counter : Address → ℕ → World → ℕ
get_rate_limit_counter m start w = unwrap_or 0 (lookup start (counters_of m w))

abbrev pub set_rate_limit_counter : Address → ℕ → ℕ → World → World
set_rate_limit_counter m start count w = record w {
  book = record (w.book) {
    rate_limit_counters = put m (put start count (counters_of m w)) w.book.rate_limit_counters;
  };
}

unfoldable pub increment_rate_limit_counter : Address → ℕ → Action Done
increment_rate_limit_counter m start = do
  before ← gets (get_rate_limit_counter m start)
  count ← add_u32 before 1
  modify (set_rate_limit_counter m start count)

-- The signature, whose key has 32 bytes and which itself has 64, is verified by the host, which traps
-- on a wrong one.
unfoldable pub verify_signature : Bytes → Bytes → Bytes → Action Done
verify_signature public_key payload signature = do
  fail_if (not (eqb (length public_key) 32)) invalid_signature
  fail_if (not (eqb (length signature) 64)) invalid_signature
  verify ← asks (λ env. env.ed25519_verify)
  λ env w. if verify public_key payload signature then ok tt w else trap

abbrev pub signed_payload : ℕ → String → ℤ → ℕ → Env → Bytes
signed_payload nonce order_id amount timestamp env =
    env.network_id
    ++ env.address_xdr env.contract
    ++ env.u64_be_bytes nonce
    ++ env.string_xdr order_id
    ++ env.i128_be_bytes amount
    ++ env.u64_be_bytes timestamp

-- The merchant's total, which grows by `received`, the statistics and the events.
unfoldable pub tally_payment : PaymentOrder → Merchant → ℤ → Action Done
tally_payment p m received = do
  total_received ← add_i128 m.total_received received
  modify (set_merchant (record m { total_received = total_received }))
  count_merchant_payment p.merchant_address p.amount
  count_payment p.amount
  threshold ← gets get_large_payment_threshold
  when (leb_ℤ threshold p.amount) (publish (Event.large_payment p.payer p.amount))
  publish (payment_processed p.merchant_address p.order_id p.payer p.amount)

-- The end that both entry points share: the record, the ids and the tally.
unfoldable pub book_payment : PaymentOrder → Merchant → ℤ → Action Done
book_payment p m received = do
  modify (set_payment p)
  add_merchant_payment_id p.merchant_address p.order_id
  add_payer_payment_id p.payer p.order_id
  tally_payment p m received

unfoldable pub process_payment_with_nonce :
    Address → String → Address → Address → ℤ → String → Option (List String) → ℕ → Action Done
unfolding require_not_paused require_positive require_valid_id validate_tags require_valid_memo
process_payment_with_nonce payer order_id merchant_address token amount memo tags nonce = do
  require_not_paused
  require_auth payer
  require_positive amount
  require_valid_id order_id
  validate_tags tags
  require_valid_memo memo
  expected ← gets (get_nonce payer)
  fail_if (not (eqb nonce expected)) invalid_nonce
  allowed ← gets (is_token_allowed token)
  fail_if (not allowed) token_not_allowed
  existing ← gets (get_payment order_id)
  fail_if (is_some existing) payment_already_exists
  found ← gets (get_merchant merchant_address)
  merchant ← or_fail found merchant_not_found
  fail_if (not merchant.active) merchant_inactive
  modify (increment_nonce payer)
  fee_bps ← gets get_platform_fee_bps
  fee ← platform_fee amount fee_bps
  net ← sub_i128 amount fee
  pay_out token payer merchant_address net fee
  env ← ask
  book_payment
      (new_payment order_id merchant_address payer token amount env.timestamp memo tags fee)
      merchant amount

-- The end of a signed payment: the fee, the transfers, the record and the tally.
unfoldable pub settle_signed :
    Address
    → String
    → Address
    → Address
    → ℤ
    → String
    → Option (List String)
    → Merchant
    → Action Done
settle_signed payer order_id merchant_address token amount memo tags merchant = do
  env ← ask
  fee_bps ← gets get_platform_fee_bps
  fee ← platform_fee amount fee_bps
  net ← sub_i128 amount fee
  pay_out token payer merchant_address net fee
  book_payment
      (new_payment order_id merchant_address payer token amount env.timestamp memo tags fee)
      merchant net

unfoldable pub process_payment_with_signature :
    Address
    → String
    → Address
    → Address
    → ℤ
    → String
    → Option (List String)
    → ℕ
    → ℕ
    → Bytes
    → Bytes
    → Action Done
unfolding require_not_paused require_positive require_valid_id validate_tags require_valid_memo
    verify_signature increment_rate_limit_counter
process_payment_with_signature payer order_id merchant_address token amount memo tags nonce
      timestamp signature public_key =
    do
      require_not_paused
      require_auth payer
      require_positive amount
      require_valid_id order_id
      validate_tags tags
      require_valid_memo memo
      allowed ← gets (is_token_allowed token)
      fail_if (not allowed) token_not_allowed
      existing ← gets (get_payment order_id)
      fail_if (is_some existing) payment_already_exists
      found ← gets (get_merchant merchant_address)
      merchant ← or_fail found merchant_not_found
      fail_if (not merchant.active) merchant_inactive
      last ← gets (get_merchant_nonce merchant_address)
      fail_if (not (eqb nonce (saturating_add_u64 last 1))) invalid_nonce
      env ← ask
      window ← gets get_signature_expiry_window
      fail_if (ltb timestamp (env.timestamp - window)) signature_expired
      still_allowed ← gets (is_token_allowed token)
      fail_if (not still_allowed) token_not_allowed
      verify_signature public_key (signed_payload nonce order_id amount timestamp env) signature
      modify (increment_merchant_nonce merchant_address)
      let window_start = current_window_start env
      count ← gets (get_rate_limit_counter merchant_address window_start)
      limit ← gets get_rate_limit_per_window
      fail_if (leb limit count) rate_limit_exceeded
      increment_rate_limit_counter merchant_address window_start
      settle_signed payer order_id merchant_address token amount memo tags merchant
