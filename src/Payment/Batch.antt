-- ===== src/Payment/Batch.antt =====
-- contracts/lumenflow/src/lib.rs: `batch_payment`. All items are checked, their amounts are grouped by
-- token and merchant, each group is paid by one transfer, and each item is recorded.
use lumenflow_contracts.Action.{
  Action, Done, add_i128, add_u32, ask, call_token, fail_if, gets, modify, or_fail, publish, pure,
  require_auth, saturating_add, ◌>>=◌, ◌>>◌,
}
use lumenflow_contracts.Base.{
  Bool, List, Option, String, [], contains, eqb, false, if◌then◌else◌, is_some, leb, length, ltb,
  nat_eq, none, not, push_back, some, string_eq, true, ℕ, ◌&&◌, ◌++◌, ◌∷◌,
}
use lumenflow_contracts.Base.Int.{pos, ℤ}
use lumenflow_contracts.Guards.{
  require_not_paused, require_positive, require_valid_id, validate_tags,
}
use lumenflow_contracts.Host.{Env, payment_processed, transfer}
use lumenflow_contracts.Payment.Index.{
  add_merchant_payment_id, add_payer_payment_id, count_merchant_payment, new_payment,
}
use lumenflow_contracts.Payment.Processing.{
  current_window_start, get_rate_limit_counter, increment_rate_limit_counter, verify_signature,
}
use lumenflow_contracts.Storage.{
  get_global_stats, get_merchant, get_payment, get_rate_limit_per_window, is_token_allowed,
  set_global_stats, set_merchant, set_payment,
}
use lumenflow_contracts.Types.{
  Address, BatchPaymentItem, Bytes, GlobalStats, Merchant, batch_size_exceeded, duplicate_order_id,
  merchant_inactive, merchant_not_found, payment_already_exists, rate_limit_exceeded,
  serialized_payload_too_large, token_not_allowed,
}

abbrev pub max_batch_size : ℕ
max_batch_size = 10

abbrev pub max_serialized_payload_bytes : ℕ
max_serialized_payload_bytes = 4096

abbrev pub batch_payload : String → ℤ → Env → Bytes
batch_payload order_id amount env =
    env.network_id
    ++ env.address_xdr env.contract
    ++ env.string_xdr order_id
    ++ env.i128_be_bytes amount

-- The checks of one item; `seen` are the ids of the items before it.
unfoldable pub check_item : BatchPaymentItem → List String → Action Done
unfolding require_positive require_valid_id validate_tags increment_rate_limit_counter
    verify_signature
check_item item seen = do
  require_positive item.amount
  require_valid_id item.order_id
  validate_tags item.tags
  fail_if (contains seen item.order_id) duplicate_order_id
  allowed ← gets (is_token_allowed item.token_address)
  fail_if (not allowed) token_not_allowed
  existing ← gets (get_payment item.order_id)
  fail_if (is_some existing) payment_already_exists
  found ← gets (get_merchant item.merchant_address)
  merchant ← or_fail found merchant_not_found
  fail_if (not merchant.active) merchant_inactive
  env ← ask
  let window_start = current_window_start env
  count ← gets (get_rate_limit_counter item.merchant_address window_start)
  limit ← gets get_rate_limit_per_window
  fail_if (leb limit count) rate_limit_exceeded
  increment_rate_limit_counter item.merchant_address window_start
  let payload = batch_payload item.order_id item.amount env
  fail_if (ltb max_serialized_payload_bytes (length payload)) serialized_payload_too_large
  verify_signature item.merchant_public_key payload item.signature

unfoldable pub check_items : List BatchPaymentItem → List String → Action Done
check_items [] seen = pure tt
check_items (item ∷ items) seen = do
  check_item item seen
  check_items items (push_back seen item.order_id)

-- `(token_address, merchant_address, grouped_total)`
pub record Group : Type 0 where
  pub token : Address
  pub merchant : Address
  pub total : ℤ

abbrev pub is_group_of : Address → Address → Group → Bool
is_group_of t m g = eqb g.token t && eqb g.merchant m

-- The inner loop: the groups with the item's amount added to its group, and whether it has one.
unfoldable pub update_groups : BatchPaymentItem → List Group → Action (List Group × Bool)
update_groups item [] = pure ([], false)
update_groups item (g ∷ gs) = elim (is_group_of item.token_address item.merchant_address g) [
  | true ↦ (do
    total ← add_i128 g.total item.amount
    updated ← update_groups item gs
    pure (record g { total = total } ∷ updated.0, true))
  | false ↦ (do updated ← update_groups item gs; pure (g ∷ updated.0, updated.1))
]

abbrev pub new_group : BatchPaymentItem → Group
new_group item = record {
  token = item.token_address;
  merchant = item.merchant_address;
  total = item.amount;
}

abbrev pub with_group : BatchPaymentItem → List Group × Bool → List Group
with_group item updated = if updated.1 then updated.0 else push_back updated.0 (new_group item)

unfoldable pub group_items : List BatchPaymentItem → List Group → Action (List Group)
group_items [] groups = pure groups
group_items (item ∷ items) groups = do
  updated ← update_groups item groups
  group_items items (with_group item updated)

unfoldable pub pay_groups : Address → List Group → Action Done
pay_groups payer [] = pure tt
pay_groups payer (g ∷ gs) = do
  call_token (transfer g.token payer g.merchant g.total)
  pay_groups payer gs

-- `if let Some(mut m) = get_merchant(...) { m.total_received += item.amount; ... }`
abbrev pub credit_merchant : Option Merchant → ℤ → Action Done
credit_merchant none amount = pure tt
credit_merchant (some m) amount = do
  total_received ← add_i128 m.total_received amount
  modify (set_merchant (record m { total_received = total_received }))

-- One pass of the loop that records the items, with the global statistics after it.
unfoldable pub store_item : Address → BatchPaymentItem → GlobalStats → Action GlobalStats
unfolding add_merchant_payment_id add_payer_payment_id
store_item payer item stats = do
  env ← ask
  modify (
      set_payment (
        new_payment item.order_id item.merchant_address payer item.token_address item.amount
          env.timestamp item.memo item.tags (pos 0)))
  add_merchant_payment_id item.merchant_address item.order_id
  add_payer_payment_id payer item.order_id
  found ← gets (get_merchant item.merchant_address)
  credit_merchant found item.amount
  count_merchant_payment item.merchant_address item.amount
  payments ← add_u32 stats.total_payments 1
  pure (record stats {
    total_payments = payments;
    total_volume = saturating_add stats.total_volume item.amount;
  })

-- The records of the items; the global statistics are carried along and written at the end.
unfoldable pub store_items : Address → List BatchPaymentItem → GlobalStats → Action Done
store_items payer [] stats = modify (set_global_stats stats)
store_items payer (item ∷ items) stats = do
  updated ← store_item payer item stats
  store_items payer items updated

unfoldable pub publish_items : Address → List BatchPaymentItem → Action Done
publish_items payer [] = pure tt
publish_items payer (item ∷ items) = do
  publish (payment_processed item.merchant_address item.order_id payer item.amount)
  publish_items payer items

unfoldable pub batch_payment : Address → List BatchPaymentItem → Action Done
unfolding require_not_paused
batch_payment payer payments = do
  require_not_paused
  require_auth payer
  fail_if (ltb max_batch_size (length payments)) batch_size_exceeded
  check_items payments []
  groups ← group_items payments []
  pay_groups payer groups
  stats ← gets get_global_stats
  store_items payer payments stats
  publish_items payer payments
