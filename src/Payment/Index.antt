-- ===== src/Payment/Index.antt =====
-- contracts/lumenflow/src/storage.rs: the payment ids of each merchant and payer, up to a limit, and
-- the statistics that payments keep.
use lumenflow_contracts.Action.{
  Action, Done, add_u32, fail_if, gets, modify, publish, saturating_add, when, ◌>>=◌, ◌>>◌,
}
use lumenflow_contracts.Base.{
  List, Option, String, leb, length, ltb, nat_eq, push_back, string_eq, ℕ, ◌&&◌, ◌*◌, ◌+◌, ◌/◌,
}
use lumenflow_contracts.Base.Dict.{put}
use lumenflow_contracts.Base.Int.{pos, ℤ}
use lumenflow_contracts.Host.{payment_history_near_limit}
use lumenflow_contracts.Storage.{
  World, get_global_stats, get_merchant_payment_ids, get_merchant_stats, get_payer_payment_ids,
  set_global_stats, set_merchant_stats,
}
use lumenflow_contracts.Types.{Address, PaymentOrder, PaymentStatus, payment_history_limit_exceeded}

abbrev pub max_payment_ids_per_account : ℕ
max_payment_ids_per_account = 10_000

abbrev pub payment_history_warning_threshold : ℕ
payment_history_warning_threshold = max_payment_ids_per_account * 9 / 10

abbrev pub warn_near_limit : Address → ℕ → Action Done
warn_near_limit account old_len =
    when
      (ltb old_len payment_history_warning_threshold
        && leb payment_history_warning_threshold (old_len + 1))
      (publish (payment_history_near_limit account (old_len + 1)))

abbrev pub set_merchant_payment_ids : Address → List String → World → World
set_merchant_payment_ids a ids w = record w {
  book = record (w.book) { merchant_payment_ids = put a ids w.book.merchant_payment_ids };
}

abbrev pub set_payer_payment_ids : Address → List String → World → World
set_payer_payment_ids a ids w = record w {
  book = record (w.book) { payer_payment_ids = put a ids w.book.payer_payment_ids };
}

unfoldable pub add_merchant_payment_id : Address → String → Action Done
add_merchant_payment_id merchant order_id = do
  ids ← gets (get_merchant_payment_ids merchant)
  fail_if (leb max_payment_ids_per_account (length ids)) payment_history_limit_exceeded
  modify (set_merchant_payment_ids merchant (push_back ids order_id))
  warn_near_limit merchant (length ids)

unfoldable pub add_payer_payment_id : Address → String → Action Done
add_payer_payment_id payer order_id = do
  ids ← gets (get_payer_payment_ids payer)
  fail_if (leb max_payment_ids_per_account (length ids)) payment_history_limit_exceeded
  modify (set_payer_payment_ids payer (push_back ids order_id))
  warn_near_limit payer (length ids)

-- `stats.total_payments += 1; stats.total_volume = stats.total_volume.saturating_add(amount)`
abbrev pub count_payment : ℤ → Action Done
count_payment amount = do
  stats ← gets get_global_stats
  payments ← add_u32 stats.total_payments 1
  modify (
      set_global_stats (record stats {
        total_payments = payments;
        total_volume = saturating_add stats.total_volume amount;
      }))

abbrev pub count_merchant_payment : Address → ℤ → Action Done
count_merchant_payment merchant amount = do
  stats ← gets (get_merchant_stats merchant)
  payments ← add_u32 stats.total_payments 1
  modify (
      set_merchant_stats merchant (record stats {
        total_payments = payments;
        total_volume = saturating_add stats.total_volume amount;
      }))

-- The record of a payment that was just made.
abbrev pub new_payment :
    String → Address → Address → Address → ℤ → ℕ → String → Option (List String) → ℤ → PaymentOrder
new_payment order_id merchant payer token amount now memo tags platform_fee = record {
  order_id = order_id;
  merchant_address = merchant;
  payer = payer;
  token = token;
  amount = amount;
  version = 0;
  status = PaymentStatus.completed;
  paid_at = now;
  refunded_amount = pos 0;
  memo = memo;
  tags = tags;
  platform_fee = platform_fee;
}
