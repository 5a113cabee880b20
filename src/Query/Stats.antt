-- ===== src/Query/Stats.antt =====
-- contracts/lumenflow/src/lib.rs, `get_global_payment_stats`.
use lumenflow_contracts.Query.Filter.{passes}
use lumenflow_contracts.Action.{Action, add_u32, fail_if, gets, pure, saturating_add, ◌>>=◌, ◌>>◌}
use lumenflow_contracts.Base.{
  Bool, List, Option, String, [], false, if◌then◌else◌, is_some, leb, ltb, nat_eq, none, not, some,
  string_eq, ℕ, ◌&&◌, ◌∷◌,
}
use lumenflow_contracts.Base.Int.{ltb_ℤ, pos}
use lumenflow_contracts.Guards.{require_admin_rate_limited}
use lumenflow_contracts.Storage.{
  World, get_global_stats, get_merchant_list, get_merchant_payment_ids, get_payment,
}
use lumenflow_contracts.Types.{Address, GlobalStats, PaymentOrder, invalid_input}

-- `date_start.map_or(true, |s| ts >= s) && date_end.map_or(true, |e| ts <= e)`
abbrev pub in_window : Option ℕ → Option ℕ → PaymentOrder → Bool
in_window date_start date_end p =
    passes date_start (λ s. leb s p.paid_at) && passes date_end (λ e. leb p.paid_at e)

abbrev pub add_refund : PaymentOrder → GlobalStats → Action GlobalStats
add_refund p stats =
    if ltb_ℤ (pos 0) p.refunded_amount
    then (do
      refunds ← add_u32 stats.total_refunds 1
      pure (record stats {
        total_refunds = refunds;
        total_refund_volume = saturating_add stats.total_refund_volume p.refunded_amount;
      }))
    else pure stats

abbrev pub add_payment : PaymentOrder → GlobalStats → Action GlobalStats
add_payment p stats = do
  payments ← add_u32 stats.total_payments 1
  add_refund p (record stats {
    total_payments = payments;
    total_volume = saturating_add stats.total_volume p.amount;
  })

abbrev pub tally_if : (PaymentOrder → Bool) → Option PaymentOrder → GlobalStats → Action GlobalStats
tally_if test none stats = pure stats
tally_if test (some p) stats = if test p then add_payment p stats else pure stats

-- The inner loop, over the payments of a merchant.
unfoldable pub tally_ids : (PaymentOrder → Bool) → List String → GlobalStats → Action GlobalStats
tally_ids test [] stats = pure stats
tally_ids test (id ∷ ids) stats = do
  found ← gets (get_payment id)
  next ← tally_if test found stats
  tally_ids test ids next

-- The outer loop, over the merchants.
unfoldable pub tally_merchants :
    (PaymentOrder → Bool) → List Address → GlobalStats → Action GlobalStats
tally_merchants test [] stats = pure stats
tally_merchants test (a ∷ addresses) stats = do
  ids ← gets (get_merchant_payment_ids a)
  next ← tally_ids test ids stats
  tally_merchants test addresses next

-- `if let (Some(start), Some(end)) = (date_start, date_end) { start > end }`
abbrev pub is_reversed : Option ℕ → Option ℕ → Bool
is_reversed (some start) (some end) = ltb end start
is_reversed none _ = false
is_reversed (some _) none = false

abbrev pub no_window : Option ℕ → Option ℕ → Bool
no_window date_start date_end = not (is_some date_start) && not (is_some date_end)

-- Where the filtered path starts from.
abbrev pub fresh_stats : World → GlobalStats
fresh_stats w = record {
  total_payments = 0;
  total_volume = pos 0;
  total_refunds = 0;
  total_refund_volume = pos 0;
  active_merchants = (get_global_stats w).active_merchants;
}

abbrev pub window_stats : Option ℕ → Option ℕ → Action GlobalStats
window_stats date_start date_end = do
  stats ← gets fresh_stats
  addresses ← gets get_merchant_list
  tally_merchants (in_window date_start date_end) addresses stats

-- Without a window the cached statistics are returned.
abbrev pub window_or_cached : Option ℕ → Option ℕ → Action GlobalStats
window_or_cached date_start date_end =
    if no_window date_start date_end
    then gets get_global_stats
    else window_stats date_start date_end

unfoldable pub get_global_payment_stats : Address → Option ℕ → Option ℕ → Action GlobalStats
unfolding require_admin_rate_limited
get_global_payment_stats admin date_start date_end = do
  require_admin_rate_limited admin
  fail_if (is_reversed date_start date_end) invalid_input
  window_or_cached date_start date_end
