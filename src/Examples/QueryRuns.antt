-- ===== src/Examples/QueryRuns.antt =====
-- Runs of the queries.
use lumenflow_contracts.Base.{
  String, subst, sym, ◌≢◌, List, [], arith, false, nat_eq, none, refl, some, string_eq, true, ◌∷◌,
  ◌≡◌,
}
use lumenflow_contracts.Base.Dict.{Entries-lookup, Entries-nil, put-Entries, del, lookup, put}
use lumenflow_contracts.Types.{Address, GlobalStats, PaymentOrder}
use lumenflow_contracts.Query.Filter.{date, descending}
use lumenflow_contracts.Query.Pages.{load, get_merchant_payment_history, get_payer_payment_history}
use lumenflow_contracts.Action.{ok}
use lumenflow_contracts.Base.Int.{pos}
use lumenflow_contracts.Examples.Scene.{empty_world, host_at, shop}
use lumenflow_contracts.Examples.Sorting.{insertion_sort, insertion_sort-IsSort}
use lumenflow_contracts.Guards.{clear_auth_fail_count, require_admin_rate_limited}
use lumenflow_contracts.Payment.Index.{new_payment}
use lumenflow_contracts.Query.Complete.{IsWholeHistory, get_payment_history_lem}
use lumenflow_contracts.Query.History.{OwnIds}
use lumenflow_contracts.Query.Stats.{get_global_payment_stats, in_window, no_window}
use lumenflow_contracts.Query.Window.{count, get_global_payment_stats_lem, is_refunded, ledger}
use lumenflow_contracts.Storage.{
  World, get_global_stats, get_merchant_list, get_merchant_payment_ids, get_payer_payment_ids,
}
use mathlib.Core.List.{Nodup, Pairwise, eq-or-mem_of_mem-cons, not-mem-nil}
use mathlib.Core.Logic.Or
use mathlib.Core.HLevel.{¬_prop}

abbrev early_sale : PaymentOrder
early_sale = new_payment "early" 2 3 7 (pos 500) 10 "" none (pos 0)

abbrev late_sale : PaymentOrder
late_sale = record (new_payment "late" 2 3 7 (pos 300) 20 "" none (pos 0)) {
  refunded_amount = pos 100;
}

abbrev history_world : World
history_world = record empty_world {
  book = record (empty_world.book) {
    payments = put "early" early_sale (put "late" late_sale []);
    merchant_payment_ids = put 2 ("early" ∷ "late" ∷ []) [];
    payer_payment_ids = put 2 ("early" ∷ "late" ∷ []) [];
  };
}

abbrev KeyedById : String → PaymentOrder → Type 0
KeyedById k p = p.order_id ≡ k

history_world-OwnIds : OwnIds history_world
history_world-OwnIds id p found =
    Entries-lookup KeyedById id p history_world.book.payments
      (put-Entries KeyedById "early" early_sale _ refl
        (put-Entries KeyedById "late" late_sale _ refl (Entries-nil _)))
      found

abbrev two_ids : List String
two_ids = "early" ∷ "late" ∷ []

abbrev early_id : String
early_id = "early"

ids_differ : early_id ≢ "late"
ids_differ same = ground (arith, (string_eq.beq_iff "early" "late").1 same)

ids_distinct : Nodup two_ids
ids_distinct =
    Pairwise.cons
      (λ id m.
        Or.elim ¬_prop (eq-or-mem_of_mem-cons m)
          (λ same. subst (λ k. "early" ≢ k) (sym same) ids_differ)
          (λ later. absurd (not-mem-nil later)))
      (Pairwise.cons (λ id m. absurd (not-mem-nil m)) Pairwise.nil)

get_payment_history_example :
    ((xs : List PaymentOrder) × IsWholeHistory
        (λ cursor.
          get_merchant_payment_history insertion_sort 2 cursor 1 none date descending
            (host_at 50)
            history_world)
        (get_merchant_payment_ids 2 history_world)
        none
        date
        descending
        history_world
        xs)
    × ((xs : List PaymentOrder) × IsWholeHistory
          (λ cursor.
            get_payer_payment_history insertion_sort 2 cursor 1 none date descending
              (host_at 50)
              history_world)
          (get_payer_payment_ids 2 history_world)
          none
          date
          descending
          history_world
          xs)
unfolding lookup put
get_payment_history_example =
    get_payment_history_lem insertion_sort 2 1 none date descending (host_at 50) history_world
      insertion_sort-IsSort history_world-OwnIds ids_distinct ids_distinct refl (omega arith)
      (omega arith)

abbrev market_world : World
market_world = record empty_world {
  people = record (empty_world.people) {
    merchants = put 2 shop (put 4 (record shop { address = 4 }) []);
    merchant_list = 2 ∷ 4 ∷ [];
  };
}

abbrev two_addresses : List Address
two_addresses = 2 ∷ 4 ∷ []

addresses_distinct : Nodup two_addresses
addresses_distinct =
    Pairwise.cons
      (λ a m.
        Or.elim ¬_prop (eq-or-mem_of_mem-cons m)
          (λ same. subst (λ k. 2 ≢ k) (sym same) (omega arith))
          (λ later. absurd (not-mem-nil later)))
      (Pairwise.cons (λ a m. absurd (not-mem-nil m)) Pairwise.nil)

abbrev guarded_world : World
guarded_world = clear_auth_fail_count 1 history_world

get_global_payment_stats_example :
    (no_window (some 15) none ≡ false
      → (stats : GlobalStats) × (get_global_payment_stats 1
            (some 15)
            none
            (host_at 50)
            history_world
          ≡ ok stats guarded_world)
        × (stats.total_payments
            ≡ count
                (in_window (some 15) none)
                (ledger (get_merchant_list guarded_world) guarded_world))
        × (stats.total_refunds
            ≡ count
                (is_refunded (in_window (some 15) none))
                (ledger (get_merchant_list guarded_world) guarded_world))
        × (stats.active_merchants ≡ (get_global_stats guarded_world).active_merchants))
    × (no_window (some 15) none ≡ true
        → get_global_payment_stats 1 (some 15) none (host_at 50) history_world
          ≡ ok (get_global_stats guarded_world) guarded_world)
unfolding require_admin_rate_limited lookup put del ledger load
get_global_payment_stats_example =
    get_global_payment_stats_lem 1 (some 15) none (host_at 50) history_world guarded_world refl refl
      (omega arith)
