-- ===== src/Examples/BatchRuns.antt =====
-- Runs of the grouping of a batch.
use lumenflow_contracts.Action.{left_by, ok}
use lumenflow_contracts.Base.{
  All, suc, true, zero, ◌≤◌, List, String, [], nat_eq, none, refl, string_eq, ℕ, ◌∷◌, ◌≡◌,
}
use lumenflow_contracts.Base.Dict.{lookup, put}
use lumenflow_contracts.Base.Int.{clamp_i128, in_i128, pos, ◌+ℤ◌}
use lumenflow_contracts.Escrow.Solvency.{net}
use lumenflow_contracts.Examples.Scene.{shop, empty_world, host_at}
use lumenflow_contracts.Payment.Batch.{
  batch_payment, check_item, check_items, pay_groups, publish_items, store_item, store_items, Group,
  group_items, update_groups,
}
use lumenflow_contracts.Payment.Checked.{IsCheckedItem}
use lumenflow_contracts.Payment.Settlement.{batch_payment_lem}
use lumenflow_contracts.Payment.Stored.{AllStored}
use lumenflow_contracts.Storage.{World, get_payment}
use lumenflow_contracts.Payment.Grouping.{item_amount}
use lumenflow_contracts.Types.{Address, BatchPaymentItem}

abbrev zeros : ℕ → List ℕ
zeros zero = []
zeros (suc n) = 0 ∷ zeros n

abbrev item : String → Address → ℕ → BatchPaymentItem
item k merchant n = record {
  order_id = k;
  merchant_address = merchant;
  token_address = 7;
  amount = pos n;
  memo = "";
  tags = none;
  signature = zeros 64;
  merchant_public_key = zeros 32;
}

abbrev basket : List BatchPaymentItem
basket = item "a" 2 100 ∷ item "b" 4 50 ∷ item "c" 2 30 ∷ []

abbrev basket_groups : List Group
basket_groups =
    record { token = 7; merchant = 2; total = pos 130 }
    ∷ record { token = 7; merchant = 4; total = pos 50 }
    ∷ []

-- A second shop, at 4.
abbrev market : World
market = record empty_world {
  people = record (empty_world.people) {
    merchants = (2, shop) ∷ (4, record shop { address = 4 }) ∷ [];
    merchant_list = 2 ∷ 4 ∷ [];
  };
}

abbrev sold : World
sold = left_by market (batch_payment 3 basket (host_at 5) market)

batch_run : batch_payment 3 basket (host_at 5) market ≡ ok tt sold
unfolding batch_payment check_items check_item group_items update_groups pay_groups store_items
    store_item publish_items lookup put in_i128 clamp_i128 ◌+ℤ◌
batch_run = refl

batch_payment_example :
    (true ≡ true)
    × (3 ≤ 10)
    × All (IsCheckedItem (host_at 5) market) basket
    × AllStored 3 5 sold.book.payments basket
    × (get_payment "d" sold ≡ get_payment "d" market)
    × (net 2 7 sold.calls ≡ net 2 7 market.calls +ℤ item_amount 7 2 basket)
batch_payment_example =
    batch_payment_lem 3 7 2 "d" basket (host_at 5) market sold refl refl batch_run
