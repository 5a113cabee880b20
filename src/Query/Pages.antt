-- ===== src/Query/Pages.antt =====
-- contracts/lumenflow/src/lib.rs, "Payment history queries". The sort is the standard library's, so it
-- is a parameter.
use lumenflow_contracts.Action.{Action, gets, require_auth, ◌>>=◌, ◌>>◌}
use lumenflow_contracts.Base.{
  List, Option, String, [], drop, eqb, if◌then◌else◌, length, ltb, nat_eq, none, push_back, some,
  string_eq, suc, zero, ℕ, ◌==◌, ◌∷◌,
}
use lumenflow_contracts.Base.Int.{ltb_ℤ, ℤ}
use lumenflow_contracts.Guards.{require_valid_limit}
use lumenflow_contracts.Query.Filter.{
  PaymentFilter, PaymentPage, matches_filter, SortField, SortOrder, ascending, date, descending,
}
use lumenflow_contracts.Storage.{
  World, get_merchant_payment_ids, get_payer_payment_ids, get_payment,
}
use lumenflow_contracts.Types.{Address, PaymentOrder}

-- `Ord::cmp`
pub data Ordering : Type 0 where
  less equal greater : Ordering

abbrev pub reverse : Ordering → Ordering
reverse less = greater
reverse equal = equal
reverse greater = less

abbrev pub cmp_ℕ : ℕ → ℕ → Ordering
cmp_ℕ a b = if ltb a b then less else if eqb a b then equal else greater

abbrev pub cmp_ℤ : ℤ → ℤ → Ordering
cmp_ℤ a b = if ltb_ℤ a b then less else if ltb_ℤ b a then greater else equal

abbrev pub compare_by : SortField → PaymentOrder → PaymentOrder → Ordering
compare_by date a b = cmp_ℕ a.paid_at b.paid_at
compare_by SortField.amount a b = cmp_ℤ a.amount b.amount

abbrev pub in_order : SortOrder → Ordering → Ordering
in_order ascending o = o
in_order descending o = reverse o

abbrev pub compare : SortField → SortOrder → PaymentOrder → PaymentOrder → Ordering
compare field order a b = in_order order (compare_by field a b)

abbrev pub keep_if_matching :
    Option PaymentFilter → Option PaymentOrder → List PaymentOrder → List PaymentOrder
keep_if_matching filter none rest = rest
keep_if_matching filter (some p) rest = if matches_filter filter p then p ∷ rest else rest

-- The payments of the index that are stored and pass the filter.
unfoldable pub load : Option PaymentFilter → List String → World → List PaymentOrder
load filter [] w = []
load filter (id ∷ ids) w = keep_if_matching filter (get_payment id w) (load filter ids w)

abbrev pub after_first : Option ℕ → Option ℕ
after_first none = none
after_first (some i) = some (suc i)

-- `sorted.iter().position(|p| p.order_id == *cursor_id)`
unfoldable pub position : String → List PaymentOrder → Option ℕ
position id [] = none
position id (p ∷ ps) =
    let rest = position id ps in if p.order_id == id then some 0 else after_first rest

-- `.map(|pos| pos + 1).unwrap_or(0)`
abbrev pub after_position : Option ℕ → ℕ
after_position none = 0
after_position (some i) = suc i

abbrev pub start_idx : Option String → List PaymentOrder → ℕ
start_idx none sorted = 0
start_idx (some cursor_id) sorted = after_position (position cursor_id sorted)

abbrev pub last_id : List PaymentOrder → Option String
last_id [] = none
last_id (p ∷ []) = some p.order_id
last_id (p ∷ q ∷ ps) = last_id (q ∷ ps)

-- The loop over the entries from the start index on, with room for `left` more.
unfoldable pub fill : ℕ → List PaymentOrder → List PaymentOrder → List PaymentOrder × Option String
fill left result [] = (result, none)
fill zero result (p ∷ ps) = (result, last_id result)
fill (suc left) result (p ∷ ps) = fill left (push_back result p) ps

abbrev pub page_of : ℕ → List PaymentOrder → Option String → PaymentPage
page_of limit sorted cursor =
    let (result, next) = fill limit [] (drop (start_idx cursor sorted) sorted) in
    record { payments = result; next_cursor = next; total_matching = length sorted }

-- `sort_unstable_by`
abbrev pub Sort : Type 0
Sort = (PaymentOrder → PaymentOrder → Ordering) → List PaymentOrder → List PaymentOrder

module _ (sort_unstable_by : Sort) where
  unfoldable pub build_page :
      List String
      → Option String
      → ℕ
      → Option PaymentFilter
      → SortField
      → SortOrder
      → World
      → PaymentPage
  build_page ids cursor limit filter sort_field sort_order w =
      page_of limit (sort_unstable_by (compare sort_field sort_order) (load filter ids w)) cursor

  unfoldable pub get_merchant_payment_history :
      Address
      → Option String
      → ℕ
      → Option PaymentFilter
      → SortField
      → SortOrder
      → Action PaymentPage
  unfolding require_valid_limit build_page
  get_merchant_payment_history merchant cursor limit filter sort_field sort_order = do
    require_auth merchant
    require_valid_limit limit
    ids ← gets (get_merchant_payment_ids merchant)
    gets (build_page ids cursor limit filter sort_field sort_order)

  unfoldable pub get_payer_payment_history :
      Address
      → Option String
      → ℕ
      → Option PaymentFilter
      → SortField
      → SortOrder
      → Action PaymentPage
  unfolding require_valid_limit build_page
  get_payer_payment_history payer cursor limit filter sort_field sort_order = do
    require_auth payer
    require_valid_limit limit
    ids ← gets (get_payer_payment_ids payer)
    gets (build_page ids cursor limit filter sort_field sort_order)
