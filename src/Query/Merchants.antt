-- ===== src/Query/Merchants.antt =====
-- contracts/lumenflow/src/lib.rs, `get_merchants` and `build_merchant_page`.
use lumenflow_contracts.Action.{Action, gets, ◌>>=◌, ◌>>◌}
use lumenflow_contracts.Base.{
  List, Option, [], eqb, if◌then◌else◌, length, map, nat_eq, none, push_back, some, string_eq, suc,
  zero, ℕ, ◌∷◌,
}
use lumenflow_contracts.Guards.{require_admin_rate_limited, require_valid_limit}
use lumenflow_contracts.Storage.{get_merchant, World, get_merchant_list}
use lumenflow_contracts.Types.{Address, Merchant}

pub record MerchantPage : Type 0 where
  pub merchants : List Merchant
  pub next_cursor : Option Address
  pub total : ℕ

abbrev pub keep_merchant : Option Merchant → List Merchant → List Merchant
keep_merchant none rest = rest
keep_merchant (some m) rest = m ∷ rest

-- The loop once `skip` is false.
unfoldable pub load_merchants : List Address → World → List Merchant
load_merchants [] w = []
load_merchants (a ∷ addresses) w = keep_merchant (get_merchant a w) (load_merchants addresses w)

-- The loop while `skip` is true: up to the cursor, the cursor included.
unfoldable pub skip_merchants : Address → List Address → World → List Merchant
skip_merchants cursor [] w = []
skip_merchants cursor (a ∷ addresses) w =
    let rest = skip_merchants cursor addresses w in
    if eqb cursor a then load_merchants addresses w else rest

abbrev pub merchants_from : Option Address → List Address → World → List Merchant
merchants_from none addresses w = load_merchants addresses w
merchants_from (some cursor) addresses w = skip_merchants cursor addresses w

-- The loop that fills the page, with room for `left` more.
unfoldable pub fill_merchants : ℕ → List Merchant → List Merchant → List Merchant × Option Address
fill_merchants left result [] = (result, none)
fill_merchants zero result (m ∷ ms) = (result, some m.address)
fill_merchants (suc left) result (m ∷ ms) = fill_merchants left (push_back result m) ms

unfoldable pub build_merchant_page : List Address → Option Address → ℕ → World → MerchantPage
build_merchant_page addresses cursor limit w =
    let merchants = merchants_from cursor addresses w in
    let (result, next) = fill_merchants limit [] merchants in
    record { merchants = result; next_cursor = next; total = length merchants }

unfoldable pub get_merchants : Address → Option Address → ℕ → Action MerchantPage
unfolding require_admin_rate_limited require_valid_limit build_merchant_page
get_merchants admin cursor limit = do
  require_admin_rate_limited admin
  require_valid_limit limit
  addresses ← gets get_merchant_list
  gets (build_merchant_page addresses cursor limit)

abbrev pub addresses_of : List Merchant → List Address
addresses_of = map (λ m. m.address)
