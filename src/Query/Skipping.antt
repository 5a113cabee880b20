-- ===== src/Query/Skipping.antt =====
-- Two pages of merchants in a row.
use lumenflow_contracts.Storage.{get_merchant}
use lumenflow_contracts.Base.{
  All, List, [], ap, append_nil, arith, eqb, eqb_iff, false, length, nat_eq, none, push_back,
  push_back-append, refl, some, string_eq, suc, take, true, zero, ℕ, ◌++◌, ◌∙◌, ◌∷◌, ◌≡◌,
}
use lumenflow_contracts.Query.Merchants.{
  addresses_of, build_merchant_page, fill_merchants, load_merchants, skip_merchants,
}
use lumenflow_contracts.Storage.{World}
use lumenflow_contracts.Types.{Merchant}
use mathlib.Core.List.{Mem, Nodup, Pairwise, mem-cons_of_mem, mem-cons_self}

-- Merchants that are stored under their own addresses.
abbrev pub Stored : World → List Merchant → Type 0
Stored w ms = All (λ m. get_merchant m.address w ≡ some m) ms

load_merchants_lem :
    (w : World) (ms : List Merchant) → Stored w ms → load_merchants (addresses_of ms) w ≡ ms
unfolding load_merchants
load_merchants_lem w [] stored = refl
load_merchants_lem w (m ∷ ms) (found, stored) =
    rw found (ap (λ l. m ∷ l) (load_merchants_lem w ms stored))

mem-addresses :
    (front : List Merchant) (m : Merchant) (rest : List Merchant)
    → Mem m.address (addresses_of (front ++ m ∷ rest))
mem-addresses [] m rest = mem-cons_self
mem-addresses (n ∷ front) m rest = mem-cons_of_mem n.address (mem-addresses front m rest)

skip_merchants_lem :
    (w : World) (front : List Merchant) (m : Merchant) (rest : List Merchant)
    → Nodup (addresses_of (front ++ m ∷ rest))
    → Stored w (front ++ m ∷ rest)
    → skip_merchants m.address (addresses_of (front ++ m ∷ rest)) w ≡ rest
unfolding skip_merchants
skip_merchants_lem w [] m rest distinct (_, stored) =
    let here : eqb m.address m.address ≡ true = ground (arith, eqb_iff m.address m.address) in
    rw here (load_merchants_lem w rest stored)
skip_merchants_lem w (n ∷ front) m rest (Pairwise.cons apart distinct) (_, stored) =
    let differ = apart m.address (mem-addresses front m rest) in
    let elsewhere : eqb m.address n.address ≡ false = ground (arith, eqb_iff m.address n.address) in
    rw elsewhere (skip_merchants_lem w front m rest distinct stored)

fill_merchants-cut :
    (front result : List Merchant) (m : Merchant) (rest : List Merchant)
    → fill_merchants (length front) result (front ++ m ∷ rest) ≡ (result ++ front, some m.address)
unfolding fill_merchants
fill_merchants-cut [] result m rest = rw (append_nil result) refl
fill_merchants-cut (n ∷ front) result m rest =
    fill_merchants-cut front (push_back result n) m rest
    ∙ ap (λ l. (l, some m.address)) (push_back-append result n front)

fill_merchants-take :
    (left : ℕ) (result rest : List Merchant)
    → (fill_merchants left result rest).0 ≡ result ++ take left rest
unfolding fill_merchants
fill_merchants-take zero result [] = rw (append_nil result) refl
fill_merchants-take (suc left) result [] = rw (append_nil result) refl
fill_merchants-take zero result (m ∷ ms) = rw (append_nil result) refl
fill_merchants-take (suc left) result (m ∷ ms) =
    fill_merchants-take left (push_back result m) ms ∙ push_back-append result m (take left ms)

-- If the list of merchants has no address twice and each is stored under its address, and there are
-- more than the limit, then the first page holds the first merchants, as many as the limit allows, and
-- its cursor names the merchant `m` that comes next; but the page that this cursor asks for starts
-- after `m`. So neither page shows `m`.
pub build_merchant_page-skips :
    (w : World) (front : List Merchant) (m : Merchant) (rest : List Merchant)
    → Nodup (addresses_of (front ++ m ∷ rest))
    → Stored w (front ++ m ∷ rest)
    → let addresses = addresses_of (front ++ m ∷ rest) in
      let first = build_merchant_page addresses none (length front) w in
      let second = build_merchant_page addresses first.next_cursor (length front) w in
      (first.merchants ≡ front)
      × (first.next_cursor ≡ some m.address)
      × (second.merchants ≡ take (length front) rest)
      × (second.total ≡ length rest)
unfolding build_merchant_page
build_merchant_page-skips w front m rest distinct stored =
    let all = load_merchants_lem w (front ++ m ∷ rest) stored in
    let cut = fill_merchants-cut front [] m rest in
    let skipped = skip_merchants_lem w front m rest distinct stored in
    let later = fill_merchants-take (length front) [] rest in
    (
      rw all (rw cut refl),
      rw all (rw cut refl),
      rw all (rw cut (rw skipped later)),
      rw all (rw cut (rw skipped refl)),
    )
