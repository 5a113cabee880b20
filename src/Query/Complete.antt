-- ===== src/Query/Complete.antt =====
-- The histories of merchants and payers, read to the end.
use lumenflow_contracts.Base.{
  arith, refl, subst, ◌-◌, List, Option, String, length, nat_eq, none, some, string_eq, suc, true,
  ℕ, ◌≡◌, ◌≢◌, ◌≤◌,
}
use lumenflow_contracts.Guards.{require_valid_limit}
use lumenflow_contracts.Host.{Env}
use lumenflow_contracts.Query.Pages.{
  build_page, get_merchant_payment_history, get_payer_payment_history, compare, greater, load, Sort,
}
use lumenflow_contracts.Query.Walk.{From, read_pages-From, Pages, read_pages}
use lumenflow_contracts.Storage.{
  get_merchant_payment_ids, get_payer_payment_ids, World, get_payment,
}
use lumenflow_contracts.Types.{Address, PaymentOrder}
use lumenflow_contracts.Action.{Outcome}
use lumenflow_contracts.Query.Filter.{
  PaymentFilter, PaymentPage, SortField, SortOrder, matches_filter,
}
use lumenflow_contracts.Query.History.{IsSort, OwnIds, compare-IsPreorder, load-Nodup, load-all}
use lumenflow_contracts.Query.Split.{order_ids}
use mathlib.Core.List.{Mem, Nodup, Pairwise, Perm}
use mathlib.Core.List.Perm

-- The payments of an index in the order of the query.
abbrev pub in_query_order :
    Sort → List String → Option PaymentFilter → SortField → SortOrder → World → List PaymentOrder
in_query_order sort ids filter field order w = sort (compare field order) (load filter ids w)

-- A client that reads the pages of a query of an index to their end gets a list of the index's
-- payments that pass the filter, each once, none missing and in order; as many pages as there are
-- payments, and one, are enough.
pub record IsWholeHistory (query : Option String → Outcome PaymentPage) (ids : List String)
    (filter : Option PaymentFilter) (field : SortField) (order : SortOrder) (w : World)
    (xs : List PaymentOrder) : Type 0 where
  pub ends : read_pages query (suc (length xs)) none ≡ some xs
  pub matching : Perm xs (load filter ids w)
  pub once : Nodup (order_ids xs)
  pub complete :
      (id : String) (p : PaymentOrder)
      → Mem id ids
      → get_payment id w ≡ some p
      → matches_filter filter p ≡ true
      → Mem p xs
  pub ordered : Pairwise (λ a b. compare field order a b ≢ greater) xs

module _ (sort : Sort) (is_sort : IsSort sort) (limit : ℕ) (filter : Option PaymentFilter)
    (field : SortField) (order : SortOrder) (w : World) (own : OwnIds w) (room : 1 ≤ limit) where
  sorted-Nodup :
      (ids : List String)
      → Nodup ids
      → Nodup (order_ids (in_query_order sort ids filter field order w))
  sorted-Nodup ids distinct =
      Perm.nodup
        (Perm.symm
          (Perm.map (λ p. p.order_id) (is_sort.permuted (compare field order) (load filter ids w))))
        (load-Nodup filter ids w own distinct)

  query-IsWholeHistory :
      (ids : List String) (query : Option String → Outcome PaymentPage)
      → Nodup ids
      → Pages limit (in_query_order sort ids filter field order w) query
      → IsWholeHistory query ids filter field order w (in_query_order sort ids filter field order w)
  query-IsWholeHistory ids query distinct pages =
      let xs = in_query_order sort ids filter field order w in
      let same : limit ≡ suc (limit - 1) = omega arith in
      let permuted = is_sort.permuted (compare field order) (load filter ids w) in
      record {
        ends =
            read_pages-From (limit - 1) xs query (subst (λ n. Pages n xs query) same pages)
              (sorted-Nodup ids distinct) (suc (length xs)) none xs (From.from_start refl)
              (omega arith);
        matching = permuted;
        once = sorted-Nodup ids distinct;
        complete = λ id p member found passed.
            (Perm.mem_iff permuted).1 (load-all filter ids w id p member found passed);
        ordered = is_sort.sorted _ _ (compare-IsPreorder field order);
      }

merchant_Pages :
    (sort : Sort) (account : Address) (limit : ℕ) (filter : Option PaymentFilter)
    (field : SortField) (order : SortOrder) (env : Env) (w : World)
    → env.authorized account ≡ true
    → 1 ≤ limit
    → limit ≤ 100
    → Pages limit
        (in_query_order sort (get_merchant_payment_ids account w) filter field order w)
        (λ cursor. get_merchant_payment_history sort account cursor limit filter field order env w)
unfolding get_merchant_payment_history build_page require_valid_limit
merchant_Pages sort account limit filter field order env w signed room bounded cursor =
    (w, ground arith)

payer_Pages :
    (sort : Sort) (account : Address) (limit : ℕ) (filter : Option PaymentFilter)
    (field : SortField) (order : SortOrder) (env : Env) (w : World)
    → env.authorized account ≡ true
    → 1 ≤ limit
    → limit ≤ 100
    → Pages limit
        (in_query_order sort (get_payer_payment_ids account w) filter field order w)
        (λ cursor. get_payer_payment_history sort account cursor limit filter field order env w)
unfolding get_payer_payment_history build_page require_valid_limit
payer_Pages sort account limit filter field order env w signed room bounded cursor =
    (w, ground arith)

-- Let the sort be one that permutes and sorts, every payment be stored under its own id, and the index
-- of an account hold no id twice. If the account has signed and the limit is at least 1 and at most
-- 100, then reading the pages of the account's history as a merchant, or as a payer, each from the
-- cursor that the one before gave, ends; together the pages hold every payment of the index that
-- passes the filter, once each and nothing else, in the order that was asked for.
pub get_payment_history_lem :
    (sort : Sort) (account : Address) (limit : ℕ) (filter : Option PaymentFilter)
    (field : SortField) (order : SortOrder) (env : Env) (w : World)
    → IsSort sort
    → OwnIds w
    → Nodup (get_merchant_payment_ids account w)
    → Nodup (get_payer_payment_ids account w)
    → env.authorized account ≡ true
    → 1 ≤ limit
    → limit ≤ 100
    → ((xs : List PaymentOrder) × IsWholeHistory
          (λ cursor.
            get_merchant_payment_history sort account cursor limit filter field order env w)
          (get_merchant_payment_ids account w)
          filter
          field
          order
          w
          xs)
      × ((xs : List PaymentOrder) × IsWholeHistory
            (λ cursor. get_payer_payment_history sort account cursor limit filter field order env w)
            (get_payer_payment_ids account w)
            filter
            field
            order
            w
            xs)
get_payment_history_lem sort account limit filter field order env w is_sort own merchant_ids
      payer_ids signed room bounded =
    let history = query-IsWholeHistory sort is_sort limit filter field order w own room in
    let merchant_pages =
      merchant_Pages sort account limit filter field order env w signed room bounded in
    let payer_pages = payer_Pages sort account limit filter field order env w signed room bounded in
    ((_, history _ _ merchant_ids merchant_pages), (_, history _ _ payer_ids payer_pages))
