-- ===== src/Query/History.antt =====
-- What the pages of a history hold, read to the end.
use lumenflow_contracts.Base.{
  Bool-cases, List, Option, String, [], arith, inl, inr, nat_eq, none, refl, some, string_eq, subst,
  sym, true, ◌∙◌, ◌∷◌, ◌≡◌, ◌≢◌, ◌⊎◌,
}
use lumenflow_contracts.Query.Filter.{
  date, ascending, descending, PaymentFilter, SortField, SortOrder, matches_filter,
}
use lumenflow_contracts.Query.Pages.{
  compare, greater, reverse, load, Ordering, Sort, keep_if_matching,
}
use lumenflow_contracts.Query.Split.{order_ids}
use lumenflow_contracts.Storage.{World, get_payment}
use lumenflow_contracts.Types.{PaymentOrder}
use mathlib.Core.List.{
  Mem, Mem-prop, Nodup, Pairwise, Perm, eq-or-mem_of_mem-cons, mem-cons_of_mem, mem-cons_self,
  not-mem-nil,
}
use mathlib.Core.Logic.Or

-- What `sort_unstable_by` documents: it permutes its input, and if the comparison is a total preorder
-- then nothing comes before something smaller.
pub record IsPreorder (cmp : PaymentOrder → PaymentOrder → Ordering) : Type 0 where
  pub reversed : (a b : PaymentOrder) → cmp b a ≡ reverse (cmp a b)
  pub transitive :
      (a b c : PaymentOrder) → cmp a b ≢ greater → cmp b c ≢ greater → cmp a c ≢ greater

pub record IsSort (sort : Sort) : Type 0 where
  pub permuted :
      (cmp : PaymentOrder → PaymentOrder → Ordering) (xs : List PaymentOrder)
      → Perm (sort cmp xs) xs
  pub sorted :
      (cmp : PaymentOrder → PaymentOrder → Ordering) (xs : List PaymentOrder)
      → IsPreorder cmp
      → Pairwise (λ a b. cmp a b ≢ greater) (sort cmp xs)

compare-reversed :
    (field : SortField) (order : SortOrder) (a b : PaymentOrder)
    → compare field order b a ≡ reverse (compare field order a b)
compare-reversed date ascending a b = ground arith
compare-reversed date descending a b = ground arith
compare-reversed SortField.amount ascending a b = ground arith
compare-reversed SortField.amount descending a b = ground arith

compare-transitive :
    (field : SortField) (order : SortOrder) (a b c : PaymentOrder)
    → compare field order a b ≢ greater
    → compare field order b c ≢ greater
    → compare field order a c ≢ greater
compare-transitive date ascending a b c = ground arith
compare-transitive date descending a b c = ground arith
compare-transitive SortField.amount ascending a b c = ground arith
compare-transitive SortField.amount descending a b c = ground arith

-- The comparisons that the queries sort by are total preorders.
pub compare-IsPreorder : (field : SortField) (order : SortOrder) → IsPreorder (compare field order)
compare-IsPreorder field order = record {
  reversed = compare-reversed field order;
  transitive = compare-transitive field order;
}

keep_cases :
    (filter : Option PaymentFilter) (o : Option PaymentOrder) (rest : List PaymentOrder)
    → (keep_if_matching filter o rest ≡ rest)
      ⊎ ((p : PaymentOrder) × (o ≡ some p) × (keep_if_matching filter o rest ≡ p ∷ rest))
keep_cases filter none rest = inl refl
keep_cases filter (some p) rest = elim (Bool-cases (matches_filter filter p)) [
  | inl passed ↦ inr (p, refl, rw passed refl)
  | inr failed ↦ inl (rw failed refl)
]

-- Every payment is stored under its own id.
abbrev pub OwnIds : World → Type 0
OwnIds w = (id : String) (p : PaymentOrder) → get_payment id w ≡ some p → p.order_id ≡ id

load-ids :
    (filter : Option PaymentFilter) (ids : List String) (w : World) (x : String)
    → OwnIds w
    → Mem x (order_ids (load filter ids w))
    → Mem x ids
unfolding load
load-ids filter [] w x own m = absurd (not-mem-nil m)
load-ids filter (id ∷ ids) w x own m =
    elim (keep_cases filter (get_payment id w) (load filter ids w)) [
      | inl out ↦
          mem-cons_of_mem id (load-ids filter ids w x own (subst (λ l. Mem x (order_ids l)) out m))
      | inr (p, found, kept) ↦
          Or.elim Mem-prop (eq-or-mem_of_mem-cons (subst (λ l. Mem x (order_ids l)) kept m))
            (λ here. subst (λ y. Mem y (id ∷ ids)) (sym (here ∙ own id p found)) mem-cons_self)
            (λ later. mem-cons_of_mem id (load-ids filter ids w x own later))
    ]

pub load-Nodup :
    (filter : Option PaymentFilter) (ids : List String) (w : World)
    → OwnIds w
    → Nodup ids
    → Nodup (order_ids (load filter ids w))
unfolding load
load-Nodup filter [] w own distinct = Pairwise.nil
load-Nodup filter (id ∷ ids) w own (Pairwise.cons apart distinct) =
    elim (keep_cases filter (get_payment id w) (load filter ids w)) [
      | inl out ↦ rw out (load-Nodup filter ids w own distinct)
      | inr (p, found, kept) ↦ rw kept (
          Pairwise.cons
            (λ x m same. apart x (load-ids filter ids w x own m) (sym (own id p found) ∙ same))
            (load-Nodup filter ids w own distinct))
    ]

pub load-all :
    (filter : Option PaymentFilter) (ids : List String) (w : World) (id : String) (p : PaymentOrder)
    → Mem id ids
    → get_payment id w ≡ some p
    → matches_filter filter p ≡ true
    → Mem p (load filter ids w)
unfolding load
load-all filter [] w id p m found passed = absurd (not-mem-nil m)
load-all filter (i ∷ ids) w id p m found passed =
    Or.elim Mem-prop (eq-or-mem_of_mem-cons m)
      (λ here.
        let at_head : get_payment i w ≡ some p = subst (λ k. get_payment k w ≡ some p) here found in
        rw at_head (rw passed mem-cons_self))
      (λ later. elim (keep_cases filter (get_payment i w) (load filter ids w)) [
        | inl out ↦ rw out (load-all filter ids w id p later found passed)
        | inr (q, _, kept) ↦
            rw kept (mem-cons_of_mem q (load-all filter ids w id p later found passed))
      ])
