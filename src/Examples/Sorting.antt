-- ===== src/Examples/Sorting.antt =====
-- Insertion sort, a concrete `sort_unstable_by`.
use lumenflow_contracts.Query.Pages.{less, equal, greater}
use lumenflow_contracts.Base.{
  Bool, Bool-cases, List, [], arith, false, if◌then◌else◌, inl, inr, nat_eq, string_eq, subst, sym,
  true, ◌∷◌, ◌≢◌,
}
use lumenflow_contracts.Query.History.{IsPreorder, IsSort}
use lumenflow_contracts.Query.Pages.{Ordering}
use lumenflow_contracts.Types.{PaymentOrder}
use mathlib.Core.List.{Mem, Pairwise, Perm, eq-or-mem_of_mem-cons, not-mem-nil}
use mathlib.Core.List.Perm
use mathlib.Core.Logic.Or
use mathlib.Core.HLevel.{¬_prop}

abbrev is_greater : Ordering → Bool
is_greater greater = true
is_greater less = false
is_greater equal = false

module _ (cmp : PaymentOrder → PaymentOrder → Ordering) where
  abbrev insert : PaymentOrder → List PaymentOrder → List PaymentOrder
  insert x [] = x ∷ []
  insert x (y ∷ ys) =
      let rest = insert x ys in if is_greater (cmp x y) then y ∷ rest else x ∷ y ∷ ys

  abbrev pub insertion_sort : List PaymentOrder → List PaymentOrder
  insertion_sort [] = []
  insertion_sort (x ∷ xs) = insert x (insertion_sort xs)

  insert-Perm : (x : PaymentOrder) (ys : List PaymentOrder) → Perm (insert x ys) (x ∷ ys)
  insert-Perm x [] = Perm.rfl
  insert-Perm x (y ∷ ys) = elim (Bool-cases (is_greater (cmp x y))) [
    | inl after_y ↦ rw after_y (Perm.trans (Perm.cons y (insert-Perm x ys)) (Perm.swap x y ys))
    | inr before_y ↦ rw before_y Perm.rfl
  ]

  insertion_sort-Perm : (xs : List PaymentOrder) → Perm (insertion_sort xs) xs
  insertion_sort-Perm [] = Perm.rfl
  insertion_sort-Perm (x ∷ xs) =
      Perm.trans (insert-Perm x (insertion_sort xs)) (Perm.cons x (insertion_sort-Perm xs))

  Sorted : List PaymentOrder → Type 0
  Sorted = Pairwise (λ a b. cmp a b ≢ greater)

  -- Whatever comes before both `x` and all of `ys` comes before what `insert` gives.
  Below : PaymentOrder → List PaymentOrder → Type 0
  Below a ys = (b : PaymentOrder) → Mem b ys → cmp a b ≢ greater

  Below-insert :
      (a x : PaymentOrder) (ys : List PaymentOrder)
      → cmp a x ≢ greater
      → Below a ys
      → Below a (insert x ys)
  unfolding Below
  Below-insert a x ys first rest b m =
      Or.elim ¬_prop (eq-or-mem_of_mem-cons ((Perm.mem_iff (insert-Perm x ys)).0 m))
        (λ same. subst (λ c. cmp a c ≢ greater) (sym same) first) (rest b)

  insert-Sorted :
      (x : PaymentOrder) (ys : List PaymentOrder)
      → IsPreorder cmp
      → Sorted ys
      → Sorted (insert x ys)
  unfolding Sorted Below
  insert-Sorted x [] order sorted = Pairwise.cons (λ b m. absurd (not-mem-nil m)) Pairwise.nil
  insert-Sorted x (y ∷ ys) order (Pairwise.cons below sorted) =
      elim (Bool-cases (is_greater (cmp x y))) [
        | inl after_y ↦
            let turned : cmp y x ≢ greater = ground (arith, order.reversed x y) in
            rw after_y
              (Pairwise.cons (Below-insert y x ys turned below) (insert-Sorted x ys order sorted))
        | inr before_y ↦
            let first : cmp x y ≢ greater = ground arith in
            rw before_y (
              Pairwise.cons
                (λ b m.
                  Or.elim ¬_prop (eq-or-mem_of_mem-cons m)
                    (λ same. subst (λ c. cmp x c ≢ greater) (sym same) first)
                    (λ later. order.transitive x y b first (below b later)))
                (Pairwise.cons below sorted))
      ]

  insertion_sort-Sorted : (xs : List PaymentOrder) → IsPreorder cmp → Sorted (insertion_sort xs)
  unfolding Sorted
  insertion_sort-Sorted [] order = Pairwise.nil
  insertion_sort-Sorted (x ∷ xs) order =
      insert-Sorted x (insertion_sort xs) order (insertion_sort-Sorted xs order)

pub insertion_sort-IsSort : IsSort insertion_sort
unfolding Sorted
insertion_sort-IsSort = record {
  permuted = insertion_sort-Perm;
  sorted = λ cmp xs order. insertion_sort-Sorted cmp xs order;
}
