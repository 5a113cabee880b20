-- ===== src/Base/Lists.antt =====
-- Lists over the native numbers: length, membership by the equality test, pushing at the end.
use lumenflow_contracts.Base.Tests.{nat_eq, string_eq, Eq, ◌==◌}
use Prim.Native.Nat.{ℕ, zero, suc, ◌+◌, ◌≤◌}
use mathlib.Core.Path.{ap, refl, ◌≡◌}
use mathlib.Core.Bool.{Bool, false, ◌||◌}
use mathlib.Core.List.{List, [], ◌∷◌, ◌++◌}
use native.Mathlib.Omega.{arith}

module _ {ℓ} {A : Type ℓ} where
  abbrev pub length : List A → ℕ
  length [] = 0
  length (x ∷ xs) = suc (length xs)

  abbrev pub take : ℕ → List A → List A
  take zero xs = []
  take (suc n) [] = []
  take (suc n) (x ∷ xs) = x ∷ take n xs

  abbrev pub drop : ℕ → List A → List A
  drop zero xs = xs
  drop (suc n) [] = []
  drop (suc n) (x ∷ xs) = drop n xs

  -- `Vec::push_back`
  abbrev pub push_back : List A → A → List A
  push_back xs x = xs ++ x ∷ []

  pub length-append : (xs ys : List A) → length (xs ++ ys) ≡ length xs + length ys
  length-append [] ys = omega arith
  length-append (x ∷ xs) ys = omega (arith, length-append xs ys)

  pub length-push_back : (xs : List A) (x : A) → length (push_back xs x) ≡ length xs + 1
  length-push_back xs x = omega (arith, length-append xs (x ∷ []))

  pub append_nil : (xs : List A) → xs ++ [] ≡ xs
  append_nil [] = refl
  append_nil (x ∷ xs) = ap (λ l. x ∷ l) (append_nil xs)

  pub push_back-append : (xs : List A) (x : A) (ys : List A) → push_back xs x ++ ys ≡ xs ++ x ∷ ys
  push_back-append [] x ys = refl
  push_back-append (y ∷ xs) x ys = ap (λ l. y ∷ l) (push_back-append xs x ys)

  pub append-push_back :
      (xs ys : List A) (a b : A) (zs : List A) → xs ++ a ∷ (ys ++ b ∷ zs) ≡ (xs ++ a ∷ ys) ++ b ∷ zs
  append-push_back [] ys a b zs = refl
  append-push_back (x ∷ xs) ys a b zs = ap (λ l. x ∷ l) (append-push_back xs ys a b zs)

  pub take-all : (n : ℕ) (xs : List A) → length xs ≤ n → take n xs ≡ xs
  take-all zero [] short = refl
  take-all zero (x ∷ xs) short = absurd (omega arith)
  take-all (suc n) [] short = refl
  take-all (suc n) (x ∷ xs) short = ap (λ l. x ∷ l) (take-all n xs (omega arith))

-- A predicate of every item.
abbrev pub All {ℓ κ} : {A : Type ℓ} → (A → Type κ) → List A → Type κ
All P [] = Unit
All P (x ∷ xs) = P x × All P xs

module _ {A : Type 0} ⦃e : Eq A⦄ where
  abbrev pub contains : List A → A → Bool
  contains [] a = false
  contains (x ∷ xs) a = x == a || contains xs a
