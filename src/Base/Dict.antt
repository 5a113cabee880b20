-- ===== src/Base/Dict.antt =====
-- The entries of one kind in the contract's storage: an association list without repeated keys.
use lumenflow_contracts.Base.Tests.{
  ==_eq, nat_eq, string_eq, Eq, ◌==◌, ==_refl, if◌then◌else◌, Bool-cases,
}
use mathlib.Core.Option.{Option, none, some}
use mathlib.Core.Path.{subst, ◌≡◌, refl}
use mathlib.Core.Logic.{inl, inr}
use mathlib.Core.List.{List, [], ◌∷◌}
use native.Mathlib.Omega.{arith}
use lumenflow_contracts.Base.Int.{ℤ, pos, ◌+ℤ◌, int_laws}

abbrev pub Dict : Type 0 → Type 0 → Type 0
Dict K V = List (K × V)

module _ {K V : Type 0} ⦃e : Eq K⦄ where
  -- `storage().get(key)`
  unfoldable pub lookup : K → Dict K V → Option V
  lookup k [] = none
  lookup k ((j, v) ∷ d) = if j == k then some v else lookup k d

  -- `storage().set(key, value)`
  unfoldable pub put : K → V → Dict K V → Dict K V
  put k v [] = (k, v) ∷ []
  put k v ((j, w) ∷ d) = if j == k then (k, v) ∷ d else (j, w) ∷ put k v d

  -- `storage().remove(key)`
  unfoldable pub del : K → Dict K V → Dict K V
  del k [] = []
  del k ((j, w) ∷ d) = if j == k then del k d else (j, w) ∷ del k d

  pub lookup-put_self : (k : K) (v : V) (d : Dict K V) → lookup k (put k v d) ≡ some v
  unfolding lookup put
  lookup-put_self k v [] = rw (==_refl k) refl
  lookup-put_self k v ((j, w) ∷ d) = elim (Bool-cases (j == k)) [
    | inl hit ↦ rw hit (rw (==_refl k) refl)
    | inr miss ↦ rw miss (rw miss (lookup-put_self k v d))
  ]

  pub lookup-put :
      (j k : K) (v : V) (d : Dict K V)
      → lookup j (put k v d) ≡ (if k == j then some v else lookup j d)
  unfolding lookup put
  lookup-put j k v [] = refl
  lookup-put j k v ((i, w) ∷ d) =
      ground (arith, lookup-put j k v d, e.beq_iff i k, e.beq_iff k j, e.beq_iff i j)

  pub lookup-del :
      (j k : K) (d : Dict K V) → lookup j (del k d) ≡ (if k == j then none else lookup j d)
  unfolding lookup del
  lookup-del j k [] = ground arith
  lookup-del j k ((i, w) ∷ d) =
      ground (arith, lookup-del j k d, e.beq_iff i k, e.beq_iff k j, e.beq_iff i j)

  -- The sum of a measure over the entries.
  unfoldable pub total : (V → ℤ) → Dict K V → ℤ
  total f [] = pos 0
  total f ((_, v) ∷ d) = f v +ℤ total f d

  pub total-put :
      (f : V → ℤ) (k : K) (v old : V) (d : Dict K V)
      → lookup k d ≡ some old
      → total f (put k v d) +ℤ f old ≡ total f d +ℤ f v
  unfolding lookup put total
  total-put f k v old [] h = cc
  total-put f k v old ((i, w) ∷ d) h = grind (int_laws, total-put f k v old d)

  pub total-put_new :
      (f : V → ℤ) (k : K) (v : V) (d : Dict K V)
      → lookup k d ≡ none
      → total f (put k v d) ≡ total f d +ℤ f v
  unfolding lookup put total
  total-put_new f k v [] h = omega int_laws
  total-put_new f k v ((i, w) ∷ d) h = grind (int_laws, total-put_new f k v d)

-- A property of every entry.
pub Entries : {K V : Type 0} ⦃e : Eq K⦄ → (K → V → Type 0) → Dict K V → Type 0
Entries {K} {V} P d = (k : K) (v : V) → lookup k d ≡ some v → P k v

pub Entries-lookup :
    {K V : Type 0} ⦃e : Eq K⦄ (P : K → V → Type 0) (k : K) (v : V) (d : Dict K V)
    → Entries P d
    → lookup k d ≡ some v
    → P k v
unfolding Entries
Entries-lookup P k v d all found = all k v found

pub put-Entries :
    {K V : Type 0} ⦃e : Eq K⦄ (P : K → V → Type 0) (k : K) (v : V) (d : Dict K V)
    → P k v
    → Entries P d
    → Entries P (put k v d)
unfolding Entries
put-Entries {V = V} P k v d new old j u found = elim (Bool-cases (k == j)) [
  | inl same ↦
      let value : v ≡ u = ground (arith, lookup-put j k v d) in
      subst (λ i. P i u) (==_eq k j same) (subst (P k) value new)
  | inr differ ↦ old j u (ground (arith, lookup-put j k v d))
]

pub Entries-nil : {K V : Type 0} ⦃e : Eq K⦄ (P : K → V → Type 0) → Entries P []
unfolding Entries lookup
Entries-nil P k v found = cc
