-- ===== src/Registration/Commitment.antt =====
-- Registering by commitment and reveal.
use lumenflow_contracts.Action.{left_by, ok, u32_max}
use lumenflow_contracts.Base.{
  String, [], arith, false, len, nat_eq, none, refl, some, string_eq, true, ◌+◌, ◌∷◌, ◌≡◌, ◌≤◌,
}
use lumenflow_contracts.Base.Dict.{lookup-del, lookup-put_self}
use lumenflow_contracts.Host.{Env}
use lumenflow_contracts.Registration.Handlers.{
  commit_merchant_registration, commitment_ttl_ledgers, get_merchant_commitment, new_commitment,
  new_merchant, reveal_merchant_registration, revealed_hash, same_bytes,
}
use lumenflow_contracts.Guards.{validate_merchant_category}
use lumenflow_contracts.Storage.{World, get_global_stats, get_merchant, get_paused}
use lumenflow_contracts.Types.{Address, Bytes, MerchantCategory}

same_bytes_refl : (b : Bytes) → same_bytes b b ≡ true
same_bytes_refl [] = refl
same_bytes_refl (x ∷ xs) = ground (arith, same_bytes_refl xs)

-- A category that is one of the fixed ones, or a name of its own of 1 to 64 bytes.
abbrev pub IsCategory : MerchantCategory → Type 0
IsCategory (MerchantCategory.custom s) = (1 ≤ len s) × (len s ≤ 64)
IsCategory _ = Unit

validate_merchant_category-IsCategory :
    (category : MerchantCategory) (env : Env) (w : World)
    → IsCategory category
    → validate_merchant_category category env w ≡ ok tt w
unfolding validate_merchant_category
validate_merchant_category-IsCategory (MerchantCategory.custom s) env w h = ground arith
validate_merchant_category-IsCategory _ env w h = refl

-- A commitment to the hash of a name and a nonce can be revealed for a hundred ledgers: if the
-- address signs, has no merchant, the contract runs, the name is not empty, the category is a fixed one
-- or a name of 1 to 64 bytes, and the count of merchants fits its type, revealing the name and the
-- nonce registers the merchant with this category and uses the commitment up.
pub reveal_commitment :
    (a : Address) (name description contact : String) (category : MerchantCategory) (nonce : Bytes)
    (env later : Env) (w w' : World)
    → commit_merchant_registration a (revealed_hash a name nonce later) env w ≡ ok tt w'
    → get_paused w ≡ false
    → later.authorized a ≡ true
    → 1 ≤ len name
    → IsCategory category
    → later.sequence ≤ env.sequence + commitment_ttl_ledgers
    → (get_global_stats w).active_merchants + 1 ≤ u32_max
    → (v : World) × (reveal_merchant_registration a name description contact category nonce later w'
        ≡ ok tt v)
      × (get_merchant a v ≡ some (new_merchant a name description contact category later.timestamp))
      × (get_merchant_commitment a v ≡ none)
unfolding commit_merchant_registration reveal_merchant_registration
reveal_commitment a name description contact category nonce env later w w' done running signed long
      fits soon room =
    let c = new_commitment a (revealed_hash a name nonce later) env.sequence in
    let m = new_merchant a name description contact category later.timestamp in
    let kept : get_merchant_commitment a w' ≡ some c =
      ground (arith, lookup-put_self a c w.people.merchant_commitments) in
    let checked = validate_merchant_category-IsCategory category later w' fits in
    let same = same_bytes_refl (revealed_hash a name nonce later) in
    (
      left_by w' (reveal_merchant_registration a name description contact category nonce later w'),
      ground (arith, kept, checked, same),
      ground (arith, kept, checked, same, lookup-put_self a m w.people.merchants),
      ground (arith, kept, checked, same, lookup-del a a w'.people.merchant_commitments),
    )
