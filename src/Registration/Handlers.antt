-- ===== src/Registration/Handlers.antt =====
-- contracts/lumenflow/src/lib.rs: registering a merchant, at once or by commitment and reveal, and
-- changing the merchant's record.
use lumenflow_contracts.Action.{
  Action, Done, add_u32, ask, fail, fail_if, gets, modify, or_fail, publish, pure, require_auth,
  when, ◌>>=◌, ◌>>◌,
}
use lumenflow_contracts.Base.{
  Bool, Option, String, [], eqb, false, is_some, ltb, nat_eq, none, not, some, string_eq, true, ℕ,
  ◌&&◌, ◌++◌, ◌-◌, ◌||◌, ◌∷◌,
}
use lumenflow_contracts.Base.Dict.{del, lookup, put}
use lumenflow_contracts.Base.Int.{pos}
use lumenflow_contracts.Guards.{
  require_admin_rate_limited, require_non_empty_string, require_not_paused,
  validate_merchant_category,
}
use lumenflow_contracts.Host.{
  Env, merchant_committed, merchant_deactivated, merchant_reactivated, merchant_referred,
  merchant_registered, merchant_unverified, merchant_updated, merchant_verified,
}
use lumenflow_contracts.Storage.{
  World, add_to_merchant_list, get_global_stats, get_merchant, set_global_stats, set_merchant,
}
use lumenflow_contracts.Types.{
  Address, Bytes, Merchant, MerchantCategory, MerchantCommitment, commitment_already_exists,
  commitment_expired, commitment_hash_mismatch, commitment_not_found, invalid_input,
  invalid_referral, merchant_already_registered, merchant_inactive, merchant_not_found,
}

abbrev pub commitment_ttl_ledgers : ℕ
commitment_ttl_ledgers = 100

abbrev pub get_merchant_commitment : Address → World → Option MerchantCommitment
get_merchant_commitment a w = lookup a w.people.merchant_commitments

abbrev pub set_merchant_commitment : MerchantCommitment → World → World
set_merchant_commitment c w = record w {
  people = record (w.people) {
    merchant_commitments = put c.merchant_address c w.people.merchant_commitments;
  };
}

abbrev pub remove_merchant_commitment : Address → World → World
remove_merchant_commitment a w = record w {
  people = record (w.people) { merchant_commitments = del a w.people.merchant_commitments };
}

abbrev pub new_commitment : Address → Bytes → ℕ → MerchantCommitment
new_commitment address hash seq = record {
  merchant_address = address;
  commitment_hash = hash;
  committed_at_ledger = seq;
}

unfoldable pub commit_merchant_registration : Address → Bytes → Action Done
unfolding require_not_paused
commit_merchant_registration address hash = do
  require_not_paused
  require_auth address
  known ← gets (get_merchant address)
  fail_if (is_some known) merchant_already_registered
  existing ← gets (get_merchant_commitment address)
  fail_if (is_some existing) commitment_already_exists
  env ← ask
  modify (set_merchant_commitment (new_commitment address hash env.sequence))
  publish (merchant_committed address)

abbrev pub new_merchant : Address → String → String → String → MerchantCategory → ℕ → Merchant
new_merchant address name description contact_info category now = record {
  address = address;
  name = name;
  description = description;
  contact_info = contact_info;
  category = category;
  active = true;
  verified = false;
  registered_at = now;
  total_received = pos 0;
  referral_count = 0;
}

-- `stats.active_merchants += 1`
abbrev pub count_active : Action Done
count_active = do
  stats ← gets get_global_stats
  active ← add_u32 stats.active_merchants 1
  modify (set_global_stats (record stats { active_merchants = active }))

-- The hash of what is revealed.
abbrev pub revealed_hash : Address → String → Bytes → Env → Bytes
revealed_hash address name nonce env =
    env.sha256 (env.address_xdr address ++ env.string_xdr name ++ nonce)

abbrev pub same_bytes : Bytes → Bytes → Bool
same_bytes [] [] = true
same_bytes [] (y ∷ ys) = false
same_bytes (x ∷ xs) [] = false
same_bytes (x ∷ xs) (y ∷ ys) = eqb x y && same_bytes xs ys

-- An expired commitment is removed before the error, and the host undoes that with the error.
unfoldable pub drop_commitment : Address → Action Done
drop_commitment address = do modify (remove_merchant_commitment address); fail commitment_expired

unfoldable pub reveal_merchant_registration :
    Address → String → String → String → MerchantCategory → Bytes → Action Done
unfolding require_not_paused require_non_empty_string validate_merchant_category drop_commitment
reveal_merchant_registration address name description contact_info category nonce = do
  require_not_paused
  require_auth address
  require_non_empty_string name
  validate_merchant_category category
  known ← gets (get_merchant address)
  fail_if (is_some known) merchant_already_registered
  pending_commitment ← gets (get_merchant_commitment address)
  commitment ← or_fail pending_commitment commitment_not_found
  env ← ask
  when (ltb commitment_ttl_ledgers (env.sequence - commitment.committed_at_ledger))
      (drop_commitment address)
  fail_if (not (same_bytes (revealed_hash address name nonce env) commitment.commitment_hash))
      commitment_hash_mismatch
  modify (remove_merchant_commitment address)
  modify (set_merchant (new_merchant address name description contact_info category env.timestamp))
  modify (add_to_merchant_list address)
  count_active
  publish (merchant_registered address)

-- A referral must name another, known merchant.
abbrev pub is_bad_referral : Option Address → Address → World → Bool
is_bad_referral none address w = false
is_bad_referral (some r) address w = eqb r address || not (is_some (get_merchant r w))

-- The referrer's count, if there is a referrer.
unfoldable pub count_referral : Option Address → Address → Action Done
count_referral none address = pure tt
count_referral (some r) address = do
  found ← gets (get_merchant r)
  referrer ← or_fail found invalid_referral
  count ← add_u32 referrer.referral_count 1
  modify (set_merchant (record referrer { referral_count = count }))
  publish (merchant_referred address r)

unfoldable pub register_merchant :
    Address → String → String → String → MerchantCategory → Option Address → Action Done
unfolding require_not_paused require_non_empty_string validate_merchant_category count_referral
register_merchant address name description contact_info category referral_id = do
  require_not_paused
  require_auth address
  require_non_empty_string name
  validate_merchant_category category
  known ← gets (get_merchant address)
  fail_if (is_some known) merchant_already_registered
  bad ← gets (is_bad_referral referral_id address)
  fail_if bad invalid_referral
  env ← ask
  modify (set_merchant (new_merchant address name description contact_info category env.timestamp))
  modify (add_to_merchant_list address)
  count_active
  count_referral referral_id address
  publish (merchant_registered address)

unfoldable pub update_merchant : Address → String → String → String → MerchantCategory → Action Done
unfolding require_non_empty_string validate_merchant_category
update_merchant address name description contact_info category = do
  require_auth address
  require_non_empty_string name
  validate_merchant_category category
  known ← gets (get_merchant address)
  m ← or_fail known merchant_not_found
  fail_if (not m.active) merchant_inactive
  modify (
      set_merchant (record m {
        name = name;
        description = description;
        contact_info = contact_info;
        category = category;
      }))
  publish (merchant_updated address)

unfoldable pub deactivate_merchant : Address → Address → Action Done
unfolding require_not_paused require_admin_rate_limited
deactivate_merchant admin address = do
  require_not_paused
  require_admin_rate_limited admin
  known ← gets (get_merchant address)
  m ← or_fail known merchant_not_found
  modify (set_merchant (record m { active = false }))
  stats ← gets get_global_stats
  modify (set_global_stats (record stats { active_merchants = stats.active_merchants - 1 }))
  publish (merchant_deactivated address)

unfoldable pub reactivate_merchant : Address → Address → Action Done
unfolding require_not_paused require_admin_rate_limited
reactivate_merchant admin address = do
  require_not_paused
  require_admin_rate_limited admin
  known ← gets (get_merchant address)
  m ← or_fail known merchant_not_found
  fail_if m.active invalid_input
  modify (set_merchant (record m { active = true }))
  count_active
  publish (merchant_reactivated address)

unfoldable pub verify_merchant : Address → Address → Action Done
unfolding require_admin_rate_limited
verify_merchant admin address = do
  require_admin_rate_limited admin
  known ← gets (get_merchant address)
  m ← or_fail known merchant_not_found
  modify (set_merchant (record m { verified = true }))
  publish (merchant_verified address)

unfoldable pub unverify_merchant : Address → Address → Action Done
unfolding require_not_paused require_admin_rate_limited
unverify_merchant admin address = do
  require_not_paused
  require_admin_rate_limited admin
  known ← gets (get_merchant address)
  m ← or_fail known merchant_not_found
  modify (set_merchant (record m { verified = false }))
  publish (merchant_unverified address)
