-- ===== src/Guards/Checks.antt =====
-- contracts/lumenflow/src/helper.rs.
use lumenflow_contracts.Action.{
  ask, Action, Done, ◌>>=◌, ◌>>◌, pure, fail, fail_if, gets, modify, when, require_auth, publish,
}
use lumenflow_contracts.Types.{
  Address, unauthorized, auth_locked_out, contract_paused, invalid_amount, invalid_input,
  refund_below_minimum, pagination_limit_exceeded, invalid_order_id, order_id_too_long,
  invalid_tags, invalid_category, many_auth_failures, MerchantCategory, custom,
}
use lumenflow_contracts.Base.{
  ℕ, String, len, Bool, false, not, ◌||◌, Option, none, some, List, [], ◌∷◌, length, if◌then◌else◌,
  ltb, eqb,
}
use lumenflow_contracts.Base.Int.{ℤ, pos, ltb_ℤ, leb_ℤ}
use lumenflow_contracts.Host.{suspicious_activity}
use lumenflow_contracts.Storage.{get_admin, get_paused, get_min_refund_amount}
use lumenflow_contracts.Guards.Lockout.{
  is_auth_locked_out, clear_auth_fail_count, record_auth_failure,
}

abbrev pub max_page_limit : ℕ
max_page_limit = 100

-- `opt.map_or(false, |a| a == caller)`
abbrev pub is_address : Option Address → Address → Bool
is_address none a = false
is_address (some b) a = eqb b a

unfoldable pub require_not_paused : Action Done
require_not_paused env w = fail_if (get_paused w) contract_paused env w

unfoldable pub require_admin : Address → Action Done
require_admin caller = do
  require_auth caller
  admin ← gets get_admin
  fail_if (not (is_address admin caller)) unauthorized

-- The failed branch of `require_admin_rate_limited`: the failure is recorded before the error.
unfoldable pub refuse_admin : Address → Action Done
unfolding record_auth_failure
refuse_admin caller = do
  triggered ← record_auth_failure caller
  when triggered (publish (suspicious_activity many_auth_failures caller))
  fail unauthorized

unfoldable pub require_admin_rate_limited : Address → Action Done
unfolding refuse_admin
require_admin_rate_limited caller = do
  env ← ask
  refused ← gets (is_auth_locked_out caller env)
  fail_if refused auth_locked_out
  require_auth caller
  admin ← gets get_admin
  if is_address admin caller then modify (clear_auth_fail_count caller) else refuse_admin caller

unfoldable pub require_admin_or : Address → Address → Action Done
require_admin_or caller allowed = do
  require_auth caller
  admin ← gets get_admin
  fail_if (not (is_address admin caller || eqb caller allowed)) unauthorized

unfoldable pub require_positive : ℤ → Action Done
require_positive amount = fail_if (not (ltb_ℤ (pos 0) amount)) invalid_amount

unfoldable pub require_min_refund_amount : ℤ → Action Done
require_min_refund_amount amount = do
  min ← gets get_min_refund_amount
  fail_if (not (leb_ℤ min amount)) refund_below_minimum

unfoldable pub require_valid_limit : ℕ → Action Done
require_valid_limit limit = do
  fail_if (eqb limit 0) invalid_input
  fail_if (ltb max_page_limit limit) pagination_limit_exceeded

unfoldable pub require_non_empty_string : String → Action Done
require_non_empty_string s = fail_if (eqb (len s) 0) invalid_input

unfoldable pub require_bounded_string : String → ℕ → ℕ → Action Done
require_bounded_string s min max = fail_if (ltb (len s) min || ltb max (len s)) invalid_input

unfoldable pub require_valid_id : String → Action Done
require_valid_id id = do
  fail_if (eqb (len id) 0) invalid_order_id
  fail_if (ltb 64 (len id)) order_id_too_long

abbrev pub bad_tag : List String → Bool
bad_tag [] = false
bad_tag (t ∷ ts) = (eqb (len t) 0 || ltb 32 (len t)) || bad_tag ts

unfoldable pub validate_tags : Option (List String) → Action Done
validate_tags none = pure tt
validate_tags (some ts) = do
  fail_if (ltb 5 (length ts)) invalid_tags
  fail_if (bad_tag ts) invalid_tags

unfoldable pub validate_merchant_category : MerchantCategory → Action Done
validate_merchant_category (custom s) = fail_if (eqb (len s) 0 || ltb 64 (len s)) invalid_category
validate_merchant_category _ = pure tt
