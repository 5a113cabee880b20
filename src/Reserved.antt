-- ===== src/Reserved.antt =====
-- contracts/lumenflow/src/storage.rs: the accessors that no entry point of lib.rs calls, for the limit
-- on active payment requests, the requests to delete a merchant's data, the reward for referrals, and
-- the sizes of the indexes of payments.
use lumenflow_contracts.Action.{ok}
use lumenflow_contracts.Action.{ok, Action, Done, add_u32, gets, modify, ◌>>=◌}
use lumenflow_contracts.Base.{
  Bool-cases, Option, String, ap, arith, eqb, inl, inr, length, nat_eq, some, string_eq, unwrap_or,
  ℕ, ◌+◌, ◌-◌, ◌≡◌,
}
use lumenflow_contracts.Base.Dict.{del, lookup, lookup-put, lookup-put_self, put}
use lumenflow_contracts.Host.{Env}
use lumenflow_contracts.Query.Window.{count}
use lumenflow_contracts.Types.{Address}
use lumenflow_contracts.Storage.{World, get_merchant_payment_ids, get_payer_payment_ids}

abbrev pub get_merchant_payment_count : Address → World → ℕ
get_merchant_payment_count a w = length (get_merchant_payment_ids a w)

abbrev pub get_payer_payment_count : Address → World → ℕ
get_payer_payment_count a w = length (get_payer_payment_ids a w)

abbrev pub get_pause_reason : World → Option String
get_pause_reason w = w.pause.pause_reason

abbrev pub remove_multisig : String → World → World
remove_multisig k w = record w { multisigs = del k w.multisigs }

abbrev pub get_max_active_payment_requests : World → ℕ
get_max_active_payment_requests w = unwrap_or 100 w.config.max_active_payment_requests

abbrev pub set_max_active_payment_requests : ℕ → World → World
set_max_active_payment_requests limit w = record w {
  config = record (w.config) { max_active_payment_requests = some limit };
}

abbrev pub get_merchant_active_request_count : Address → World → ℕ
get_merchant_active_request_count a w = unwrap_or 0 (lookup a w.people.merchant_active_requests)

abbrev pub put_active_request_count : Address → ℕ → World → World
put_active_request_count a count w = record w {
  people = record (w.people) {
    merchant_active_requests = put a count w.people.merchant_active_requests;
  };
}

-- `count + 1`, which traps at the end of the type.
unfoldable pub increment_merchant_active_requests : Address → Action Done
increment_merchant_active_requests a = do
  count ← gets (get_merchant_active_request_count a)
  next ← add_u32 count 1
  modify (put_active_request_count a next)

-- `count.saturating_sub(1)`
unfoldable pub decrement_merchant_active_requests : Address → World → World
decrement_merchant_active_requests a w =
    put_active_request_count a (get_merchant_active_request_count a w - 1) w

abbrev pub get_deletion_request : Address → World → Option ℕ
get_deletion_request a w = lookup a w.people.deletion_requests

abbrev pub set_deletion_request : Address → ℕ → World → World
set_deletion_request a requested_at w = record w {
  people = record (w.people) { deletion_requests = put a requested_at w.people.deletion_requests };
}

abbrev pub remove_deletion_request : Address → World → World
remove_deletion_request a w = record w {
  people = record (w.people) { deletion_requests = del a w.people.deletion_requests };
}

abbrev pub get_referral_fee_bps : World → ℕ
get_referral_fee_bps w = unwrap_or 0 w.config.referral_fee_bps

abbrev pub set_referral_fee_bps : ℕ → World → World
set_referral_fee_bps fee_bps w = record w {
  config = record (w.config) { referral_fee_bps = some fee_bps };
}

-- A request that is opened and closed leaves every merchant's count as it was.
pub decrement-increment :
    (a b : Address) (env : Env) (w w' : World)
    → increment_merchant_active_requests a env w ≡ ok tt w'
    → get_merchant_active_request_count b (decrement_merchant_active_requests a w')
      ≡ get_merchant_active_request_count b w
unfolding increment_merchant_active_requests decrement_merchant_active_requests
decrement-increment a b env w w' done =
    let n = get_merchant_active_request_count a w in
    let up : w' ≡ put_active_request_count a (n + 1) w = ground arith in
    let counted = lookup-put_self a (n + 1) w.people.merchant_active_requests in
    let here = lookup-put b a (n + 1) w.people.merchant_active_requests in
    let there =
      lookup-put b a (get_merchant_active_request_count a w' - 1)
        w'.people.merchant_active_requests in
    let value : get_merchant_active_request_count a w' ≡ n + 1 = rw up (ap (unwrap_or 0) counted) in
    elim (Bool-cases (eqb a b)) [
      | inl same ↦ ground (arith, there, value)
      | inr differ ↦ ground (arith, there, here, up)
    ]
