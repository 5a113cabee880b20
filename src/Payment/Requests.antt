-- ===== src/Payment/Requests.antt =====
-- contracts/lumenflow/src/lib.rs, "Payment requests", and their keys of storage.rs.
use lumenflow_contracts.Action.{
  Action, Done, ask, call_token, fail, fail_if, gets, modify, or_fail, publish, require_auth,
  u64_max, when, ◌>>=◌, ◌>>◌,
}
use lumenflow_contracts.Base.{
  List, Option, String, [], contains, eqb, if◌then◌else◌, is_some, leb, ltb, nat_eq, none, not,
  push_back, string_eq, ℕ, ◌+◌, ◌==◌, ◌∷◌,
}
use lumenflow_contracts.Base.Dict.{del, lookup, put}
use lumenflow_contracts.Base.Int.{pos, ℤ}
use lumenflow_contracts.Guards.{require_bounded_string, require_not_paused, require_positive}
use lumenflow_contracts.Host.{payment_request_cancelled, payment_request_paid, transfer}
use lumenflow_contracts.Payment.Index.{
  add_merchant_payment_id, add_payer_payment_id, count_payment, new_payment,
}
use lumenflow_contracts.Storage.{World, get_payment, is_token_allowed, set_payment}
use lumenflow_contracts.Types.{
  Address, PaymentRequest, invalid_ttl, payment_already_exists, payment_expired, payment_not_found,
  token_not_allowed, unauthorized,
}

abbrev pub get_payment_request : String → World → Option PaymentRequest
get_payment_request k w = lookup k w.requests.payment_requests

abbrev pub get_payment_request_ids : World → List String
get_payment_request_ids w = w.requests.payment_request_ids

abbrev pub set_payment_request : PaymentRequest → World → World
set_payment_request pr w = record w {
  requests = record {
    payment_requests = put pr.request_id pr w.requests.payment_requests;
    payment_request_ids =
        if contains (get_payment_request_ids w) pr.request_id
        then get_payment_request_ids w
        else push_back (get_payment_request_ids w) pr.request_id;
  };
}

abbrev pub without : String → List String → List String
without k [] = []
without k (x ∷ xs) = let rest = without k xs in if x == k then rest else x ∷ rest

abbrev pub remove_payment_request : String → World → World
remove_payment_request k w = record w {
  requests = record {
    payment_requests = del k w.requests.payment_requests;
    payment_request_ids = without k (get_payment_request_ids w);
  };
}

abbrev pub new_payment_request : Address → String → Address → ℤ → String → ℕ → PaymentRequest
new_payment_request merchant request_id token amount memo expires_at = record {
  request_id = request_id;
  merchant = merchant;
  token = token;
  amount = amount;
  memo = memo;
  expires_at = expires_at;
}

unfoldable pub create_payment_request : Address → String → Address → ℤ → String → ℕ → Action Done
unfolding require_not_paused require_positive require_bounded_string
create_payment_request merchant request_id token amount memo ttl = do
  require_not_paused
  require_auth merchant
  require_positive amount
  require_bounded_string request_id 1 64
  fail_if (eqb ttl 0) invalid_ttl
  env ← ask
  let expires_at = env.timestamp + ttl
  fail_if (ltb u64_max expires_at) invalid_ttl
  fail_if (leb expires_at env.timestamp) invalid_ttl
  allowed ← gets (is_token_allowed token)
  fail_if (not allowed) token_not_allowed
  existing ← gets (get_payment_request request_id)
  fail_if (is_some existing) payment_already_exists
  modify
      (set_payment_request (new_payment_request merchant request_id token amount memo expires_at))

-- An expired request is removed before the error, and the host undoes that with the error.
unfoldable pub drop_request : String → Action Done
drop_request k = do modify (remove_payment_request k); fail payment_expired

unfoldable pub pay_payment_request : Address → String → Action Done
unfolding require_not_paused drop_request add_merchant_payment_id add_payer_payment_id
pay_payment_request payer request_id = do
  require_not_paused
  require_auth payer
  found ← gets (get_payment_request request_id)
  pr ← or_fail found payment_not_found
  env ← ask
  when (ltb pr.expires_at env.timestamp) (drop_request request_id)
  existing ← gets (get_payment request_id)
  fail_if (is_some existing) payment_already_exists
  call_token (transfer pr.token payer pr.merchant pr.amount)
  modify (
      set_payment (
        new_payment pr.request_id pr.merchant payer pr.token pr.amount env.timestamp pr.memo none
          (pos 0)))
  add_merchant_payment_id pr.merchant pr.request_id
  add_payer_payment_id payer pr.request_id
  count_payment pr.amount
  modify (remove_payment_request request_id)
  publish (payment_request_paid request_id)

unfoldable pub cancel_payment_request : Address → String → Action Done
unfolding require_not_paused
cancel_payment_request caller request_id = do
  require_not_paused
  require_auth caller
  found ← gets (get_payment_request request_id)
  pr ← or_fail found payment_not_found
  fail_if (not (eqb pr.merchant caller)) unauthorized
  modify (remove_payment_request request_id)
  publish (payment_request_cancelled request_id)
