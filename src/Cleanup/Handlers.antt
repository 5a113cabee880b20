-- ===== src/Cleanup/Handlers.antt =====
-- contracts/lumenflow/src/lib.rs: `archive_payment_record`, `cleanup_expired_refunds` and
-- `cancel_expired_payment_requests`.
use lumenflow_contracts.Guards.{require_admin}
use lumenflow_contracts.Storage.{get_refund}
use lumenflow_contracts.Action.{
  Action, Done, add_u32, ask, fail_if, gets, modify, ok, publish, pure, ◌>>=◌, ◌>>◌,
}
use lumenflow_contracts.Base.{
  Bool, List, Option, String, [], false, if◌then◌else◌, is_some, ltb, nat_eq, none, not, some,
  string_eq, true, ℕ, ◌&&◌, ◌-◌, ◌∷◌,
}
use lumenflow_contracts.Base.Dict.{del}
use lumenflow_contracts.Base.Int.{pos}
use lumenflow_contracts.Guards.{require_admin_rate_limited, require_not_paused}
use lumenflow_contracts.Host.{
  Env, admin_action, admin_action_on, payment_archived, payment_request_cancelled,
}
use lumenflow_contracts.Payment.Requests.{
  get_payment_request, get_payment_request_ids, remove_payment_request,
}
use lumenflow_contracts.Storage.{
  World, get_merchant_list, get_merchant_payment_ids, get_order_refund_ids, get_payment,
  get_refund_retention_period, remove_payment,
}
use lumenflow_contracts.Types.{
  Address, PaymentRequest, RefundRecord, RefundStatus, payment_not_found,
}

unfoldable pub archive_payment_record : Address → String → Action Done
unfolding require_not_paused require_admin_rate_limited
archive_payment_record admin order_id = do
  require_not_paused
  require_admin_rate_limited admin
  found ← gets (get_payment order_id)
  fail_if (not (is_some found)) payment_not_found
  modify (remove_payment order_id)
  publish (payment_archived order_id)
  publish (admin_action_on "archive_payment_record" admin order_id)

abbrev pub remove_refund : String → World → World
remove_refund k w = record w { claims = record (w.claims) { refunds = del k w.claims.refunds } }

-- `matches!(status, Completed | Rejected)`
abbrev pub is_terminal : RefundStatus → Bool
is_terminal RefundStatus.completed = true
is_terminal RefundStatus.rejected = true
is_terminal RefundStatus.pending = false
is_terminal RefundStatus.approved = false

abbrev pub is_purged : ℕ → Option RefundRecord → Bool
is_purged cutoff none = false
is_purged cutoff (some r) = is_terminal r.status && ltb r.created_at cutoff

abbrev pub purge_if : Bool → String → ℕ → Action ℕ
purge_if old rid removed env w =
    if old then add_u32 removed 1 env (remove_refund rid w) else ok removed w

-- One refund of the innermost loop, which counts what it removes.
abbrev pub purge : ℕ → String → ℕ → Action ℕ
purge cutoff rid removed = do
  found ← gets (get_refund rid)
  purge_if (is_purged cutoff found) rid removed

unfoldable pub purge_refunds : ℕ → List String → ℕ → Action ℕ
purge_refunds cutoff [] removed = pure removed
purge_refunds cutoff (rid ∷ rids) removed = do
  next ← purge cutoff rid removed
  purge_refunds cutoff rids next

unfoldable pub purge_payments : ℕ → List String → ℕ → Action ℕ
purge_payments cutoff [] removed = pure removed
purge_payments cutoff (pid ∷ pids) removed = do
  rids ← gets (get_order_refund_ids pid)
  next ← purge_refunds cutoff rids removed
  purge_payments cutoff pids next

unfoldable pub purge_merchants : ℕ → List Address → ℕ → Action ℕ
purge_merchants cutoff [] removed = pure removed
purge_merchants cutoff (a ∷ addresses) removed = do
  pids ← gets (get_merchant_payment_ids a)
  next ← purge_payments cutoff pids removed
  purge_merchants cutoff addresses next

-- `now.saturating_sub(retention_period)`
abbrev pub cutoff_at : Env → World → ℕ
cutoff_at env w = env.timestamp - get_refund_retention_period w

unfoldable pub cleanup_expired_refunds : Address → Action ℕ
unfolding require_admin
cleanup_expired_refunds admin = do
  require_admin admin
  env ← ask
  cutoff ← gets (cutoff_at env)
  addresses ← gets get_merchant_list
  removed ← purge_merchants cutoff addresses 0
  publish (admin_action "cleanup_expired_refunds" admin (pos removed))
  pure removed

abbrev pub cancel_request : String → ℕ → Action ℕ
cancel_request request_id removed = do
  modify (remove_payment_request request_id)
  publish (payment_request_cancelled request_id)
  add_u32 removed 1

abbrev pub cancel_when : Bool → String → ℕ → Action ℕ
cancel_when expired request_id removed env w =
    if expired then cancel_request request_id removed env w else ok removed w

-- One turn of the loop: an expired request is cancelled, a stale id is dropped.
abbrev pub cancel_if_expired : String → Option PaymentRequest → ℕ → Action ℕ
cancel_if_expired request_id none removed = do
  modify (remove_payment_request request_id)
  pure removed
cancel_if_expired request_id (some pr) removed = do
  env ← ask
  cancel_when (ltb pr.expires_at env.timestamp) request_id removed

unfoldable pub cancel_requests : List String → ℕ → Action ℕ
cancel_requests [] removed = pure removed
cancel_requests (request_id ∷ ids) removed = do
  found ← gets (get_payment_request request_id)
  next ← cancel_if_expired request_id found removed
  cancel_requests ids next

unfoldable pub cancel_expired_payment_requests : Address → Action ℕ
unfolding require_admin
cancel_expired_payment_requests admin = do
  require_admin admin
  ids ← gets get_payment_request_ids
  cancel_requests ids 0
