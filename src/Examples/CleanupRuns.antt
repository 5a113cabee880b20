-- ===== src/Examples/CleanupRuns.antt =====
-- Runs of the clean-up calls.
use lumenflow_contracts.Base.{
  String, [], arith, contains, if◌then◌else◌, length, nat_eq, none, refl, string_eq, true, ℕ, ◌∷◌,
  ◌≡◌, ◌≤◌,
}
use lumenflow_contracts.Cleanup.Retention.{cleanup_expired_refunds_lem, IsCleaned}
use lumenflow_contracts.Cleanup.Purging.{indexed_refunds}
use lumenflow_contracts.Storage.{get_refund, World, get_merchant_list}
use lumenflow_contracts.Action.{ok}
use lumenflow_contracts.Base.Dict.{lookup, put}
use lumenflow_contracts.Base.Int.{pos}
use lumenflow_contracts.Cleanup.Expiry.{cancel_expired_payment_requests_lem, is_live}
use lumenflow_contracts.Cleanup.Handlers.{
  cancel_expired_payment_requests, cleanup_expired_refunds, cutoff_at,
}
use lumenflow_contracts.Examples.Scene.{empty_world, host_at}
use lumenflow_contracts.Payment.Requests.{
  get_payment_request, get_payment_request_ids, new_payment_request,
}
use lumenflow_contracts.Refund.Requests.{new_refund}
use lumenflow_contracts.Types.{RefundRecord, RefundStatus}

abbrev rejected_refund : RefundRecord
rejected_refund = record (new_refund "old" "sale" 3 (pos 200) "late" 50) {
  status = RefundStatus.rejected;
}

abbrev pending_refund : RefundRecord
pending_refund = new_refund "new" "sale" 3 (pos 200) "late" 50

abbrev claims_world : World
claims_world = record empty_world {
  book = record (empty_world.book) { merchant_payment_ids = put 2 ("sale" ∷ []) [] };
  claims = record (empty_world.claims) {
    refunds = put "old" rejected_refund (put "new" pending_refund []);
    order_refund_ids = put "sale" ("old" ∷ "new" ∷ []) [];
  };
}

cleanup_expired_refunds_example :
    (removed : ℕ) × (v : World) × (cleanup_expired_refunds 1 (host_at 10_000_000) claims_world
      ≡ ok removed v)
    × (removed ≤ length (indexed_refunds (get_merchant_list claims_world) claims_world))
    × ((k : String)
        → IsCleaned
            (cutoff_at (host_at 10_000_000) claims_world)
            (indexed_refunds (get_merchant_list claims_world) claims_world)
            claims_world
            k
            (get_refund k v))
    × (v ≡ record claims_world {
      claims = record (claims_world.claims) { refunds = v.claims.refunds };
      events = v.events;
    })
unfolding lookup put
cleanup_expired_refunds_example =
    cleanup_expired_refunds_lem 1 (host_at 10_000_000) claims_world refl refl (omega arith)

abbrev requests_world : World
requests_world = record empty_world {
  requests = record {
    payment_requests =
        put "new" (new_payment_request 2 "new" 7 (pos 10) "" 900)
          (put "old" (new_payment_request 2 "old" 7 (pos 10) "" 100) []);
    payment_request_ids = "old" ∷ "new" ∷ "stale" ∷ [];
  };
}

cancel_expired_payment_requests_example :
    (removed : ℕ) × (v : World) × (cancel_expired_payment_requests 1 (host_at 500) requests_world
      ≡ ok removed v)
    × (removed ≤ 3)
    × ((k : String)
        → contains (get_payment_request_ids requests_world) k ≡ true
        → (get_payment_request k v ≡ (
            if is_live 500 (get_payment_request k requests_world)
            then get_payment_request k requests_world
            else none))
          × (contains (get_payment_request_ids v) k
              ≡ is_live 500 (get_payment_request k requests_world)))
cancel_expired_payment_requests_example =
    cancel_expired_payment_requests_lem 1 (host_at 500) requests_world refl refl (omega arith)
