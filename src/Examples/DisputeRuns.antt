-- ===== src/Examples/DisputeRuns.antt =====
-- Runs of the entry points for disputes.
use lumenflow_contracts.Action.{is_ok, left_by, ok}
use lumenflow_contracts.Base.{[], false, nat_eq, none, refl, some, string_eq, true, ◌∷◌, ◌≡◌, ◌⊎◌}
use lumenflow_contracts.Base.Dict.{del, lookup, put}
use lumenflow_contracts.Base.Int.{clamp_i128, in_i128, pos, ◌+ℤ◌}
use lumenflow_contracts.Dispute.Handlers.{
  escalate_dispute, mark_dispute_under_review, new_dispute, resolve_dispute,
}
use lumenflow_contracts.Dispute.Resolution.{resolve_dispute_final, resolve_dispute_lem}
use lumenflow_contracts.Examples.Scene.{empty_world, host_at}
use lumenflow_contracts.Payment.Index.{new_payment}
use lumenflow_contracts.Refund.Requests.{new_refund}
use lumenflow_contracts.Storage.{World, get_admin, get_dispute}
use lumenflow_contracts.Types.{
  DisputeRecord, DisputeStatus, PaymentOrder, RefundRecord, RefundStatus, payer_favor,
}

abbrev sold : PaymentOrder
sold = new_payment "sale" 2 3 7 (pos 1000) 0 "" none (pos 0)

abbrev refused_refund : RefundRecord
refused_refund = record (new_refund "back" "sale" 3 (pos 800) "broken" 5) {
  status = RefundStatus.rejected;
}

abbrev complaint : DisputeRecord
complaint = new_dispute "case" "sale" "back" 3 "not delivered" 6

abbrev disputed : World
disputed = record empty_world {
  book = record (empty_world.book) { payments = ("sale", sold) ∷ [] };
  claims = record {
    refunds = ("back", refused_refund) ∷ [];
    order_refund_ids = ("sale", "back" ∷ []) ∷ [];
    disputes = ("case", complaint) ∷ [];
  };
}

abbrev forced_world : World
forced_world = left_by disputed (resolve_dispute 1 "case" "refund" true (host_at 50) disputed)

forced_run : resolve_dispute 1 "case" "refund" true (host_at 50) disputed ≡ ok tt forced_world
unfolding resolve_dispute lookup put del in_i128 clamp_i128 ◌+ℤ◌
forced_run = refl

resolve_dispute_example :
    (true ≡ true)
    × (get_admin disputed ≡ some 1)
    × (false ≡ false)
    × (get_dispute "case" forced_world
        ≡ some (record complaint {
          status = DisputeStatus.resolved;
          outcome = some payer_favor;
          resolution = some "refund";
        }))
    × ((true ≡ true)
        ⊎ ((forced_world.calls ≡ disputed.calls)
            × (forced_world.claims.refunds ≡ disputed.claims.refunds)
            × (forced_world.book.payments ≡ disputed.book.payments)))
unfolding lookup
resolve_dispute_example =
    resolve_dispute_lem 1 "case" "refund" true (host_at 50) disputed forced_world complaint refl
      refl forced_run

resolve_dispute_final_example :
    (is_ok (resolve_dispute 1 "case" "again" true (host_at 60) forced_world) ≡ false)
    × (is_ok (escalate_dispute 1 "case" none (host_at 60) forced_world) ≡ false)
    × (is_ok (mark_dispute_under_review 1 "case" (host_at 60) forced_world) ≡ false)
unfolding lookup
resolve_dispute_final_example =
    resolve_dispute_final 1 1 "case" "refund" "again" none true true (host_at 50) (host_at 60)
      disputed forced_world complaint refl refl forced_run
