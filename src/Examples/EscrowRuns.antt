-- ===== src/Examples/EscrowRuns.antt =====
-- Runs of the escrow entry points.
use lumenflow_contracts.Base.{[], arith, nat_eq, refl, some, string_eq, ◌∷◌, ◌≡◌}
use lumenflow_contracts.Escrow.Refinement.{perform-Refines}
use lumenflow_contracts.Escrow.Vault.{Refines}
use lumenflow_contracts.Escrow.Deadlines.{settled_hold, escrow_deadline, settled}
use lumenflow_contracts.Escrow.Finality.{Reach-settled_hold, Reach-settled}
use lumenflow_contracts.Host.{hold_cancelled, escrow_released, transfer}
use lumenflow_contracts.Types.{
  EscrowHoldStatus, EscrowHold, EscrowRecord, EscrowStatus, escrow_lock_expired,
}
use lumenflow_contracts.Base.Dict.{put, Entries-nil, lookup, put-Entries, total}
use lumenflow_contracts.Escrow.History.{Operation, Reach, Reach-Inv, Step, perform}
use lumenflow_contracts.Action.{err, ok}
use lumenflow_contracts.Base.Int.{pos, ◌+ℤ◌, ◌-ℤ◌}
use lumenflow_contracts.Escrow.Conditional.{escrow_cancel, new_hold}
use lumenflow_contracts.Escrow.Solvency.{Inv, IsSoundEscrow, IsSoundHold, net}
use lumenflow_contracts.Escrow.Timed.{cancel_escrow_before_lock, new_escrow, release_escrow}
use lumenflow_contracts.Examples.Scene.{empty_world, host_at}
use lumenflow_contracts.Storage.{World, get_escrow, get_escrow_hold}

abbrev order : EscrowRecord
order = new_escrow 3 2 (pos 500) 7 1000 "order" (host_at 10)

abbrev open_hold : EscrowHold
open_hold = new_hold 3 "hold" 2 7 (pos 300) [] 4 1000 (host_at 10)

abbrev locked_world : World
locked_world = record empty_world {
  escrows = ("order", order) ∷ [];
  escrow_holds = ("hold", open_hold) ∷ [];
  calls = transfer 7 3 9 (pos 300) ∷ transfer 7 3 9 (pos 500) ∷ [];
}

locked_world-Inv : Inv 9 7 locked_world
unfolding net total ◌+ℤ◌ ◌-ℤ◌ put
locked_world-Inv = record {
  escrows_sound = put-Entries IsSoundEscrow "order" order [] (refl, omega arith) (Entries-nil _);
  holds_sound = put-Entries IsSoundHold "hold" open_hold [] (refl, omega arith) (Entries-nil _);
  solvent = omega arith;
}

abbrev released_world : World
released_world =
    settled order EscrowStatus.released 9 2 (escrow_released "order" (pos 500)) locked_world

release_run : perform (Operation.release "order") (host_at 1000) locked_world ≡ ok tt released_world
unfolding perform release_escrow lookup put
release_run = refl

release-Step : Step 9 locked_world released_world
release-Step = Step.call (Operation.release "order") (host_at 1000) refl refl release_run

Reach-Inv_example : Inv 9 7 released_world
Reach-Inv_example = Reach-Inv 7 locked_world-Inv (Reach.next Reach.here release-Step)

abbrev paid_order : EscrowRecord
paid_order = record order { status = EscrowStatus.released }

settled_world : World
settled_world = record released_world { events = [] }

later-Step : Step 9 released_world settled_world
unfolding settled_world
later-Step = Step.elsewhere refl refl (λ t. omega arith)

Reach-settled_example : get_escrow "order" settled_world ≡ some paid_order
unfolding lookup put settled_world
Reach-settled_example =
    Reach-settled 7 "order" paid_order Reach-Inv_example (Reach.next Reach.here later-Step) refl
      refl

abbrev returned_hold : EscrowHold
returned_hold = record open_hold { status = EscrowHoldStatus.cancelled }

abbrev returned_world : World
returned_world =
    settled_hold open_hold EscrowHoldStatus.cancelled 9 3 (hold_cancelled "hold" 3 (pos 300))
      locked_world

returned_run :
    perform (Operation.cancel_hold 3 "hold") (host_at 20) locked_world ≡ ok tt returned_world
unfolding perform escrow_cancel lookup put
returned_run = refl

returned-Step : Step 9 locked_world returned_world
returned-Step = Step.call (Operation.cancel_hold 3 "hold") (host_at 20) refl refl returned_run

returned_world-Inv : Inv 9 7 returned_world
returned_world-Inv = Reach-Inv 7 locked_world-Inv (Reach.next Reach.here returned-Step)

abbrev quiet_world : World
quiet_world = record returned_world { events = [] }

quiet-Step : Step 9 returned_world quiet_world
quiet-Step = Step.elsewhere refl refl (λ t. omega arith)

Reach-settled_hold_example : get_escrow_hold "hold" quiet_world ≡ some returned_hold
unfolding lookup put
Reach-settled_hold_example =
    Reach-settled_hold 7 "hold" returned_hold returned_world-Inv (Reach.next Reach.here quiet-Step)
      refl refl

escrow_deadline_example :
    (cancel_escrow_before_lock 3 "order" (host_at 1000) locked_world
      ≡ err escrow_lock_expired locked_world)
    × (release_escrow "order" (host_at 1000) locked_world ≡ ok tt released_world)
unfolding lookup
escrow_deadline_example =
    escrow_deadline "order" order (host_at 1000) locked_world refl refl refl refl refl refl

perform_example : Refines (Operation.release "order") (host_at 1000) locked_world released_world
perform_example =
    perform-Refines (Operation.release "order") (host_at 1000) locked_world released_world
      (locked_world-Inv.escrows_sound) release_run
