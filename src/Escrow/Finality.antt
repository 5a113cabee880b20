-- ===== src/Escrow/Finality.antt =====
-- A settled escrow stays as it is, so its funds are paid out once.
use lumenflow_contracts.Base.{
  subst, sym, ==_eq, Option-cases, String, arith, false, inl, inr, nat_eq, none, some, string_eq,
  true, ◌≡◌,
}
use lumenflow_contracts.Escrow.Conditional.{
  new_hold, escrow_cancel, escrow_hold, escrow_release, is_held,
}
use lumenflow_contracts.Escrow.History.{
  Reach, Reach-Inv, Step, Operation, cancel, cancel_hold, create, hold, perform, release,
  release_hold,
}
use lumenflow_contracts.Escrow.Solvency.{Inv, IsSoundHold, IsSoundEscrow}
use lumenflow_contracts.Storage.{get_escrow_hold, World, get_escrow}
use lumenflow_contracts.Types.{Address, EscrowHoldStatus, EscrowHold, EscrowRecord, EscrowStatus}
use lumenflow_contracts.Escrow.Timed.{
  new_escrow, cancel_escrow_before_lock, create_escrow, is_locked, release_escrow,
}
use lumenflow_contracts.Action.{After}
use lumenflow_contracts.Base.Dict.{Dict, Entries, Entries-lookup, lookup, lookup-put, put}
use lumenflow_contracts.Escrow.Deadlines.{settled}
use lumenflow_contracts.Host.{Env}

-- Settling an escrow that is locked does not touch one that is not.
put-settled :
    (k j : String) (e f v : EscrowRecord) (d : Dict String EscrowRecord)
    → lookup k d ≡ some e
    → is_locked e.status ≡ false
    → lookup j d ≡ some f
    → is_locked f.status ≡ true
    → f.order_id ≡ j
    → lookup k (put f.order_id v d) ≡ some e
put-settled k j e f v d found settled other_found unsettled keyed =
    ground (arith, lookup-put k f.order_id v d, ==_eq f.order_id k)

put-settled_hold :
    (k j : String) (e f v : EscrowHold) (d : Dict String EscrowHold)
    → lookup k d ≡ some e
    → is_held e.status ≡ false
    → lookup j d ≡ some f
    → is_held f.status ≡ true
    → f.escrow_id ≡ j
    → lookup k (put f.escrow_id v d) ≡ some e
put-settled_hold k j e f v d found settled other_found unsettled keyed =
    ground (arith, lookup-put k f.escrow_id v d, ==_eq f.escrow_id k)

-- Nor does a record under a new key.
put-fresh :
    {V : Type 0} (k j : String) (e v : V) (d : Dict String V)
    → lookup k d ≡ some e
    → lookup j d ≡ none
    → lookup k (put j v d) ≡ some e
put-fresh k j e v d found fresh = ground (arith, lookup-put k j v d, ==_eq j k)

perform-settled :
    (op : Operation) (k : String) (e : EscrowRecord) (env : Env) (w : World)
    → Entries IsSoundEscrow w.escrows
    → lookup k w.escrows ≡ some e
    → is_locked e.status ≡ false
    → After (λ w'. lookup k w'.escrows ≡ some e) (perform op env w)
unfolding perform create_escrow release_escrow cancel_escrow_before_lock escrow_hold escrow_release
    escrow_cancel
perform-settled (create p m x t u j) k e env w s found settled =
    elim (Option-cases (get_escrow j w)) [
      | inl missing ↦
          ground (arith, put-fresh k j e (new_escrow p m x t u j env) w.escrows found missing)
      | inr (f, taken) ↦ ground arith
    ]
perform-settled (release j) k e env w s found settled = elim (Option-cases (get_escrow j w)) [
  | inl missing ↦ ground arith
  | inr (f, unsettled) ↦
      let (keyed, _) = Entries-lookup IsSoundEscrow j f w.escrows s unsettled in
      ground (
        arith,
        put-settled k j e f (record f { status = EscrowStatus.released }) w.escrows found settled
            unsettled,
      )
]
perform-settled (cancel p j) k e env w s found settled = elim (Option-cases (get_escrow j w)) [
  | inl missing ↦ ground arith
  | inr (f, unsettled) ↦
      let (keyed, _) = Entries-lookup IsSoundEscrow j f w.escrows s unsettled in
      ground (
        arith,
        put-settled k j e f (record f { status = EscrowStatus.cancelled }) w.escrows found settled
            unsettled,
      )
]
perform-settled (hold p j m t x h a u) k e env w s found settled = ground arith
perform-settled (release_hold c j) k e env w s found settled = ground arith
perform-settled (cancel_hold c j) k e env w s found settled = ground arith

perform-settled_hold :
    (op : Operation) (k : String) (h : EscrowHold) (env : Env) (w : World)
    → Entries IsSoundHold w.escrow_holds
    → lookup k w.escrow_holds ≡ some h
    → is_held h.status ≡ false
    → After (λ w'. lookup k w'.escrow_holds ≡ some h) (perform op env w)
unfolding perform create_escrow release_escrow cancel_escrow_before_lock escrow_hold escrow_release
    escrow_cancel
perform-settled_hold (create p m x t u j) k h env w s found settled = ground arith
perform-settled_hold (release j) k h env w s found settled = ground arith
perform-settled_hold (cancel p j) k h env w s found settled = ground arith
perform-settled_hold (hold p j m t x hash a u) k h env w s found settled =
    elim (Option-cases (get_escrow_hold j w)) [
      | inl missing ↦
          ground
            (arith, put-fresh k j h (new_hold p j m t x hash a u env) w.escrow_holds found missing)
      | inr (f, taken) ↦ ground arith
    ]
perform-settled_hold (release_hold c j) k h env w s found settled =
    elim (Option-cases (get_escrow_hold j w)) [
      | inl missing ↦ ground arith
      | inr (f, unsettled) ↦
          let (keyed, _) = Entries-lookup IsSoundHold j f w.escrow_holds s unsettled in
          ground (
            arith,
            put-settled_hold k j h f (record f { status = EscrowHoldStatus.released })
                w.escrow_holds found settled unsettled,
          )
    ]
perform-settled_hold (cancel_hold c j) k h env w s found settled =
    elim (Option-cases (get_escrow_hold j w)) [
      | inl missing ↦ ground arith
      | inr (f, unsettled) ↦
          let (keyed, _) = Entries-lookup IsSoundHold j f w.escrow_holds s unsettled in
          ground (
            arith,
            put-settled_hold k j h f (record f { status = EscrowHoldStatus.cancelled })
                w.escrow_holds found settled unsettled,
          )
    ]

-- Both facts along a history.
Reach-frozen :
    {c : Address} {w w' : World} (t : Address) (k : String)
    → Inv c t w
    → Reach c w w'
    → ((e : EscrowRecord)
        → get_escrow k w ≡ some e
        → is_locked e.status ≡ false
        → get_escrow k w' ≡ some e)
      × ((h : EscrowHold)
          → get_escrow_hold k w ≡ some h
          → is_held h.status ≡ false
          → get_escrow_hold k w' ≡ some h)
Reach-frozen t k s Reach.here = (λ e found settled. found, λ h found settled. found)
Reach-frozen {c} {w} {w'} t k s (Reach.next {u} r (Step.elsewhere same same_holds gain)) =
    let (escrows, holds) = Reach-frozen t k s r in
    (
      λ e found settled. subst (λ d. lookup k d ≡ some e) (sym same) (escrows e found settled),
      λ h found settled. subst (λ d. lookup k d ≡ some h) (sym same_holds) (holds h found settled),
    )
Reach-frozen {c} {w} {w'} t k s (Reach.next {u} r (Step.call op env same self done)) =
    let (escrows, holds) = Reach-frozen t k s r in
    let inv = Reach-Inv t s r in
    (
      λ e found settled.
          subst (After (λ v. lookup k v.escrows ≡ some e)) done
            (perform-settled op k e env u inv.escrows_sound (escrows e found settled) settled),
      λ h found settled.
          subst (After (λ v. lookup k v.escrow_holds ≡ some h)) done
            (perform-settled_hold op k h env u inv.holds_sound (holds h found settled) settled),
    )

-- Along every history that starts in a state whose records are sound, an escrow that is no longer
-- locked keeps its record.
pub Reach-settled :
    {c : Address} {w w' : World} (t : Address) (k : String) (e : EscrowRecord)
    → Inv c t w
    → Reach c w w'
    → get_escrow k w ≡ some e
    → is_locked e.status ≡ false
    → get_escrow k w' ≡ some e
Reach-settled t k e s r found settled = (Reach-frozen t k s r).0 e found settled

-- Along every history that starts in a state whose records are sound, a hold that is no longer held
-- keeps its record.
pub Reach-settled_hold :
    {c : Address} {w w' : World} (t : Address) (k : String) (h : EscrowHold)
    → Inv c t w
    → Reach c w w'
    → get_escrow_hold k w ≡ some h
    → is_held h.status ≡ false
    → get_escrow_hold k w' ≡ some h
Reach-settled_hold t k h s r found settled = (Reach-frozen t k s r).1 h found settled
