-- ===== src/Escrow/Refinement.antt =====
-- The entry points of the escrows refine the vault.
use lumenflow_contracts.Escrow.Vault.{Stage, vacant, live, deposit, pay_out, pay_back, stage}
use lumenflow_contracts.Escrow.History.{
  create, release, cancel, hold, release_hold, cancel_hold, perform,
}
use lumenflow_contracts.Action.{pure, ◌>>◌, ok}
use lumenflow_contracts.Base.{
  ==_refl, ap, refl, subst, ◌∙◌, true, Option-cases, String, arith, if◌then◌else◌, inl, inr, nat_eq,
  none, some, string_eq, ℕ, ◌<◌, ◌==◌, ◌∷◌, ◌≡◌, ◌≤◌,
}
use lumenflow_contracts.Base.Dict.{Entries, Entries-lookup, Dict, lookup, lookup-put, put}
use lumenflow_contracts.Escrow.Conditional.{escrow_cancel, escrow_hold, escrow_release}
use lumenflow_contracts.Escrow.History.{Operation}
use lumenflow_contracts.Escrow.Solvency.{IsSoundEscrow}
use lumenflow_contracts.Escrow.Vault.{IsMove, Move, Refines, deal_of, stage_in, stage_of}
use lumenflow_contracts.Host.{TokenCall, Env, transfer}
use lumenflow_contracts.Types.{Bytes, Address, EscrowRecord, EscrowStatus}
use lumenflow_contracts.Storage.{get_escrow, World}
use lumenflow_contracts.Base.Int.{ℤ}
use lumenflow_contracts.Escrow.Timed.{
  cancel_escrow_before_lock, create_escrow, new_escrow, release_escrow,
}

-- A record that is written under the key `k` is what the view shows there.
stage-put :
    (k j : String) (e : EscrowRecord) (d : Dict String EscrowRecord)
    → stage_of (lookup j (put k e d))
      ≡ (if k == j then stage_in e.status (deal_of e) else stage_of (lookup j d))
stage-put k j e d = rw (lookup-put j k e d) (ground arith)

-- What the three entry points leave, once they have passed their checks.
create_escrow_lem :
    (p m : Address) (x : ℤ) (t : Address) (u : ℕ) (k : String) (env : Env) (w w' : World)
    → create_escrow p m x t u k env w ≡ ok tt w'
    → (env.authorized p ≡ true)
      × (get_escrow k w ≡ none)
      × (env.timestamp < u)
      × (w'.escrows ≡ put k (new_escrow p m x t u k env) w.escrows)
      × (w'.calls ≡ transfer t p env.contract x ∷ w.calls)
unfolding create_escrow
create_escrow_lem p m x t u k env w w' done = ground arith

release_escrow_lem :
    (k : String) (env : Env) (w w' : World)
    → release_escrow k env w ≡ ok tt w'
    → (e : EscrowRecord) × (get_escrow k w ≡ some e)
      × (e.status ≡ EscrowStatus.locked)
      × (e.unlock_at ≤ env.timestamp)
      × (w'.escrows ≡ put e.order_id (record e { status = EscrowStatus.released }) w.escrows)
      × (w'.calls ≡ transfer e.token env.contract e.merchant e.amount ∷ w.calls)
unfolding release_escrow
release_escrow_lem k env w w' done = elim (Option-cases (get_escrow k w)) [
  | inl missing ↦ ground arith
  | inr (e, found) ↦ (e, found, ground arith, ground arith, ground arith, ground arith)
]

cancel_escrow_before_lock_lem :
    (p : Address) (k : String) (env : Env) (w w' : World)
    → cancel_escrow_before_lock p k env w ≡ ok tt w'
    → (env.authorized p ≡ true)
      × ((e : EscrowRecord) × (get_escrow k w ≡ some e)
          × (e.status ≡ EscrowStatus.locked)
          × (e.payer ≡ p)
          × (env.timestamp < e.unlock_at)
          × (w'.escrows ≡ put e.order_id (record e { status = EscrowStatus.cancelled }) w.escrows)
          × (w'.calls ≡ transfer e.token env.contract e.payer e.amount ∷ w.calls))
unfolding cancel_escrow_before_lock
cancel_escrow_before_lock_lem p k env w w' done = elim (Option-cases (get_escrow k w)) [
  | inl missing ↦ ground arith
  | inr (e, found) ↦ (
    ground arith,
    (e, found, ground arith, ground arith, ground arith, ground arith, ground arith),
  )
]

escrow_hold_lem :
    (p : Address) (k : String) (m t : Address) (x : ℤ) (h : Bytes) (a : Address) (u : ℕ) (env : Env)
    (w w' : World)
    → (escrow_hold p k m t x h a u >> pure tt) env w ≡ ok tt w'
    → w'.escrows ≡ w.escrows
unfolding escrow_hold
escrow_hold_lem p k m t x h a u env w w' done = ground arith

escrow_release_lem :
    (c : Address) (k : String) (env : Env) (w w' : World)
    → escrow_release c k env w ≡ ok tt w'
    → w'.escrows ≡ w.escrows
unfolding escrow_release
escrow_release_lem c k env w w' done = ground arith

escrow_cancel_lem :
    (c : Address) (k : String) (env : Env) (w w' : World)
    → escrow_cancel c k env w ≡ ok tt w'
    → w'.escrows ≡ w.escrows
unfolding escrow_cancel
escrow_cancel_lem c k env w w' done = ground arith

same_escrows : (w w' : World) → w'.escrows ≡ w.escrows → (j : String) → stage w' j ≡ stage w j
same_escrows w w' same j = ap (λ d. stage_of (lookup j d)) same

-- A state in which one record was written and one transfer made.
write-IsMove :
    (env : Env) (k : String) (e : EscrowRecord) (before : Stage) (t : TokenCall) (w w' : World)
    → w'.escrows ≡ put k e w.escrows
    → w'.calls ≡ t ∷ w.calls
    → stage w k ≡ before
    → Move env.contract env.timestamp before (stage_in e.status (deal_of e)) t
    → IsMove env k before (stage_in e.status (deal_of e)) t w w'
write-IsMove env k e before t w w' written called from move =
    let view : (j : String)
        → stage w' j ≡ (if k == j then stage_in e.status (deal_of e) else stage w j) =
      λ j. ap (λ d. stage_of (lookup j d)) written ∙ stage-put k j e w.escrows in
    record {
      from = from;
      to = view k ∙ rw (==_refl k) refl;
      move = move;
      called = called;
      others = λ j differ. view j ∙ rw differ refl;
    }

stage_locked :
    (k : String) (e : EscrowRecord) (w : World)
    → get_escrow k w ≡ some e
    → e.status ≡ EscrowStatus.locked
    → stage w k ≡ live (deal_of e)
stage_locked k e w found locked = ap stage_of found ∙ ap (λ s. stage_in s (deal_of e)) locked

-- Every escrow is stored under its own id.
abbrev Keyed : World → Type 0
Keyed w = Entries IsSoundEscrow w.escrows

order_id_of :
    (k : String) (e : EscrowRecord) (w : World) → Keyed w → get_escrow k w ≡ some e → e.order_id ≡ k
order_id_of k e w keyed found = (Entries-lookup IsSoundEscrow k e w.escrows keyed found).0

-- If every escrow is stored under its own id, for a positive amount, then each call of the six entry
-- points that succeeds is the move of the vault that belongs to it, or leaves the vault as it is.
-- Creating an escrow is signed by the payer and deposits, before its deadline, exactly the deal that
-- the arguments describe, where there was none. Releasing pays a live deal out to its merchant, from
-- the deadline on. Cancelling is signed by the payer of a live deal and pays it back before the
-- deadline. Each makes exactly the one transfer of its move, and touches no other deal. The calls on
-- conditional holds do not touch the deals.
pub perform-Refines :
    (op : Operation) (env : Env) (w w' : World)
    → Entries IsSoundEscrow w.escrows
    → perform op env w ≡ ok tt w'
    → Refines op env w w'
unfolding perform
perform-Refines (create p m x t u k) env w w' keyed done =
    let (signed, fresh, early, written, called) = create_escrow_lem p m x t u k env w w' done in
    let e = new_escrow p m x t u k env in
    (
      signed,
      write-IsMove env k e vacant (transfer t p env.contract x) w w' written called
          (ap stage_of fresh) (deposit (deal_of e) early),
    )
perform-Refines (release k) env w w' keyed done =
    let (e, found, locked, late, written, called) = release_escrow_lem k env w w' done in
    let own =
      subst (λ i. w'.escrows ≡ put i (record e { status = EscrowStatus.released }) w.escrows)
        (order_id_of k e w keyed found) written in
    (
      deal_of e,
      write-IsMove env k (record e { status = EscrowStatus.released }) (live (deal_of e))
          (transfer e.token env.contract e.merchant e.amount) w w' own called
          (stage_locked k e w found locked) (pay_out (deal_of e) late),
    )
perform-Refines (cancel p k) env w w' keyed done =
    let (signed, (e, found, locked, own_payer, early, written, called)) =
      cancel_escrow_before_lock_lem p k env w w' done in
    let own =
      subst (λ i. w'.escrows ≡ put i (record e { status = EscrowStatus.cancelled }) w.escrows)
        (order_id_of k e w keyed found) written in
    (
      signed,
      (
        deal_of e,
        own_payer,
        write-IsMove env k (record e { status = EscrowStatus.cancelled }) (live (deal_of e))
            (transfer e.token env.contract e.payer e.amount) w w' own called
            (stage_locked k e w found locked) (pay_back (deal_of e) early),
      ),
    )
perform-Refines (hold p k m t x h a u) env w w' keyed done =
    same_escrows w w' (escrow_hold_lem p k m t x h a u env w w' done)
perform-Refines (release_hold c k) env w w' keyed done =
    same_escrows w w' (escrow_release_lem c k env w w' done)
perform-Refines (cancel_hold c k) env w w' keyed done =
    same_escrows w w' (escrow_cancel_lem c k env w w' done)
