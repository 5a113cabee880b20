-- ===== src/Escrow/Solvency/Steps.antt =====
-- Every entry point of the escrows keeps the contract solvent.
use lumenflow_contracts.Escrow.Conditional.{new_hold, escrow_hold, escrow_cancel, escrow_release}
use lumenflow_contracts.Escrow.Timed.{
  new_escrow, cancel_escrow_before_lock, create_escrow, release_escrow,
}
use lumenflow_contracts.Escrow.Solvency.{hold-Inv, Inv, lock-Inv, settle-Inv, settle_hold-Inv}
use lumenflow_contracts.Host.{
  escrow_held, Env, escrow_cancelled, escrow_created, escrow_released, hold_cancelled,
  hold_released,
}
use lumenflow_contracts.Types.{Bytes, Address, EscrowHoldStatus, EscrowStatus}
use lumenflow_contracts.Action.{After}
use lumenflow_contracts.Base.{
  Option-cases, String, arith, false, inl, inr, nat_eq, push_back, string_eq, ℕ, ◌≡◌,
}
use lumenflow_contracts.Base.Int.{ℤ}
use lumenflow_contracts.Storage.{World, get_escrow, get_escrow_hold}

pub release_escrow-Inv :
    (k : String) (t : Address) (env : Env) (w : World)
    → Inv env.contract t w
    → After (Inv env.contract t) (release_escrow k env w)
unfolding release_escrow
release_escrow-Inv k t env w s = elim (Option-cases (get_escrow k w)) [
  | inl missing ↦ ground (arith, s)
  | inr (e, found) ↦ ground (
    arith,
    s,
    settle-Inv env.contract t e.merchant k e EscrowStatus.released
        (push_back w.events (escrow_released k e.amount)) w s found,
  )
]

pub cancel_escrow_before_lock-Inv :
    (p : Address) (k : String) (t : Address) (env : Env) (w : World)
    → Inv env.contract t w
    → After (Inv env.contract t) (cancel_escrow_before_lock p k env w)
unfolding cancel_escrow_before_lock
cancel_escrow_before_lock-Inv p k t env w s = elim (Option-cases (get_escrow k w)) [
  | inl missing ↦ ground (arith, s)
  | inr (e, found) ↦ ground (
    arith,
    s,
    settle-Inv env.contract t e.payer k e EscrowStatus.cancelled
        (push_back w.events (escrow_cancelled k e.amount)) w s found,
  )
]

pub escrow_release-Inv :
    (c : Address) (k : String) (t : Address) (env : Env) (w : World)
    → Inv env.contract t w
    → After (Inv env.contract t) (escrow_release c k env w)
unfolding escrow_release
escrow_release-Inv c k t env w s = elim (Option-cases (get_escrow_hold k w)) [
  | inl missing ↦ ground (arith, s)
  | inr (e, found) ↦ ground (
    arith,
    s,
    settle_hold-Inv env.contract t e.merchant k e EscrowHoldStatus.released
        (push_back w.events (hold_released k e.merchant e.amount)) w s found,
  )
]

pub escrow_cancel-Inv :
    (c : Address) (k : String) (t : Address) (env : Env) (w : World)
    → Inv env.contract t w
    → After (Inv env.contract t) (escrow_cancel c k env w)
unfolding escrow_cancel
escrow_cancel-Inv c k t env w s = elim (Option-cases (get_escrow_hold k w)) [
  | inl missing ↦ ground (arith, s)
  | inr (e, found) ↦ ground (
    arith,
    s,
    settle_hold-Inv env.contract t e.payer k e EscrowHoldStatus.cancelled
        (push_back w.events (hold_cancelled k e.payer e.amount)) w s found,
  )
]

pub create_escrow-Inv :
    (p m : Address) (x : ℤ) (tok : Address) (u : ℕ) (k : String) (t : Address) (env : Env)
    (w : World)
    → env.authorized env.contract ≡ false
    → Inv env.contract t w
    → After (Inv env.contract t) (create_escrow p m x tok u k env w)
unfolding create_escrow
create_escrow-Inv p m x tok u k t env w h s =
    let e = new_escrow p m x tok u k env in
    ground (arith, s, lock-Inv env.contract t p e (push_back w.events (escrow_created k x)) w s)

pub escrow_hold-Inv :
    (p : Address) (k : String) (m tok : Address) (x : ℤ) (hash : Bytes) (a : Address) (u : ℕ)
    (t : Address) (env : Env) (w : World)
    → env.authorized env.contract ≡ false
    → Inv env.contract t w
    → After (Inv env.contract t) (escrow_hold p k m tok x hash a u env w)
unfolding escrow_hold
escrow_hold-Inv p k m tok x hash a u t env w h s =
    let hold = new_hold p k m tok x hash a u env in
    ground
      (arith, s, hold-Inv env.contract t p hold (push_back w.events (escrow_held k p m x hash)) w s)
