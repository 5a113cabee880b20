-- ===== src/Escrow/Deadlines.antt =====
-- The time at which an escrow is settled decides who gets the funds.
use lumenflow_contracts.Action.{err, ok}
use lumenflow_contracts.Base.{
  String, arith, eqb, false, if◌then◌else◌, leb, ltb, nat_eq, not, push_back, some, string_eq, true,
  ◌||◌, ◌∷◌, ◌≡◌,
}
use lumenflow_contracts.Escrow.Conditional.{escrow_cancel, escrow_release, is_held}
use lumenflow_contracts.Escrow.Timed.{cancel_escrow_before_lock, is_locked, release_escrow}
use lumenflow_contracts.Host.{
  Env, Event, escrow_cancelled, escrow_released, hold_cancelled, hold_released, transfer,
}
use lumenflow_contracts.Storage.{
  World, get_escrow, get_escrow_hold, get_paused, set_escrow, set_escrow_hold,
}
use lumenflow_contracts.Types.{
  Address, EscrowHold, EscrowHoldStatus, EscrowRecord, EscrowStatus, escrow_lock_expired,
  escrow_not_unlocked, escrow_unauthorised,
}

-- The state after an escrow is settled in favour of `to`.
abbrev pub settled : EscrowRecord → EscrowStatus → Address → Address → Event → World → World
settled e s contract to event w = record (set_escrow (record e { status = s }) w) {
  calls = transfer e.token contract to e.amount ∷ w.calls;
  events = push_back w.events event;
}

abbrev pub settled_hold : EscrowHold → EscrowHoldStatus → Address → Address → Event → World → World
settled_hold h s contract to event w = record (set_escrow_hold (record h { status = s }) w) {
  calls = transfer h.token contract to h.amount ∷ w.calls;
  events = push_back w.events event;
}

-- In a running contract, a locked escrow whose token accepts the payment and whose payer signs:
-- before `unlock_at` the payer's cancellation pays the payer back and a release is refused; from
-- `unlock_at` on a release pays the merchant and a cancellation is refused.
pub escrow_deadline :
    (k : String) (e : EscrowRecord) (env : Env) (w : World)
    → get_paused w ≡ false
    → get_escrow k w ≡ some e
    → is_locked e.status ≡ true
    → env.authorized e.payer ≡ true
    → env.accepts w.calls (transfer e.token env.contract e.payer e.amount) ≡ true
    → env.accepts w.calls (transfer e.token env.contract e.merchant e.amount) ≡ true
    → (cancel_escrow_before_lock e.payer k env w ≡ (
        if ltb env.timestamp e.unlock_at
        then ok tt
            (settled e EscrowStatus.cancelled env.contract e.payer (escrow_cancelled k e.amount) w)
        else err escrow_lock_expired w))
      × (release_escrow k env w ≡ (
          if ltb env.timestamp e.unlock_at
          then err escrow_not_unlocked w
          else ok tt (
              settled e EscrowStatus.released env.contract e.merchant
                (escrow_released k e.amount)
                w)))
unfolding cancel_escrow_before_lock release_escrow
escrow_deadline k e env w running found unsettled signed back paid = (ground arith, ground arith)

-- In a running contract, an unsettled hold whose token accepts the payment: a caller who signs can
-- release it exactly if he is the arbiter or the timeout has come, and can cancel it exactly if he
-- is the payer and it has not.
pub hold_deadline :
    (k : String) (h : EscrowHold) (caller : Address) (env : Env) (w : World)
    → get_paused w ≡ false
    → get_escrow_hold k w ≡ some h
    → is_held h.status ≡ true
    → env.authorized caller ≡ true
    → env.accepts w.calls (transfer h.token env.contract h.payer h.amount) ≡ true
    → env.accepts w.calls (transfer h.token env.contract h.merchant h.amount) ≡ true
    → (escrow_release caller k env w ≡ (
        if eqb h.arbiter caller || leb h.timeout_at env.timestamp
        then ok tt (
            settled_hold h EscrowHoldStatus.released env.contract h.merchant
              (hold_released k h.merchant h.amount)
              w)
        else err escrow_not_unlocked w))
      × (escrow_cancel caller k env w ≡ (
          if not (eqb h.payer caller)
          then err escrow_unauthorised w
          else if leb h.timeout_at env.timestamp
          then err escrow_lock_expired w
          else ok tt (
              settled_hold h EscrowHoldStatus.cancelled env.contract h.payer
                (hold_cancelled k h.payer h.amount)
                w)))
unfolding escrow_release escrow_cancel
hold_deadline k h caller env w running found unsettled signed back paid =
    (ground arith, ground arith)
