-- ===== src/Escrow/Solvency.antt =====
-- The tokens that the contract holds cover what its escrows owe.
pub mod Steps
use lumenflow_contracts.Base.{
  none, refl, ◌≢◌, some, true, Eq, List, Option-cases, String, [], arith, eqb, false, if◌then◌else◌,
  inl, inr, nat_eq, string_eq, ℕ, ◌&&◌, ◌∷◌, ◌≡◌,
}
use lumenflow_contracts.Base.Dict.{
  Entries-lookup, put-Entries, Entries, lookup, total, total-put, total-put_new,
}
use lumenflow_contracts.Host.{Event, Env, TokenCall, approve, transfer, transfer_from}
use lumenflow_contracts.Escrow.Timed.{
  cancel_escrow_before_lock, create_escrow, is_locked, release_escrow,
}
use lumenflow_contracts.Base.Int.{◌<ℤ◌, int_laws, pos, ℤ, ◌+ℤ◌, ◌-ℤ◌, ◌≤ℤ◌}
use lumenflow_contracts.Storage.{set_escrow, set_escrow_hold, World, get_escrow}
use lumenflow_contracts.Types.{
  EscrowHoldStatus, EscrowStatus, released, Address, EscrowHold, EscrowRecord,
}
use lumenflow_contracts.Action.{Outcome, err, ok, trap}
use lumenflow_contracts.Escrow.Conditional.{is_held}
use lumenflow_contracts.Guards.{require_not_paused, require_positive, require_valid_id}

-- What one call moves into (or, negative, out of) the account `a` of token `t`.
abbrev pub moved : Address → Address → Address → Address → ℤ → ℤ
moved a t from to amount =
    (if eqb to a then amount else pos 0) -ℤ (if eqb from a then amount else pos 0)

abbrev pub call_effect : Address → Address → TokenCall → ℤ
call_effect a t (transfer token from to amount) =
    if eqb token t then moved a t from to amount else pos 0
call_effect a t (transfer_from token spender from to amount) =
    if eqb token t then moved a t from to amount else pos 0
call_effect a t (approve token from spender amount until) = pos 0

-- What the account `a` has gained in token `t` by all of the contract's calls.
unfoldable pub net : Address → Address → List TokenCall → ℤ
net a t [] = pos 0
net a t (c ∷ cs) = call_effect a t c +ℤ net a t cs

abbrev pub locked_amount : Address → EscrowRecord → ℤ
locked_amount t e = if is_locked e.status && eqb e.token t then e.amount else pos 0

abbrev pub held_amount : Address → EscrowHold → ℤ
held_amount t h = if is_held h.status && eqb h.token t then h.amount else pos 0

-- What the contract owes in token `t`: the locked escrows and the open holds.
abbrev pub owed : Address → World → ℤ
owed t w = total (locked_amount t) w.escrows +ℤ total (held_amount t) w.escrow_holds

abbrev pub IsSolvent : Address → Address → World → Type 0
IsSolvent c t w = owed t w ≤ℤ net c t w.calls

abbrev pub IsSoundEscrow : String → EscrowRecord → Type 0
IsSoundEscrow k e = (e.order_id ≡ k) × (pos 0 <ℤ e.amount)

abbrev pub IsSoundHold : String → EscrowHold → Type 0
IsSoundHold k h = (h.escrow_id ≡ k) × (pos 0 <ℤ h.amount)

-- Each record stands under its own key and is for a positive amount; the contract is solvent.
pub record Inv (c t : Address) (w : World) : Type 0 where
  pub escrows_sound : Entries IsSoundEscrow w.escrows
  pub holds_sound : Entries IsSoundHold w.escrow_holds
  pub solvent : IsSolvent c t w

-- An amount of token `tok`, as an amount of token `t`.
abbrev pub of_token : Address → Address → ℤ → ℤ
of_token t tok amount = if eqb tok t then amount else pos 0

-- An escrow that leaves the locked state takes its amount off what is owed.
pub owed-unlock :
    (t : Address) (k : String) (e : EscrowRecord) (s : EscrowStatus) (w : World)
    → lookup k w.escrows ≡ some e
    → e.order_id ≡ k
    → is_locked e.status ≡ true
    → is_locked s ≡ false
    → owed t (set_escrow (record e { status = s }) w) +ℤ of_token t e.token e.amount ≡ owed t w
owed-unlock t k e s w found keyed before after =
    grind (int_laws, total-put (locked_amount t) k (record e { status = s }) e w.escrows found)

-- So does a hold that is no longer held.
pub owed-unhold :
    (t : Address) (k : String) (h : EscrowHold) (s : EscrowHoldStatus) (w : World)
    → lookup k w.escrow_holds ≡ some h
    → h.escrow_id ≡ k
    → is_held h.status ≡ true
    → is_held s ≡ false
    → owed t (set_escrow_hold (record h { status = s }) w) +ℤ of_token t h.token h.amount ≡ owed t w
owed-unhold t k h s w found keyed before after =
    grind (int_laws, total-put (held_amount t) k (record h { status = s }) h w.escrow_holds found)

-- A payment out of the contract is covered by what it takes off.
pub payout-le :
    (c t tok to : Address) (x before after : ℤ) (cs : List TokenCall)
    → pos 0 <ℤ x
    → after +ℤ of_token t tok x ≡ before
    → before ≤ℤ net c t cs
    → after ≤ℤ net c t (transfer tok c to x ∷ cs)
unfolding net
payout-le c t tok to x before after cs positive less covered = grind int_laws

-- Settling a locked escrow: its record is closed and its amount leaves the contract.
pub settle-Inv :
    (c t to : Address) (k : String) (e : EscrowRecord) (s : EscrowStatus) (log : List Event)
    (w : World)
    → Inv c t w
    → lookup k w.escrows ≡ some e
    → is_locked e.status ≡ true
    → is_locked s ≡ false
    → Inv c t (record (set_escrow (record e { status = s }) w) {
      calls = transfer e.token c to e.amount ∷ w.calls;
      events = log;
    })
settle-Inv c t to k e s log w inv found before after =
    let (keyed, positive) = Entries-lookup IsSoundEscrow k e w.escrows inv.escrows_sound found in
    record {
      escrows_sound =
          put-Entries IsSoundEscrow e.order_id (record e { status = s }) w.escrows (refl, positive)
            inv.escrows_sound;
      holds_sound = inv.holds_sound;
      solvent =
          payout-le c t e.token to e.amount (owed t w)
            (owed t (set_escrow (record e { status = s }) w)) w.calls positive
            (owed-unlock t k e s w found keyed before after) inv.solvent;
    }

-- The same for a hold.
pub settle_hold-Inv :
    (c t to : Address) (k : String) (h : EscrowHold) (s : EscrowHoldStatus) (log : List Event)
    (w : World)
    → Inv c t w
    → lookup k w.escrow_holds ≡ some h
    → is_held h.status ≡ true
    → is_held s ≡ false
    → Inv c t (record (set_escrow_hold (record h { status = s }) w) {
      calls = transfer h.token c to h.amount ∷ w.calls;
      events = log;
    })
settle_hold-Inv c t to k h s log w inv found before after =
    let (keyed, positive) = Entries-lookup IsSoundHold k h w.escrow_holds inv.holds_sound found in
    record {
      escrows_sound = inv.escrows_sound;
      holds_sound =
          put-Entries IsSoundHold h.escrow_id (record h { status = s }) w.escrow_holds
            (refl, positive) inv.holds_sound;
      solvent =
          payout-le c t h.token to h.amount (owed t w)
            (owed t (set_escrow_hold (record h { status = s }) w)) w.calls positive
            (owed-unhold t k h s w found keyed before after) inv.solvent;
    }

-- A payment into the contract covers a new escrow of the same amount.
pub lock-Inv :
    (c t from : Address) (e : EscrowRecord) (log : List Event) (w : World)
    → Inv c t w
    → from ≢ c
    → pos 0 <ℤ e.amount
    → lookup e.order_id w.escrows ≡ none
    → is_locked e.status ≡ true
    → Inv c t (record (set_escrow e w) {
      calls = transfer e.token from c e.amount ∷ w.calls;
      events = log;
    })
unfolding net
lock-Inv c t from e log w inv distinct positive fresh is = record {
  escrows_sound =
      put-Entries IsSoundEscrow e.order_id e w.escrows (refl, positive) inv.escrows_sound;
  holds_sound = inv.holds_sound;
  solvent =
      grind (int_laws, inv.solvent, total-put_new (locked_amount t) e.order_id e w.escrows fresh);
}

-- The same for a new hold.
pub hold-Inv :
    (c t from : Address) (h : EscrowHold) (log : List Event) (w : World)
    → Inv c t w
    → from ≢ c
    → pos 0 <ℤ h.amount
    → lookup h.escrow_id w.escrow_holds ≡ none
    → is_held h.status ≡ true
    → Inv c t (record (set_escrow_hold h w) {
      calls = transfer h.token from c h.amount ∷ w.calls;
      events = log;
    })
unfolding net
hold-Inv c t from h log w inv distinct positive fresh is = record {
  escrows_sound = inv.escrows_sound;
  holds_sound =
      put-Entries IsSoundHold h.escrow_id h w.escrow_holds (refl, positive) inv.holds_sound;
  solvent =
      grind
        (int_laws, inv.solvent, total-put_new (held_amount t) h.escrow_id h w.escrow_holds fresh);
}
