-- ===== src/Router/Cutover.antt =====
-- The router along any sequence of its administrator's calls.
use lumenflow_contracts.Base.{
  eqb_iff, Option, Option-cases, [], arith, inl, inr, is_some, nat_eq, none, some, string_eq, true,
  ℕ, ◌≡◌, ◌≤◌,
}
use lumenflow_contracts.Router.Traffic.{returns}
use lumenflow_contracts.Router.Handlers.{
  Signed, get_active_slot, get_canary_weight, require_admin, route_call, set_active_slot, set_admin,
  set_blue_contract, set_canary_contract, set_canary_weight, set_green_contract,
  set_stable_contract, slot_contract,
}
use lumenflow_contracts.Router.State.{Router, Slot, blue, green}
use lumenflow_contracts.Types.{Address}

-- The calls that change what the router stores.
pub data RouterCall : Type 0 where
  admin_to : Address → RouterCall
  blue_to green_to stable_to canary_to : Address → Address → RouterCall
  slot_to : Address → Slot → RouterCall
  weight_to : Address → ℕ → RouterCall

unfoldable pub perform : Signed → RouterCall → Router → Option Router
perform signed (admin_to a) = set_admin signed a
perform signed (blue_to a c) = set_blue_contract signed a c
perform signed (green_to a c) = set_green_contract signed a c
perform signed (stable_to a c) = set_stable_contract signed a c
perform signed (canary_to a c) = set_canary_contract signed a c
perform signed (slot_to a s) = set_active_slot signed a s
perform signed (weight_to a n) = set_canary_weight signed a n

-- The weight is a percentage, and the contract of the slot that was made active is set.
pub record IsRouted (r : Router) : Type 0 where
  pub percentage : get_canary_weight r ≤ 100
  pub configured :
      is_some r.active_slot ≡ true → is_some (slot_contract (get_active_slot r) r) ≡ true

-- A router as it is deployed, and what calls make of it.
pub data Reached : Router → Type 0 where
  deployed : Reached (record {
    blue_contract = none;
    green_contract = none;
    active_slot = none;
    stable_contract = none;
    canary_contract = none;
    canary_weight = none;
    admin = none;
    events = [];
  })
  performed :
      (signed : Signed) (c : RouterCall) (r r' : Router)
      → Reached r
      → perform signed c r ≡ some r'
      → Reached r'
  answered :
      (seq : ℕ) (contract : Address) (r r' : Router)
      → Reached r
      → route_call seq r ≡ some (contract, r')
      → Reached r'

perform-IsRouted :
    (signed : Signed) (c : RouterCall) (r r' : Router)
    → IsRouted r
    → perform signed c r ≡ some r'
    → IsRouted r'
unfolding perform
perform-IsRouted signed (admin_to a) r r' old done = ground arith
perform-IsRouted signed (blue_to a c) r r' old done = ground arith
perform-IsRouted signed (green_to a c) r r' old done = ground arith
perform-IsRouted signed (stable_to a c) r r' old done = ground arith
perform-IsRouted signed (canary_to a c) r r' old done = ground arith
perform-IsRouted signed (slot_to a s) r r' old done = ground arith
perform-IsRouted signed (weight_to a n) r r' old done = ground arith

route_call-IsRouted :
    (seq : ℕ) (contract : Address) (r r' : Router)
    → IsRouted r
    → route_call seq r ≡ some (contract, r')
    → IsRouted r'
unfolding route_call
route_call-IsRouted seq contract r r' old done = ground arith

Reached-IsRouted : (r : Router) → Reached r → IsRouted r
Reached-IsRouted r deployed = record { percentage = omega arith; configured = λ h. ground arith }
Reached-IsRouted r (performed signed c before _ reached done) =
    perform-IsRouted signed c before r (Reached-IsRouted before reached) done
Reached-IsRouted r (answered seq contract before _ reached done) =
    route_call-IsRouted seq contract before r (Reached-IsRouted before reached) done

route_call_slot :
    (r : Router) (slot : Slot) (seq : ℕ) (contract : Address)
    → get_canary_weight r ≡ 0
    → get_active_slot r ≡ slot
    → slot_contract slot r ≡ some contract
    → returns contract (route_call seq r) ≡ true
unfolding route_call
route_call_slot r blue seq contract quiet active found =
    rw quiet (rw active (ground (arith, eqb_iff contract contract)))
route_call_slot r green seq contract quiet active found =
    rw quiet (rw active (ground (arith, eqb_iff contract contract)))

-- In every router that calls can reach from its deployment, the canary's weight is at most 100; and
-- once a slot has been made active, every call that comes while the weight is zero gets the contract
-- of that slot: it does not fail.
pub Reached-routes :
    (r : Router) (slot : Slot) (seq : ℕ)
    → Reached r
    → r.active_slot ≡ some slot
    → (get_canary_weight r ≤ 100)
      × (get_canary_weight r ≡ 0
          → (contract : Address) × (slot_contract slot r ≡ some contract)
            × (returns contract (route_call seq r) ≡ true))
unfolding route_call
Reached-routes r slot seq reached active =
    let safe = Reached-IsRouted r reached in
    (
      safe.percentage,
      λ zero_weight. elim (Option-cases (slot_contract slot r)) [
        | inl missing ↦ ground (arith, safe.configured)
        | inr (contract, found) ↦
            (contract, found, route_call_slot r slot seq contract zero_weight (cc) found)
      ],
    )

-- A cutover is the administrator's and takes effect at once: while the canary's weight is zero, the
-- next call, at any ledger, gets the contract of the new slot, which was set before. Cutting back to
-- the slot that was active before the cutover restores what the calls got, at every ledger.
pub set_active_slot_lem :
    (signed signed' : Signed) (a a' : Address) (slot old : Slot) (r r' r'' : Router) (seq : ℕ)
    → get_canary_weight r ≡ 0
    → get_active_slot r ≡ old
    → perform signed (slot_to a slot) r ≡ some r'
    → perform signed' (slot_to a' old) r' ≡ some r''
    → (require_admin signed a r ≡ true)
      × ((contract : Address) × (slot_contract slot r ≡ some contract)
          × (returns contract (route_call seq r') ≡ true))
      × ((contract : Address)
          → returns contract (route_call seq r'') ≡ returns contract (route_call seq r))
unfolding perform route_call
set_active_slot_lem signed signed' a a' slot old r r' r'' seq quiet was done undone = (
  ground arith,
  elim (Option-cases (slot_contract slot r)) [
    | inl missing ↦ ground arith
    | inr (contract, found) ↦ (
      contract,
      found,
      route_call_slot r' slot seq contract (ground arith) (ground arith) (ground arith),
    )
  ],
  λ contract. ground arith,
)
