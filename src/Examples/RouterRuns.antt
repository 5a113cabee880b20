-- ===== src/Examples/RouterRuns.antt =====
-- Runs of the router.
use lumenflow_contracts.Router.State.{green, blue_green_cutover}
use lumenflow_contracts.Router.Traffic.{returns}
use lumenflow_contracts.Router.Cutover.{perform}
use lumenflow_contracts.Base.{
  [], arith, eqb, nat_eq, none, refl, some, string_eq, true, ◌+◌, ◌∷◌, ◌≡◌, ◌≤◌,
}
use lumenflow_contracts.Router.Cutover.{Reached, Reached-routes, RouterCall}
use lumenflow_contracts.Router.Handlers.{Signed, get_canary_weight, route_call, slot_contract}
use lumenflow_contracts.Router.State.{Router, blue_green_cutover}
use lumenflow_contracts.Router.Traffic.{calls_to, canary_share}
use lumenflow_contracts.Types.{Address}

abbrev fresh_router : Router
fresh_router = record {
  blue_contract = none;
  green_contract = none;
  active_slot = none;
  stable_contract = none;
  canary_contract = none;
  canary_weight = none;
  admin = none;
  events = [];
}

abbrev canary_router : Router
canary_router = record fresh_router {
  stable_contract = some 20;
  canary_contract = some 21;
  canary_weight = some 5;
}

canary_share_example :
    (calls_to 21 canary_router 1234 100 ≡ 5) × (calls_to 20 canary_router 1234 100 + 5 ≡ 100)
canary_share_example =
    canary_share canary_router 21 20 1234 (omega arith) (omega arith) refl refl (omega arith)

abbrev owned_router : Router
owned_router = record fresh_router { admin = some 1 }

abbrev green_router : Router
green_router = record owned_router { green_contract = some 31 }

abbrev cut_router : Router
cut_router = record green_router {
  active_slot = some green;
  events = blue_green_cutover green ∷ [];
}

owner_signs : Signed
owner_signs = eqb 1

owned-Reached : Reached owned_router
unfolding perform
owned-Reached =
    Reached.performed owner_signs (RouterCall.admin_to 1) fresh_router owned_router Reached.deployed
      refl

green-Reached : Reached green_router
unfolding perform owner_signs
green-Reached =
    Reached.performed owner_signs (RouterCall.green_to 1 31) owned_router green_router owned-Reached
      refl

cut-Reached : Reached cut_router
unfolding perform owner_signs
cut-Reached =
    Reached.performed owner_signs (RouterCall.slot_to 1 green) green_router cut_router green-Reached
      refl

Reached-routes_example :
    (get_canary_weight cut_router ≤ 100)
    × (get_canary_weight cut_router ≡ 0
        → (contract : Address) × (slot_contract green cut_router ≡ some contract)
          × (returns contract (route_call 77 cut_router) ≡ true))
Reached-routes_example = Reached-routes cut_router green 77 cut-Reached refl
