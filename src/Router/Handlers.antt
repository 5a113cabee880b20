-- ===== src/Router/Handlers.antt =====
-- contracts/router/src/lib.rs: the entry points of `RouterContract`. A failed `assert!`, `expect` or
-- `require_auth` ends the call, which is `none`; the host then undoes what the call wrote.
use lumenflow_contracts.Base.{
  Bool, Option, false, true, if◌then◌else◌, eqb, is_some, leb, ltb, nat_eq, none, some, string_eq,
  unwrap_or, ℕ, ◌%◌, ◌&&◌,
}
use lumenflow_contracts.Router.State.{
  Router, RouterEvent, Slot, blue, blue_green_cutover, emit, green, routed_to_blue,
  routed_to_canary, routed_to_green, routed_to_stable,
}
use lumenflow_contracts.Types.{Address}

-- The addresses that have authorised a call.
abbrev pub Signed : Type 0
Signed = Address → Bool

-- `opt == Some(caller)`
abbrev pub is_router_admin : Option Address → Address → Bool
is_router_admin none caller = false
is_router_admin (some admin) caller = eqb caller admin

-- `admin.require_auth()` and the check of `Self::require_admin`.
abbrev pub require_admin : Signed → Address → Router → Bool
require_admin signed caller r = signed caller && is_router_admin r.admin caller

-- The current administrator must sign a change of the key; the first may be anyone.
abbrev pub may_set_admin : Signed → Option Address → Bool
may_set_admin signed none = true
may_set_admin signed (some current) = signed current

abbrev pub set_admin : Signed → Address → Router → Option Router
set_admin signed admin r =
    if may_set_admin signed r.admin then some (record r { admin = some admin }) else none

abbrev pub set_blue_contract : Signed → Address → Address → Router → Option Router
set_blue_contract signed admin blue_id r =
    if require_admin signed admin r then some (record r { blue_contract = some blue_id }) else none

abbrev pub set_green_contract : Signed → Address → Address → Router → Option Router
set_green_contract signed admin green_id r =
    if require_admin signed admin r
    then some (record r { green_contract = some green_id })
    else none

-- The contract that stands in a slot.
abbrev pub slot_contract : Slot → Router → Option Address
slot_contract blue r = r.blue_contract
slot_contract green r = r.green_contract

abbrev pub set_active_slot : Signed → Address → Slot → Router → Option Router
set_active_slot signed admin slot r =
    if require_admin signed admin r && is_some (slot_contract slot r)
    then some (emit (blue_green_cutover slot) (record r { active_slot = some slot }))
    else none

abbrev pub set_stable_contract : Signed → Address → Address → Router → Option Router
set_stable_contract signed admin stable_id r =
    if require_admin signed admin r
    then some (record r { stable_contract = some stable_id })
    else none

abbrev pub set_canary_contract : Signed → Address → Address → Router → Option Router
set_canary_contract signed admin canary_id r =
    if require_admin signed admin r
    then some (record r { canary_contract = some canary_id })
    else none

abbrev pub set_canary_weight : Signed → Address → ℕ → Router → Option Router
set_canary_weight signed admin weight r =
    if require_admin signed admin r && leb weight 100
    then some (record r { canary_weight = some weight })
    else none

abbrev pub get_active_slot : Router → Slot
get_active_slot r = unwrap_or blue r.active_slot

abbrev pub get_blue_contract : Router → Option Address
get_blue_contract r = r.blue_contract

abbrev pub get_green_contract : Router → Option Address
get_green_contract r = r.green_contract

abbrev pub get_stable_contract : Router → Option Address
get_stable_contract r = r.stable_contract

abbrev pub get_canary_contract : Router → Option Address
get_canary_contract r = r.canary_contract

abbrev pub get_canary_weight : Router → ℕ
get_canary_weight r = unwrap_or 0 r.canary_weight

-- `expect` a contract, publish where the call went and return the contract.
abbrev pub routed : Option Address → RouterEvent → Router → Option (Address × Router)
routed none e r = none
routed (some contract) e r = some (contract, emit e r)

abbrev pub route_slot : Slot → ℕ → Router → Option (Address × Router)
route_slot blue ledger_seq r = routed r.blue_contract (routed_to_blue ledger_seq) r
route_slot green ledger_seq r = routed r.green_contract (routed_to_green ledger_seq) r

abbrev pub route_canary : ℕ → Router → Option (Address × Router)
route_canary ledger_seq r =
    if ltb (ledger_seq % 100) (get_canary_weight r)
    then routed r.canary_contract (routed_to_canary ledger_seq) r
    else routed r.stable_contract (routed_to_stable ledger_seq) r

unfoldable pub route_call : ℕ → Router → Option (Address × Router)
route_call ledger_seq r =
    if ltb 0 (get_canary_weight r)
    then route_canary ledger_seq r
    else route_slot (get_active_slot r) ledger_seq r
