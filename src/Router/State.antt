-- ===== src/Router/State.antt =====
-- contracts/router/src/lib.rs: the keys that the router stores (`RouterKey`), and its events.
use lumenflow_contracts.Base.{List, Option, ℕ, push_back}
use lumenflow_contracts.Types.{Address}

pub data Slot : Type 0 where
  blue green : Slot

pub data RouterEvent : Type 0 where
  blue_green_cutover : Slot → RouterEvent
  routed_to_canary routed_to_stable routed_to_blue routed_to_green : ℕ → RouterEvent

pub record Router : Type 0 where
  pub blue_contract : Option Address
  pub green_contract : Option Address
  pub active_slot : Option Slot
  pub stable_contract : Option Address
  pub canary_contract : Option Address
  pub canary_weight : Option ℕ
  pub admin : Option Address
  pub events : List RouterEvent

abbrev pub emit : RouterEvent → Router → Router
emit e r = record r { events = push_back r.events e }
