-- ===== src/Registration/Counts.antt =====
-- The count of active merchants.
use lumenflow_contracts.Registration.Handlers.{deactivate_merchant}
use lumenflow_contracts.Action.{ok}
use lumenflow_contracts.Base.{arith, false, nat_eq, some, string_eq, ◌-◌, ◌≡◌}
use lumenflow_contracts.Base.Dict.{lookup-put_self}
use lumenflow_contracts.Host.{Env}
use lumenflow_contracts.Storage.{World, get_global_stats, get_merchant}
use lumenflow_contracts.Types.{Address, Merchant}

-- Deactivating lowers the count by one, down to zero, and does not look at whether the merchant was
-- active: two deactivations of one merchant lower it by two, though one merchant was deactivated.
pub deactivate_merchant_twice :
    (admin a : Address) (env later : Env) (w u v : World) (m : Merchant)
    → get_merchant a w ≡ some m
    → m.address ≡ a
    → deactivate_merchant admin a env w ≡ ok tt u
    → deactivate_merchant admin a later u ≡ ok tt v
    → (get_merchant a u ≡ some (record m { active = false }))
      × (get_merchant a v ≡ get_merchant a u)
      × ((get_global_stats v).active_merchants ≡ (get_global_stats w).active_merchants - 2)
unfolding deactivate_merchant
deactivate_merchant_twice admin a env later w u v m found keyed first second =
    let m' : Merchant = record m { active = false } in
    let once_found : get_merchant a u ≡ some m' =
      ground (arith, lookup-put_self a m' w.people.merchants) in
    (once_found, ground (arith, once_found, lookup-put_self a m' u.people.merchants), ground arith)
