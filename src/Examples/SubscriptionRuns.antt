-- ===== src/Examples/SubscriptionRuns.antt =====
-- Runs of the entry points for subscriptions.
use lumenflow_contracts.Action.{left_by, ok, saturating_add_u64}
use lumenflow_contracts.Base.{
  [], arith, false, nat_eq, refl, some, string_eq, true, ◌<◌, ◌∷◌, ◌≡◌, ◌≤◌,
}
use lumenflow_contracts.Base.Dict.{Entries, Entries-nil, put-Entries, del, lookup, put}
use lumenflow_contracts.Base.Int.{clamp_i128, pos, ◌-ℤ◌}
use lumenflow_contracts.Examples.Scene.{empty_world, host_at}
use lumenflow_contracts.Host.{transfer_from}
use lumenflow_contracts.Storage.{World, get_subscription}
use lumenflow_contracts.Subscription.Charges.{Charges, Charges-bounded, charge_subscription_lem}
use lumenflow_contracts.Subscription.Counting.{AfterCharges, IsOwnId}
use lumenflow_contracts.Subscription.Calls.{SubscriptionCall, run_call}
use lumenflow_contracts.Subscription.Handlers.{
  cancel_subscription, charge_subscription, charged, is_cancelled, new_plan, new_subscription,
}
use lumenflow_contracts.Types.{Subscription, SubscriptionPlan}

abbrev monthly : SubscriptionPlan
monthly = new_plan "monthly" 7 (pos 50) 100 2 1

abbrev reader : Subscription
reader = new_subscription "reader" "monthly" 2 3 10

abbrev subscribed : World
subscribed = record empty_world {
  recurring = record {
    subscription_plans = ("monthly", monthly) ∷ [];
    subscriptions = ("reader", reader) ∷ [];
    subscription_reserves = (3, (7, pos 100) ∷ []) ∷ [];
  };
}

abbrev charged_world : World
charged_world = left_by subscribed (charge_subscription 2 "reader" (host_at 110) subscribed)

charge_run : charge_subscription 2 "reader" (host_at 110) subscribed ≡ ok tt charged_world
unfolding charge_subscription lookup put del clamp_i128 ◌-ℤ◌
charge_run = refl

charge_subscription_example :
    (true ≡ true)
    × (2 ≡ reader.merchant)
    × (is_cancelled reader.status ≡ false)
    × (reader.cycles_charged < monthly.max_cycles)
    × (saturating_add_u64 reader.last_charged_at monthly.interval_secs ≤ 110)
    × (get_subscription "reader" charged_world ≡ some (charged reader 1 2 110))
    × (charged_world.recurring.subscription_plans ≡ subscribed.recurring.subscription_plans)
    × (charged_world.calls ≡ transfer_from 7 9 3 2 (pos 50) ∷ [])
unfolding lookup
charge_subscription_example =
    charge_subscription_lem 2 "reader" (host_at 110) subscribed charged_world reader monthly refl
      refl refl charge_run

subscribed-IsOwnId : Entries IsOwnId subscribed.recurring.subscriptions
unfolding put
subscribed-IsOwnId = put-Entries IsOwnId "reader" reader [] refl (Entries-nil IsOwnId)

charge_call_run :
    run_call (SubscriptionCall.charge 2 "reader") (host_at 110) subscribed ≡ ok tt charged_world
unfolding run_call
charge_call_run = charge_run

abbrev ended_world : World
ended_world = left_by charged_world (cancel_subscription 3 "reader" (host_at 120) charged_world)

cancel_call_run :
    run_call (SubscriptionCall.cancel 3 "reader") (host_at 120) charged_world ≡ ok tt ended_world
unfolding run_call charge_subscription cancel_subscription lookup put del clamp_i128 ◌-ℤ◌
cancel_call_run = refl

-- One charge, then the subscriber cancels.
Charges-bounded_example : AfterCharges "reader" reader monthly 1 ended_world
unfolding lookup
Charges-bounded_example =
    Charges-bounded "reader" subscribed ended_world 1 reader monthly subscribed-IsOwnId refl refl
      (omega arith)
      (Charges.call (SubscriptionCall.cancel 3 "reader") (host_at 120)
        (Charges.call (SubscriptionCall.charge 2 "reader") (host_at 110) Charges.start
          charge_call_run)
        cancel_call_run)
