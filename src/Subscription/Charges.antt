-- ===== src/Subscription/Charges.antt =====
-- How often, when and for how much a subscriber is charged.
use lumenflow_contracts.Action.{ok, saturating_add_u64}
use lumenflow_contracts.Base.{
  String, arith, false, nat_eq, refl, some, string_eq, true, ℕ, ◌+◌, ◌<◌, ◌∷◌, ◌≡◌, ◌≤◌,
}
use lumenflow_contracts.Base.Dict.{Entries, lookup-put_self}
use lumenflow_contracts.Host.{Env, transfer_from}
use lumenflow_contracts.Storage.{World, get_subscription, get_subscription_plan}
use lumenflow_contracts.Subscription.Calls.{SubscriptionCall, count_charge, run_call}
use lumenflow_contracts.Subscription.Handlers.{charge_subscription, charged, is_cancelled}
use lumenflow_contracts.Types.{Address, Subscription, SubscriptionPlan}
use lumenflow_contracts.Subscription.Counting.{
  AfterCharges, IsOwnId, call-AfterCharges, same-AfterCharges,
}

-- A charge that goes through is the merchant's own, on a subscription that is not cancelled and has
-- cycles left, not before the interval since the last charge; it takes the plan's amount from the
-- subscriber for the merchant, and counts one cycle.
pub charge_subscription_lem :
    (merchant : Address) (k : String) (env : Env) (w w' : World) (sub : Subscription)
    (plan : SubscriptionPlan)
    → get_subscription k w ≡ some sub
    → sub.subscription_id ≡ k
    → get_subscription_plan sub.plan_id w ≡ some plan
    → charge_subscription merchant k env w ≡ ok tt w'
    → (env.authorized merchant ≡ true)
      × (merchant ≡ sub.merchant)
      × (is_cancelled sub.status ≡ false)
      × (sub.cycles_charged < plan.max_cycles)
      × (saturating_add_u64 sub.last_charged_at plan.interval_secs ≤ env.timestamp)
      × (get_subscription k w'
          ≡ some (charged sub (sub.cycles_charged + 1) plan.max_cycles env.timestamp))
      × (w'.recurring.subscription_plans ≡ w.recurring.subscription_plans)
      × (w'.calls
          ≡ transfer_from plan.token env.contract sub.subscriber sub.merchant plan.amount ∷ w.calls)
unfolding charge_subscription
charge_subscription_lem merchant k env w w' sub plan found keyed offered done = (
  ground arith,
  ground arith,
  ground arith,
  ground arith,
  ground arith,
  ground (
    arith,
    lookup-put_self k (charged sub (sub.cycles_charged + 1) plan.max_cycles env.timestamp)
        w.recurring.subscriptions,
  ),
  ground arith,
  ground arith,
)

-- A history of calls of the five entry points of the subscriptions, by anybody and on any plan and
-- subscription, with `n` charges of the subscription `k`. `elsewhere` is any change that leaves the
-- plans and the subscriptions alone.
pub data Charges (k : String) (w : World) : ℕ → World → Type 0 where
  start : Charges k w 0 w
  call :
      {n : ℕ} {u v : World} (c : SubscriptionCall) (env : Env)
      → Charges k w n u
      → run_call c env u ≡ ok tt v
      → Charges k w (count_charge k c n) v
  elsewhere :
      {n : ℕ} {u v : World}
      → Charges k w n u
      → v.recurring.subscriptions ≡ u.recurring.subscriptions
      → v.recurring.subscription_plans ≡ u.recurring.subscription_plans
      → Charges k w n v

-- Let every subscription stand under its own id, and let `k` be one that has been charged for at most
-- its plan's cycles. After any history of calls of the entry points of the subscriptions, by anybody
-- and on any plan and subscription, cancellations and new plans among them, with changes in between
-- that leave plans and subscriptions alone, it still has its plan, its record counts the cycles charged before and
-- every charge of the history, and together they are at most the plan's `max_cycles`.
pub Charges-bounded :
    (k : String) (w v : World) (n : ℕ) (sub : Subscription) (plan : SubscriptionPlan)
    → Entries IsOwnId w.recurring.subscriptions
    → get_subscription k w ≡ some sub
    → get_subscription_plan sub.plan_id w ≡ some plan
    → sub.cycles_charged ≤ plan.max_cycles
    → Charges k w n v
    → AfterCharges k sub plan n v
Charges-bounded k w v n sub plan keyed found offered bounded start = record {
  current = sub;
  found = found;
  same_plan = refl;
  offered = offered;
  counted = omega arith;
  bounded = bounded;
  keyed = keyed;
}
Charges-bounded k w v n sub plan keyed found offered bounded (call {n = m} {u = u} c env r done) =
    call-AfterCharges c env done (Charges-bounded k w u m sub plan keyed found offered bounded r)
Charges-bounded k w v n sub plan keyed found offered bounded (elsewhere {u = u} r same plans) =
    same-AfterCharges same plans (Charges-bounded k w u n sub plan keyed found offered bounded r)
