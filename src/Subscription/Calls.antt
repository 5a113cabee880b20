-- ===== src/Subscription/Calls.antt =====
-- What each call of the subscriptions does to the plans and to the subscriptions.
use lumenflow_contracts.Action.{Action, Done, ok}
use lumenflow_contracts.Base.{
  Option-cases, String, arith, if◌then◌else◌, inl, inr, nat_eq, none, some, string_eq, suc, ℕ, refl,
  ◌==◌, ◌≡◌, ◌+◌, ◌<◌,
}
use lumenflow_contracts.Base.Dict.{put}
use lumenflow_contracts.Base.Int.{ℤ}
use lumenflow_contracts.Host.{Env}
use lumenflow_contracts.Storage.{World, get_subscription, get_subscription_plan}
use lumenflow_contracts.Subscription.Handlers.{
  cancel_subscription, charge_subscription, charged, create_subscription_plan, new_plan,
  new_subscription, renew_subscription_allowance, subscribe,
}
use lumenflow_contracts.Types.{Address, Subscription, SubscriptionPlan, SubscriptionStatus}

pub data SubscriptionCall : Type 0 where
  create_plan : Address → String → Address → ℤ → ℕ → ℕ → SubscriptionCall
  subscribe_to : Address → Address → String → String → SubscriptionCall
  charge cancel : Address → String → SubscriptionCall
  renew : Address → Address → SubscriptionCall

unfoldable pub run_call : SubscriptionCall → Action Done
run_call (create_plan a p t x i m) = create_subscription_plan a p t x i m
run_call (subscribe_to m s p k) = subscribe m s p k
run_call (charge m k) = charge_subscription m k
run_call (cancel c k) = cancel_subscription c k
run_call (renew s t) = renew_subscription_allowance s t

-- The number of charges of the subscription `k` when there were `n` before the call.
abbrev pub count_charge : String → SubscriptionCall → ℕ → ℕ
count_charge k (charge m j) n = if j == k then suc n else n
count_charge k _ n = n

-- The plans are as they were, and one subscription was written under its own id.
pub record IsWrite (j : String) (e : Subscription) (w w' : World) : Type 0 where
  pub own : e.subscription_id ≡ j
  pub plans : w'.recurring.subscription_plans ≡ w.recurring.subscription_plans
  pub written : w'.recurring.subscriptions ≡ put j e w.recurring.subscriptions

pub create_subscription_plan_lem :
    (a : Address) (p : String) (t : Address) (x : ℤ) (i m : ℕ) (env : Env) (w w' : World)
    → create_subscription_plan a p t x i m env w ≡ ok tt w'
    → (get_subscription_plan p w ≡ none)
      × (w'.recurring.subscriptions ≡ w.recurring.subscriptions)
      × ((plan : SubscriptionPlan) × (w'.recurring.subscription_plans
            ≡ put p plan w.recurring.subscription_plans))
unfolding create_subscription_plan
create_subscription_plan_lem a p t x i m env w w' done =
    (ground arith, ground arith, (new_plan p t x i m env.timestamp, ground arith))

pub subscribe_lem :
    (m s : Address) (p k : String) (env : Env) (w w' : World)
    → subscribe m s p k env w ≡ ok tt w'
    → (get_subscription k w ≡ none) × IsWrite k (new_subscription k p m s env.timestamp) w w'
unfolding subscribe
subscribe_lem m s p k env w w' done =
    (ground arith, record { own = refl; plans = ground arith; written = ground arith })

pub charge_subscription-IsWrite :
    (m : Address) (k : String) (env : Env) (w w' : World)
    → charge_subscription m k env w ≡ ok tt w'
    → (s : Subscription) × (plan : SubscriptionPlan) × (get_subscription k w ≡ some s)
      × (get_subscription_plan s.plan_id w ≡ some plan)
      × (s.cycles_charged < plan.max_cycles)
      × IsWrite s.subscription_id
          (charged s (s.cycles_charged + 1) plan.max_cycles env.timestamp)
          w
          w'
unfolding charge_subscription
charge_subscription-IsWrite m k env w w' done = elim (Option-cases (get_subscription k w)) [
  | inl missing ↦ ground arith
  | inr (s, found) ↦ elim (Option-cases (get_subscription_plan s.plan_id w)) [
    | inl missing ↦ ground arith
    | inr (plan, offered) ↦ (
      s,
      plan,
      found,
      offered,
      ground arith,
      record { own = refl; plans = ground arith; written = ground arith },
    )
  ]
]

-- A cancellation changes the status and nothing else of the subscription.
pub cancel_subscription-IsWrite :
    (c : Address) (k : String) (env : Env) (w w' : World)
    → cancel_subscription c k env w ≡ ok tt w'
    → (s : Subscription) × (get_subscription k w ≡ some s)
      × IsWrite s.subscription_id (record s { status = SubscriptionStatus.cancelled }) w w'
unfolding cancel_subscription
cancel_subscription-IsWrite c k env w w' done = elim (Option-cases (get_subscription k w)) [
  | inl missing ↦ ground arith
  | inr (s, found) ↦ (s, found, record { own = refl; plans = ground arith; written = ground arith })
]

pub renew_subscription_allowance_lem :
    (s t : Address) (env : Env) (w w' : World)
    → renew_subscription_allowance s t env w ≡ ok tt w'
    → (w'.recurring.subscription_plans ≡ w.recurring.subscription_plans)
      × (w'.recurring.subscriptions ≡ w.recurring.subscriptions)
unfolding renew_subscription_allowance
renew_subscription_allowance_lem s t env w w' done = (ground arith, ground arith)
