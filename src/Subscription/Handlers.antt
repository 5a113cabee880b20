-- ===== src/Subscription/Handlers.antt =====
-- contracts/lumenflow/src/lib.rs, "Subscriptions".
use lumenflow_contracts.Action.{
  Action, Done, add_u32, ask, call_token, fail_if, gets, modify, or_fail, publish, require_auth,
  saturating_add, saturating_add_u64, saturating_mul, saturating_sub, sub_unsigned, when, ◌>>=◌,
  ◌>>◌,
}
use lumenflow_contracts.Base.{
  Bool, String, eqb, false, if◌then◌else◌, is_some, leb, ltb, nat_eq, not, string_eq, true, ℕ, ◌&&◌,
  ◌||◌,
}
use lumenflow_contracts.Base.Int.{pos, ℤ}
use lumenflow_contracts.Guards.{
  require_admin_rate_limited, require_not_paused, require_positive, require_valid_id,
}
use lumenflow_contracts.Host.{
  approve, subscription_cancelled, subscription_charged, subscription_created,
  subscription_plan_created, transfer_from,
}
use lumenflow_contracts.Storage.{
  get_merchant, get_subscription, get_subscription_plan, get_subscription_reserve, is_token_allowed,
  set_subscription, set_subscription_plan, set_subscription_reserve,
}
use lumenflow_contracts.Types.{
  Address, Subscription, SubscriptionPlan, SubscriptionStatus, invalid_input, merchant_inactive,
  merchant_not_found, subscription_already_exists, subscription_interval_not_elapsed,
  subscription_max_cycles_reached, subscription_not_active, subscription_not_found,
  subscription_plan_already_exists, subscription_plan_not_found, token_not_allowed, unauthorized,
}

abbrev pub new_plan : String → Address → ℤ → ℕ → ℕ → ℕ → SubscriptionPlan
new_plan plan_id token amount interval_secs max_cycles now = record {
  plan_id = plan_id;
  token = token;
  amount = amount;
  interval_secs = interval_secs;
  max_cycles = max_cycles;
  created_at = now;
}

unfoldable pub create_subscription_plan : Address → String → Address → ℤ → ℕ → ℕ → Action Done
unfolding require_not_paused require_admin_rate_limited require_positive require_valid_id
create_subscription_plan admin plan_id token amount interval_secs max_cycles = do
  require_not_paused
  require_admin_rate_limited admin
  require_valid_id plan_id
  require_positive amount
  fail_if (eqb interval_secs 0 || eqb max_cycles 0) invalid_input
  allowed ← gets (is_token_allowed token)
  fail_if (not allowed) token_not_allowed
  existing ← gets (get_subscription_plan plan_id)
  fail_if (is_some existing) subscription_plan_already_exists
  env ← ask
  modify
      (set_subscription_plan (new_plan plan_id token amount interval_secs max_cycles env.timestamp))
  publish (subscription_plan_created plan_id)

abbrev pub new_subscription : String → String → Address → Address → ℕ → Subscription
new_subscription subscription_id plan_id merchant subscriber now = record {
  subscription_id = subscription_id;
  plan_id = plan_id;
  merchant = merchant;
  subscriber = subscriber;
  status = SubscriptionStatus.active;
  cycles_charged = 0;
  last_charged_at = now;
  created_at = now;
}

unfoldable pub subscribe : Address → Address → String → String → Action Done
unfolding require_not_paused require_valid_id
subscribe merchant subscriber plan_id subscription_id = do
  require_not_paused
  require_auth subscriber
  require_valid_id subscription_id
  offered ← gets (get_subscription_plan plan_id)
  plan ← or_fail offered subscription_plan_not_found
  existing ← gets (get_subscription subscription_id)
  fail_if (is_some existing) subscription_already_exists
  found ← gets (get_merchant merchant)
  m ← or_fail found merchant_not_found
  fail_if (not m.active) merchant_inactive
  env ← ask
  modify (
      set_subscription (new_subscription subscription_id plan_id merchant subscriber env.timestamp))
  let total_amount = saturating_mul plan.amount (pos plan.max_cycles)
  before ← gets (get_subscription_reserve subscriber plan.token)
  let reserve = saturating_add before total_amount
  modify (set_subscription_reserve subscriber plan.token reserve)
  call_token (approve plan.token subscriber env.contract reserve env.max_live_until_ledger)
  publish (subscription_created subscription_id subscriber merchant)

abbrev pub is_cancelled : SubscriptionStatus → Bool
is_cancelled SubscriptionStatus.cancelled = true
is_cancelled _ = false

abbrev pub is_active : SubscriptionStatus → Bool
is_active SubscriptionStatus.active = true
is_active _ = false

-- The subscription after one more charge.
abbrev pub charged : Subscription → ℕ → ℕ → ℕ → Subscription
charged sub cycles max_cycles now = record sub {
  cycles_charged = cycles;
  last_charged_at = now;
  status = if leb max_cycles cycles then SubscriptionStatus.completed else sub.status;
}

unfoldable pub charge_subscription : Address → String → Action Done
unfolding require_not_paused
charge_subscription merchant subscription_id = do
  require_not_paused
  require_auth merchant
  known ← gets (get_subscription subscription_id)
  sub ← or_fail known subscription_not_found
  fail_if (not (eqb merchant sub.merchant)) unauthorized
  fail_if (is_cancelled sub.status) subscription_not_active
  offered ← gets (get_subscription_plan sub.plan_id)
  plan ← or_fail offered subscription_plan_not_found
  allowed ← gets (is_token_allowed plan.token)
  fail_if (not allowed) token_not_allowed
  found ← gets (get_merchant sub.merchant)
  m ← or_fail found merchant_not_found
  fail_if (not m.active) merchant_inactive
  fail_if (leb plan.max_cycles sub.cycles_charged) subscription_max_cycles_reached
  env ← ask
  fail_if (ltb env.timestamp (saturating_add_u64 sub.last_charged_at plan.interval_secs))
      subscription_interval_not_elapsed
  cycles ← add_u32 sub.cycles_charged 1
  modify (set_subscription (charged sub cycles plan.max_cycles env.timestamp))
  before ← gets (get_subscription_reserve sub.subscriber plan.token)
  modify (set_subscription_reserve sub.subscriber plan.token (saturating_sub before plan.amount))
  call_token (transfer_from plan.token env.contract sub.subscriber sub.merchant plan.amount)
  publish (subscription_charged subscription_id cycles plan.amount)

unfoldable pub cancel_subscription : Address → String → Action Done
unfolding require_not_paused
cancel_subscription caller subscription_id = do
  require_not_paused
  require_auth caller
  known ← gets (get_subscription subscription_id)
  sub ← or_fail known subscription_not_found
  fail_if (not (eqb caller sub.merchant) && not (eqb caller sub.subscriber)) unauthorized
  fail_if (not (is_active sub.status)) subscription_not_active
  offered ← gets (get_subscription_plan sub.plan_id)
  plan ← or_fail offered subscription_plan_not_found
  modify (set_subscription (record sub { status = SubscriptionStatus.cancelled }))
  left ← sub_unsigned plan.max_cycles sub.cycles_charged
  before ← gets (get_subscription_reserve sub.subscriber plan.token)
  let reserve = saturating_sub before (saturating_mul plan.amount (pos left))
  modify (set_subscription_reserve sub.subscriber plan.token reserve)
  env ← ask
  when (eqb caller sub.subscriber) (
      call_token (approve plan.token sub.subscriber env.contract reserve env.max_live_until_ledger))
  publish (subscription_cancelled subscription_id caller)

unfoldable pub renew_subscription_allowance : Address → Address → Action Done
unfolding require_not_paused
renew_subscription_allowance subscriber token = do
  require_not_paused
  require_auth subscriber
  reserve ← gets (get_subscription_reserve subscriber token)
  env ← ask
  call_token (approve token subscriber env.contract reserve env.max_live_until_ledger)
