-- ===== src/Subscription/Counting.antt =====
-- What each call of the subscriptions means for the charges of one of them.
use lumenflow_contracts.Action.{ok}
use lumenflow_contracts.Base.{
  ==_eq, Bool-cases, String, ap, arith, false, inl, inr, nat_eq, none, some, string_eq, suc, subst,
  sym, ℕ, ◌+◌, ◌<◌, ◌==◌, ◌∙◌, ◌≡◌, ◌≤◌,
}
use lumenflow_contracts.Base.Dict.{
  Dict, Entries, Entries-lookup, lookup, lookup-put, lookup-put_self, put-Entries,
}
use lumenflow_contracts.Host.{Env}
use lumenflow_contracts.Storage.{World, get_subscription, get_subscription_plan}
use lumenflow_contracts.Subscription.Calls.{
  IsWrite, SubscriptionCall, cancel, cancel_subscription-IsWrite, charge,
  charge_subscription-IsWrite, count_charge, create_plan, create_subscription_plan_lem, renew,
  renew_subscription_allowance_lem, run_call, subscribe_lem, subscribe_to,
}
use lumenflow_contracts.Subscription.Handlers.{charge_subscription, charged, new_subscription}
use lumenflow_contracts.Types.{Address, Subscription, SubscriptionPlan, SubscriptionStatus}

abbrev pub IsOwnId : String → Subscription → Type 0
IsOwnId k s = s.subscription_id ≡ k

-- What `n` charges leave of the subscription `k`, which was `sub`: it is on the same plan, which is
-- as it was, and has been charged for the cycles of `sub` and `n` more, which the plan allows.
pub record AfterCharges (k : String) (sub : Subscription) (plan : SubscriptionPlan) (n : ℕ)
    (v : World) : Type 0 where
  pub current : Subscription
  pub found : get_subscription k v ≡ some current
  pub same_plan : current.plan_id ≡ sub.plan_id
  pub offered : get_subscription_plan sub.plan_id v ≡ some plan
  pub counted : current.cycles_charged ≡ sub.cycles_charged + n
  pub bounded : current.cycles_charged ≤ plan.max_cycles
  pub keyed : Entries IsOwnId v.recurring.subscriptions

-- Nothing of the subscriptions is changed.
pub same-AfterCharges :
    {k : String} {sub : Subscription} {plan : SubscriptionPlan} {n : ℕ} {u v : World}
    → v.recurring.subscriptions ≡ u.recurring.subscriptions
    → v.recurring.subscription_plans ≡ u.recurring.subscription_plans
    → AfterCharges k sub plan n u
    → AfterCharges k sub plan n v
same-AfterCharges {k} {sub} same plans a = record {
  current = a.current;
  found = ap (lookup k) same ∙ a.found;
  same_plan = a.same_plan;
  offered = ap (lookup sub.plan_id) plans ∙ a.offered;
  counted = a.counted;
  bounded = a.bounded;
  keyed = subst (Entries IsOwnId) (sym same) a.keyed;
}

-- Another subscription is written.
other-AfterCharges :
    {k : String} {sub : Subscription} {plan : SubscriptionPlan} {n : ℕ} {u v : World} (j : String)
    (e : Subscription)
    → (j == k) ≡ false
    → IsWrite j e u v
    → AfterCharges k sub plan n u
    → AfterCharges k sub plan n v
other-AfterCharges {k} {sub} {u = u} j e differ write a = record {
  current = a.current;
  found =
      ap (lookup k) write.written ∙ lookup-put k j e u.recurring.subscriptions ∙ rw differ a.found;
  same_plan = a.same_plan;
  offered = ap (lookup sub.plan_id) write.plans ∙ a.offered;
  counted = a.counted;
  bounded = a.bounded;
  keyed =
      subst (Entries IsOwnId) (sym write.written)
        (put-Entries IsOwnId j e u.recurring.subscriptions write.own a.keyed);
}

-- The subscription itself is written, on its plan and within its cycles.
own-AfterCharges :
    {k : String} {sub : Subscription} {plan : SubscriptionPlan} {n m : ℕ} {u v : World}
    (e : Subscription)
    → IsWrite k e u v
    → e.plan_id ≡ sub.plan_id
    → e.cycles_charged ≡ sub.cycles_charged + m
    → e.cycles_charged ≤ plan.max_cycles
    → AfterCharges k sub plan n u
    → AfterCharges k sub plan m v
own-AfterCharges {k} {sub} {u = u} e write same_plan counted bounded a = record {
  current = e;
  found = ap (lookup k) write.written ∙ lookup-put_self k e u.recurring.subscriptions;
  same_plan = same_plan;
  offered = ap (lookup sub.plan_id) write.plans ∙ a.offered;
  counted = counted;
  bounded = bounded;
  keyed =
      subst (Entries IsOwnId) (sym write.written)
        (put-Entries IsOwnId k e u.recurring.subscriptions write.own a.keyed);
}

-- A charge of the subscription itself.
charge-AfterCharges :
    {k : String} {sub : Subscription} {plan : SubscriptionPlan} {n : ℕ} {u v : World}
    (merchant : Address) (env : Env)
    → charge_subscription merchant k env u ≡ ok tt v
    → AfterCharges k sub plan n u
    → AfterCharges k sub plan (suc n) v
charge-AfterCharges {k} {sub} {plan} {n} {u} {v} merchant env done a =
    let (s, offer, found, offered, left, write) =
      charge_subscription-IsWrite merchant k env u v done in
    let same : s ≡ a.current = ground (arith, found, a.found) in
    let same_plan : s.plan_id ≡ sub.plan_id = ap (λ x. x.plan_id) same ∙ a.same_plan in
    let same_offer : offer ≡ plan =
      ground
        (arith, a.offered, subst (λ i. get_subscription_plan i u ≡ some offer) same_plan offered) in
    let counted : s.cycles_charged ≡ sub.cycles_charged + n =
      ap (λ x. x.cycles_charged) same ∙ a.counted in
    let within : s.cycles_charged < plan.max_cycles =
      subst (λ o. s.cycles_charged < o.max_cycles) same_offer left in
    let own = Entries-lookup IsOwnId k s u.recurring.subscriptions a.keyed found in
    let e = charged s (s.cycles_charged + 1) offer.max_cycles env.timestamp in
    own-AfterCharges e (subst (λ i. IsWrite i e u v) own write) same_plan (omega (arith, counted))
      (omega (arith, within)) a

-- A call that puts a new entry under an id that is in use fails.
fresh_differs :
    {V : Type 0} (j k : String) (d : Dict String V) (v : V)
    → lookup j d ≡ none
    → lookup k d ≡ some v
    → (j == k) ≡ false
fresh_differs j k d v fresh found = elim (Bool-cases (j == k)) [
  | inl same ↦
      let both : lookup k d ≡ none = subst (λ i. lookup i d ≡ none) (==_eq j k same) fresh in
      ground (arith, both, found)
  | inr differ ↦ differ
]

pub call-AfterCharges :
    {k : String} {sub : Subscription} {plan : SubscriptionPlan} {n : ℕ} {u v : World}
    (c : SubscriptionCall) (env : Env)
    → run_call c env u ≡ ok tt v
    → AfterCharges k sub plan n u
    → AfterCharges k sub plan (count_charge k c n) v
unfolding run_call
call-AfterCharges {k} {sub} {plan} {n} {u} {v} (create_plan a p t x i m) env done before =
    let (fresh, same, (new, written)) = create_subscription_plan_lem a p t x i m env u v done in
    let differ =
      fresh_differs p sub.plan_id u.recurring.subscription_plans plan fresh before.offered in
    record {
      current = before.current;
      found = ap (lookup k) same ∙ before.found;
      same_plan = before.same_plan;
      offered =
          ap (lookup sub.plan_id) written
          ∙ lookup-put sub.plan_id p new u.recurring.subscription_plans
          ∙ rw differ before.offered;
      counted = before.counted;
      bounded = before.bounded;
      keyed = subst (Entries IsOwnId) (sym same) before.keyed;
    }
call-AfterCharges {k} {u = u} {v} (subscribe_to m s p j) env done before =
    let (fresh, write) = subscribe_lem m s p j env u v done in
    other-AfterCharges j (new_subscription j p m s env.timestamp)
      (fresh_differs j k u.recurring.subscriptions before.current fresh before.found) write before
call-AfterCharges {k} {sub} {plan} {n} {u} {v} (charge m j) env done before =
    elim (Bool-cases (j == k)) [
      | inl same ↦
          let own : charge_subscription m k env u ≡ ok tt v =
            subst (λ i. charge_subscription m i env u ≡ ok tt v) (==_eq j k same) done in
          rw same (charge-AfterCharges m env own before)
      | inr differ ↦
          let (s, offer, found, offered, left, write) =
            charge_subscription-IsWrite m j env u v done in
          let own = Entries-lookup IsOwnId j s u.recurring.subscriptions before.keyed found in
          let e = charged s (s.cycles_charged + 1) offer.max_cycles env.timestamp in
          rw differ (other-AfterCharges j e differ (subst (λ i. IsWrite i e u v) own write) before)
    ]
call-AfterCharges {k} {sub} {plan} {n} {u} {v} (cancel c j) env done before =
    let (s, found, write) = cancel_subscription-IsWrite c j env u v done in
    let own = Entries-lookup IsOwnId j s u.recurring.subscriptions before.keyed found in
    let e = record s { status = SubscriptionStatus.cancelled } in
    let write_j = subst (λ i. IsWrite i e u v) own write in
    elim (Bool-cases (j == k)) [
      | inl same ↦
          let here : get_subscription k u ≡ some s =
            subst (λ i. get_subscription i u ≡ some s) (==_eq j k same) found in
          let known : s ≡ before.current = ground (arith, here, before.found) in
          own-AfterCharges e (subst (λ i. IsWrite i e u v) (==_eq j k same) write_j)
            (ap (λ x. x.plan_id) known ∙ before.same_plan)
            (ap (λ x. x.cycles_charged) known ∙ before.counted)
            (subst (λ x. x.cycles_charged ≤ plan.max_cycles) (sym known) before.bounded) before
      | inr differ ↦ other-AfterCharges j e differ write_j before
    ]
call-AfterCharges {u = u} {v} (renew s t) env done before =
    let (plans, same) = renew_subscription_allowance_lem s t env u v done in
    same-AfterCharges same plans before
