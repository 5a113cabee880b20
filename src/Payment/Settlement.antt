-- ===== src/Payment/Settlement.antt =====
-- What a batch payment does: whom it pays, and what it records.
use lumenflow_contracts.Base.{
  All, Bool-cases, List, String, [], ap, arith, eqb, false, if◌then◌else◌, inl, inr, length, nat_eq,
  push_back, refl, string_eq, subst, sym, true, ◌∙◌, ◌∷◌, ◌≡◌, ◌≤◌,
}
use lumenflow_contracts.Base.Dict.{lookup}
use lumenflow_contracts.Payment.Stored.{
  AllStored, has_id, lookup-put_items, put_items, put_items-AllStored, store_items_lem,
}
use lumenflow_contracts.Action.{left_by, ok, value_of}
use lumenflow_contracts.Base.Int.{int_laws, pos, ℤ, ◌+ℤ◌}
use lumenflow_contracts.Escrow.Solvency.{call_effect, net}
use lumenflow_contracts.Host.{Env, payment_processed, transfer}
use lumenflow_contracts.Payment.Batch.{
  Group, batch_payment, check_items, group_items, is_group_of, max_batch_size, pay_groups,
  publish_items, store_items,
}
use lumenflow_contracts.Payment.Checked.{IsCheckedItem, check_items_lem}
use lumenflow_contracts.Payment.Grouping.{OneEach, group_items_lem, grouped_amount, item_amount}
use lumenflow_contracts.Storage.{World, get_global_stats, get_payment}
use lumenflow_contracts.Types.{Address, BatchPaymentItem}

-- What the transfer of a group means for a merchant who is not the payer.
transfer_effect :
    (payer t m : Address) (g : Group)
    → eqb payer m ≡ false
    → call_effect m t (transfer g.token payer g.merchant g.total)
      ≡ (if is_group_of t m g then g.total else pos 0)
transfer_effect payer t m g other = elim (Bool-cases (eqb g.token t)) [
  | inl token ↦ elim (Bool-cases (eqb g.merchant m)) [
    | inl merchant ↦ rw token (rw merchant (rw other (omega int_laws)))
    | inr differ ↦ rw token (rw differ (rw other (omega int_laws)))
  ]
  | inr differ ↦ rw differ refl
]

pay_groups_lem :
    (payer t m : Address) (gs : List Group) (env : Env) (w w' : World)
    → eqb payer m ≡ false
    → pay_groups payer gs env w ≡ ok tt w'
    → (w'.book ≡ w.book) × (net m t w'.calls ≡ net m t w.calls +ℤ grouped_amount t m gs)
unfolding pay_groups grouped_amount net
pay_groups_lem payer t m [] env w w' other done =
    let same : w' ≡ w = ground arith in (ap (λ v. v.book) same, rw same (omega int_laws))
pay_groups_lem payer t m (g ∷ gs) env w w' other done =
    let c = transfer g.token payer g.merchant g.total in
    let u : World = record w { calls = c ∷ w.calls } in
    let rest = pay_groups_lem payer t m gs env u w' other (ground arith) in
    let effect : call_effect m t c ≡ (if is_group_of t m g then g.total else pos 0) =
      transfer_effect payer t m g other in
    (rest.0, grind (int_laws, rest.1, effect))

publish_items_lem :
    (payer : Address) (items : List BatchPaymentItem) (env : Env) (w w' : World)
    → publish_items payer items env w ≡ ok tt w'
    → (w'.book ≡ w.book) × (w'.calls ≡ w.calls)
unfolding publish_items
publish_items_lem payer [] env w w' done = (ground arith, ground arith)
publish_items_lem payer (i ∷ items) env w w' done =
    let u = record w {
      events = push_back w.events (payment_processed i.merchant_address i.order_id payer i.amount);
    } in
    publish_items_lem payer items env u w' (ground arith)

check_items-book :
    (items : List BatchPaymentItem) (env : Env) (w w' : World)
    → check_items items [] env w ≡ ok tt w'
    → (w'.book.payments ≡ w.book.payments) × (w'.calls ≡ w.calls)
check_items-book items env w w' done =
    let (_, _, (_, same)) = check_items_lem items [] env w w' done in
    (ap (λ v. v.book.payments) same, ap (λ v. v.calls) same)

-- What a batch came to after its checks: `gs` are its groups.
record IsSettled (payer : Address) (items : List BatchPaymentItem) (env : Env) (w w' : World)
    : Type 0 where
  signed : env.authorized payer ≡ true
  short : length items ≤ max_batch_size
  checked_in : World
  checks : check_items items [] env w ≡ ok tt checked_in
  groups : List Group
  grouped_in : World
  grouping : group_items items [] env checked_in ≡ ok groups grouped_in
  paid_in : World
  payout : pay_groups payer groups env grouped_in ≡ ok tt paid_in
  stored_in : World
  storage : store_items payer items (get_global_stats paid_in) env paid_in ≡ ok tt stored_in
  publication : publish_items payer items env stored_in ≡ ok tt w'

batch_payment-IsSettled :
    (payer : Address) (items : List BatchPaymentItem) (env : Env) (w w' : World)
    → batch_payment payer items env w ≡ ok tt w'
    → IsSettled payer items env w w'
unfolding batch_payment
batch_payment-IsSettled payer items env w w' done =
    let w1 = left_by w (check_items items [] env w) in
    let one : check_items items [] env w ≡ ok tt w1 = ground arith in
    let gs = value_of [] (group_items items [] env w1) in
    let w2 = left_by w (group_items items [] env w1) in
    let two : group_items items [] env w1 ≡ ok gs w2 = ground (arith, one) in
    let w3 = left_by w (pay_groups payer gs env w2) in
    let three : pay_groups payer gs env w2 ≡ ok tt w3 = ground (arith, one, two) in
    let w4 = left_by w (store_items payer items (get_global_stats w3) env w3) in
    let four : store_items payer items (get_global_stats w3) env w3 ≡ ok tt w4 =
      ground (arith, one, two, three) in
    record {
      signed = ground arith;
      short = ground arith;
      checked_in = w1;
      checks = one;
      groups = gs;
      grouped_in = w2;
      grouping = two;
      paid_in = w3;
      payout = three;
      stored_in = w4;
      storage = four;
      publication = ground (arith, one, two, three, four);
    }

no_groups : OneEach []
unfolding OneEach
no_groups = tt

no_amount :
    (t m : Address) (items : List BatchPaymentItem) (x : ℤ)
    → x +ℤ (grouped_amount t m [] +ℤ item_amount t m items) ≡ x +ℤ item_amount t m items
unfolding grouped_amount
no_amount t m items x = omega int_laws

-- A batch payment that goes through is signed by the payer and has at most ten items, each of which
-- has passed its checks: a positive amount of an allowed token, an order id without a payment, an
-- active merchant and a signature that the given key accepts. Each item is then recorded as a
-- payment of its own, no other payment changes, and each merchant who is not the payer gains, in each
-- token, exactly the sum of the items that name the two.
pub batch_payment_lem :
    (payer t m : Address) (k : String) (items : List BatchPaymentItem) (env : Env) (w w' : World)
    → eqb payer m ≡ false
    → has_id k items ≡ false
    → batch_payment payer items env w ≡ ok tt w'
    → (env.authorized payer ≡ true)
      × (length items ≤ max_batch_size)
      × All (IsCheckedItem env w) items
      × AllStored payer env.timestamp w'.book.payments items
      × (get_payment k w' ≡ get_payment k w)
      × (net m t w'.calls ≡ net m t w.calls +ℤ item_amount t m items)
batch_payment_lem payer t m k items env w w' other absent done =
    let s = batch_payment-IsSettled payer items env w w' done in
    let (fresh, checked, _) = check_items_lem items [] env w s.checked_in s.checks in
    let kept = check_items-book items env w s.checked_in s.checks in
    let (still, _, amount) =
      group_items_lem items [] s.groups env s.checked_in s.grouped_in t m no_groups s.grouping in
    let paid = pay_groups_lem payer t m s.groups env s.grouped_in s.paid_in other s.payout in
    let stored =
      store_items_lem payer items (get_global_stats s.paid_in) env s.paid_in s.stored_in
        s.storage in
    let said = publish_items_lem payer items env s.stored_in w' s.publication in
    let payments : w'.book.payments ≡ put_items payer env.timestamp items w.book.payments =
      ap (λ b. b.payments) said.0
      ∙ stored.1
      ∙ ap (λ b. put_items payer env.timestamp items (b.payments)) paid.0
      ∙ ap (λ v. put_items payer env.timestamp items v.book.payments) still
      ∙ ap (put_items payer env.timestamp items) kept.0 in
    let calls : w'.calls ≡ s.paid_in.calls = said.1 ∙ stored.0 in
    let before : s.grouped_in.calls ≡ w.calls = ap (λ v. v.calls) still ∙ kept.1 in
    (
      s.signed,
      s.short,
      checked,
      subst (λ d. AllStored payer env.timestamp d items) (sym payments)
          (put_items-AllStored payer env.timestamp items [] w.book.payments fresh),
      ap (lookup k) payments ∙ lookup-put_items k payer env.timestamp items w.book.payments absent,
      rw calls (paid.1 ∙ rw before (rw amount (no_amount t m items (net m t w.calls)))),
    )
