-- ===== src/Examples/RefundRuns.antt =====
-- Runs of the refund entry points.
use lumenflow_contracts.Base.{
  ◌↔◌, String, [], arith, nat_eq, none, refl, some, string_eq, true, ◌∷◌, ◌≡◌,
}
use lumenflow_contracts.Query.Access.{MayReadMultisig, MayReadPayment, MayReadRefund, readers_lem}
use lumenflow_contracts.Query.Getters.{
  get_multisig_payment, get_payment_by_id, get_refunds_for_order, load_refunds,
}
use lumenflow_contracts.Refund.History.{Operation, Reach, call, here, next, perform}
use lumenflow_contracts.Query.Getters
use lumenflow_contracts.Multisig.Handlers.{new_multisig}
use lumenflow_contracts.Types.{
  MultisigPayment, PaymentOrder, PaymentStatus, RefundRecord, RefundStatus,
}
use lumenflow_contracts.Base.Dict.{Entries-nil, put-Entries, total, lookup, put}
use lumenflow_contracts.Refund.Accounts.{IsAccounted, Reach-IsAccounted}
use lumenflow_contracts.Refund.Approval.{IsApproved, Reach-IsApproved}
use lumenflow_contracts.Refund.Requests.{approve_refund, initiate_refund, new_refund}
use lumenflow_contracts.Action.{left_by, ok}
use lumenflow_contracts.Base.Int.{clamp_i128, in_i128, pos, ◌+ℤ◌}
use lumenflow_contracts.Host.{transfer}
use lumenflow_contracts.Refund.Limits.{CanExecute, execute_refund_succeeds}
use lumenflow_contracts.Storage.{get_payment, get_multisig, get_order_refund_ids, get_refund, World}
use lumenflow_contracts.Examples.Scene.{empty_world, host_at}
use lumenflow_contracts.Refund.Execution.{execute_refund, refund_status}

abbrev sale : PaymentOrder
sale = record {
  order_id = "sale";
  merchant_address = 2;
  payer = 3;
  token = 7;
  amount = pos 1000;
  version = 0;
  status = PaymentStatus.completed;
  paid_at = 0;
  refunded_amount = pos 0;
  memo = "";
  tags = none;
  platform_fee = pos 0;
}

abbrev approved_refund : String → RefundRecord
approved_refund k = record (new_refund k "sale" 3 (pos 800) "broken" 5) {
  status = RefundStatus.approved;
}

-- Two refunds of 800 of a payment of 1000, both approved.
abbrev claimed : World
claimed = record empty_world {
  book = record (empty_world.book) { payments = ("sale", sale) ∷ [] };
  claims = record {
    refunds = ("a", approved_refund "a") ∷ ("b", approved_refund "b") ∷ [];
    order_refund_ids = ("sale", "a" ∷ "b" ∷ []) ∷ [];
    disputes = [];
  };
}

abbrev once : World
once = left_by claimed (execute_refund "a" (host_at 50) claimed)

abbrev twice : World
twice = left_by once (execute_refund "b" (host_at 50) once)

CanExecute-claimed : CanExecute "a" (approved_refund "a") sale (host_at 50) claimed
unfolding lookup in_i128 ◌+ℤ◌
CanExecute-claimed = record {
  running = refl;
  found = refl;
  approved = refl;
  paid = refl;
  signed = refl;
  accepted = refl;
  in_range = refl;
  version_fits = omega arith;
  merchant_count_fits = omega arith;
  count_fits = omega arith;
}

execute_refund_succeeds_example :
    (w' : World) × (execute_refund "a" (host_at 50) claimed ≡ ok tt w')
    × (w'.calls ≡ transfer 7 2 3 (pos 800) ∷ claimed.calls)
    × (get_refund "a" w' ≡ some (record (approved_refund "a") { status = RefundStatus.completed }))
    × (get_payment "sale" w'
        ≡ some (record sale {
          refunded_amount = sale.refunded_amount +ℤ pos 800;
          status = refund_status sale.amount (sale.refunded_amount +ℤ pos 800);
          version = 1;
        }))
execute_refund_succeeds_example =
    execute_refund_succeeds "a" (approved_refund "a") sale (host_at 50) claimed CanExecute-claimed

run_once : execute_refund "a" (host_at 50) claimed ≡ ok tt once
unfolding execute_refund lookup put in_i128 clamp_i128 ◌+ℤ◌
run_once = refl

abbrev asked : World
asked = left_by claimed (initiate_refund 3 "c" "sale" (pos 200) "late" (host_at 50) claimed)

ask_run : initiate_refund 3 "c" "sale" (pos 200) "late" (host_at 50) claimed ≡ ok tt asked
unfolding initiate_refund lookup put in_i128 ◌+ℤ◌
ask_run = refl

-- A payment of 1000 that is asked back in part, by the payer, and approved by the merchant.
abbrev bought : World
bought = record empty_world { book = record (empty_world.book) { payments = ("sale", sale) ∷ [] } }

abbrev requested_world : World
requested_world =
    left_by bought (initiate_refund 3 "a" "sale" (pos 800) "broken" (host_at 5) bought)

abbrev approved_world : World
approved_world = left_by requested_world (approve_refund 2 "a" (host_at 6) requested_world)

abbrev repaid_world : World
repaid_world = left_by approved_world (execute_refund "a" (host_at 7) approved_world)

request_run :
    perform (Operation.initiate 3 "a" "sale" (pos 800) "broken") (host_at 5) bought
    ≡ ok tt requested_world
unfolding perform initiate_refund lookup put in_i128 ◌+ℤ◌
request_run = refl

approve_run : perform (Operation.approve 2 "a") (host_at 6) requested_world ≡ ok tt approved_world
unfolding perform approve_refund initiate_refund lookup put in_i128 ◌+ℤ◌
approve_run = refl

repay_run : perform (Operation.execute "a") (host_at 7) approved_world ≡ ok tt repaid_world
unfolding perform execute_refund approve_refund initiate_refund lookup put in_i128 clamp_i128 ◌+ℤ◌
repay_run = refl

abbrev claim_history : Reach bought repaid_world
claim_history =
    next (next (next here (call _ (host_at 5) request_run)) (call _ (host_at 6) approve_run))
      (call _ (host_at 7) repay_run)

bought-IsAccounted : IsAccounted bought
unfolding lookup put total
bought-IsAccounted = record {
  refunds_keyed = Entries-nil _;
  payments_keyed = put-Entries _ "sale" sale [] refl (Entries-nil _);
  accounted = λ o. ground arith;
}

Reach-IsAccounted_example : IsAccounted repaid_world
Reach-IsAccounted_example = Reach-IsAccounted bought-IsAccounted claim_history

Reach-IsApproved_example : IsApproved "a" repaid_world claim_history
unfolding execute_refund approve_refund initiate_refund lookup put in_i128 clamp_i128 ◌+ℤ◌
Reach-IsApproved_example = Reach-IsApproved "a" claim_history bought-IsAccounted refl refl

abbrev deal : MultisigPayment
deal = new_multisig "sale" 3 2 7 (pos 400) (3 ∷ 4 ∷ []) 1 10 1000

-- One id names a payment, a refund and a multi-signature payment.
abbrev shared : World
shared = record claimed {
  claims = record (claimed.claims) { refunds = ("sale", approved_refund "sale") ∷ [] };
  multisigs = ("sale", deal) ∷ [];
}

readers_example :
    ((get_payment_by_id 3 "sale" (host_at 5) shared ≡ ok sale shared) ↔ (
      (true ≡ true)
      × (get_payment "sale" shared ≡ some sale)
      × MayReadPayment shared 3 sale
      × (shared ≡ shared)))
    × ((get_refunds_for_order 3 "sale" (host_at 5) shared ≡ ok [] shared) ↔ (
        (true ≡ true)
        × ((q : PaymentOrder) × (get_payment "sale" shared ≡ some q) × MayReadPayment shared 3 q)
        × ([] ≡ load_refunds (get_order_refund_ids "sale" shared) shared)
        × (shared ≡ shared)))
    × ((Getters.get_refund 3 "sale" (host_at 5) shared ≡ ok (approved_refund "sale") shared) ↔ (
        (true ≡ true)
        × (get_refund "sale" shared ≡ some (approved_refund "sale"))
        × MayReadRefund shared 3 (approved_refund "sale")
        × (shared ≡ shared)))
    × ((get_multisig_payment 3 "sale" (host_at 5) shared ≡ ok deal shared) ↔ (
        (true ≡ true)
        × (get_multisig "sale" shared ≡ some deal)
        × MayReadMultisig shared 3 deal
        × (shared ≡ shared)))
readers_example =
    readers_lem 3 "sale" (host_at 5) shared shared sale [] (approved_refund "sale") deal
