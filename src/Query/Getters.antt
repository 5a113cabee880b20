-- ===== src/Query/Getters.antt =====
-- contracts/lumenflow/src/lib.rs: the entry points that read one record, or the records of an order.
-- They carry the names of the accessors of storage.rs that they call.
use Prim.Native.Nat.{max}
use lumenflow_contracts.Action.{Action, fail_if, gets, or_fail, pure, require_auth, ◌>>=◌, ◌>>◌}
use lumenflow_contracts.Base.{
  Bool, List, Option, String, [], contains, eqb, is_some, length, nat_eq, none, not, some,
  string_eq, true, ℕ, ◌&&◌, ◌∷◌,
}
use lumenflow_contracts.Base.Int.{ℤ}
use lumenflow_contracts.Guards.{is_address}
use lumenflow_contracts.Storage.{
  World, get_admin, get_merchant_payment_ids, get_multisig, get_nonce, get_order_refund_ids,
  get_payer_payment_ids, get_payment,
}
use lumenflow_contracts.Types.{
  Address, DisputeRecord, EscrowHold, EscrowRecord, Merchant, MerchantStats, MultisigPayment,
  PaymentOrder, PaymentStatus, RefundRecord, Subscription, SubscriptionPlan, dispute_not_found,
  escrow_not_found, merchant_not_found, multisig_not_found, payment_not_found, refund_not_found,
  subscription_not_found, subscription_plan_not_found, unauthorized,
}
use lumenflow_contracts.Storage

unfoldable pub get_merchant : Address → Action Merchant
get_merchant merchant_address = do
  found ← gets (Storage.get_merchant merchant_address)
  or_fail found merchant_not_found

unfoldable pub is_registered : Address → World → Bool
is_registered merchant_address w = is_some (Storage.get_merchant merchant_address w)

unfoldable pub get_payer_nonce : Address → World → ℕ
get_payer_nonce payer w = get_nonce payer w

unfoldable pub get_account_payment_count : Address → World → ℕ
get_account_payment_count a w =
    max (length (get_merchant_payment_ids a w)) (length (get_payer_payment_ids a w))

-- `!is_admin && caller != payment.payer && caller != payment.merchant_address`
abbrev pub is_outsider : Address → PaymentOrder → World → Bool
is_outsider caller p w =
    not (is_address (get_admin w) caller)
    && not (eqb caller p.payer)
    && not (eqb caller p.merchant_address)

unfoldable pub get_payment_by_id : Address → String → Action PaymentOrder
get_payment_by_id caller order_id = do
  require_auth caller
  found ← gets (get_payment order_id)
  payment ← or_fail found payment_not_found
  outsider ← gets (is_outsider caller payment)
  fail_if outsider unauthorized
  pure payment

pub record PaymentSummary : Type 0 where
  pub order_id : String
  pub merchant_address : Address
  pub amount : ℤ
  pub token : Address
  pub status : PaymentStatus
  pub paid_at : ℕ

abbrev pub summary : PaymentOrder → PaymentSummary
summary p = record {
  order_id = p.order_id;
  merchant_address = p.merchant_address;
  amount = p.amount;
  token = p.token;
  status = p.status;
  paid_at = p.paid_at;
}

unfoldable pub get_payment_summary : String → Action PaymentSummary
get_payment_summary order_id = do
  found ← gets (get_payment order_id)
  payment ← or_fail found payment_not_found
  pure (summary payment)

abbrev pub keep_refund : Option RefundRecord → List RefundRecord → List RefundRecord
keep_refund none rest = rest
keep_refund (some r) rest = r ∷ rest

abbrev pub load_refunds : List String → World → List RefundRecord
load_refunds [] w = []
load_refunds (id ∷ ids) w = keep_refund (Storage.get_refund id w) (load_refunds ids w)

unfoldable pub get_refunds_for_order : Address → String → Action (List RefundRecord)
get_refunds_for_order caller order_id = do
  require_auth caller
  found ← gets (get_payment order_id)
  payment ← or_fail found payment_not_found
  outsider ← gets (is_outsider caller payment)
  fail_if outsider unauthorized
  ids ← gets (get_order_refund_ids order_id)
  gets (load_refunds ids)

-- Whether the payment of a refund gives its payer or merchant no access to it.
abbrev pub is_stranger : Address → Option PaymentOrder → Bool
is_stranger caller none = true
is_stranger caller (some p) = not (eqb caller p.payer) && not (eqb caller p.merchant_address)

abbrev pub may_not_read : Address → RefundRecord → World → Bool
may_not_read caller r w =
    not (is_address (get_admin w) caller)
    && not (eqb caller r.initiator)
    && is_stranger caller (get_payment r.order_id w)

unfoldable pub get_refund : Address → String → Action RefundRecord
get_refund caller refund_id = do
  require_auth caller
  found ← gets (Storage.get_refund refund_id)
  refund ← or_fail found refund_not_found
  refused ← gets (may_not_read caller refund)
  fail_if refused unauthorized
  pure refund

unfoldable pub get_dispute : String → Action DisputeRecord
get_dispute dispute_id = do
  found ← gets (Storage.get_dispute dispute_id)
  or_fail found dispute_not_found

abbrev pub is_not_party : Address → MultisigPayment → World → Bool
is_not_party caller ms w =
    not (is_address (get_admin w) caller)
    && not (eqb caller ms.initiator)
    && not (contains ms.signers caller)
    && not (eqb caller ms.merchant_address)

unfoldable pub get_multisig_payment : Address → String → Action MultisigPayment
get_multisig_payment caller payment_id = do
  require_auth caller
  found ← gets (get_multisig payment_id)
  ms ← or_fail found multisig_not_found
  refused ← gets (is_not_party caller ms)
  fail_if refused unauthorized
  pure ms

unfoldable pub get_subscription_plan : String → Action SubscriptionPlan
get_subscription_plan plan_id = do
  found ← gets (Storage.get_subscription_plan plan_id)
  or_fail found subscription_plan_not_found

unfoldable pub get_subscription : String → Action Subscription
get_subscription subscription_id = do
  found ← gets (Storage.get_subscription subscription_id)
  or_fail found subscription_not_found

unfoldable pub get_escrow : String → Action EscrowRecord
get_escrow order_id = do found ← gets (Storage.get_escrow order_id); or_fail found escrow_not_found

unfoldable pub get_escrow_hold : String → Action EscrowHold
get_escrow_hold escrow_id = do
  found ← gets (Storage.get_escrow_hold escrow_id)
  or_fail found escrow_not_found

unfoldable pub get_merchant_stats : Address → Action MerchantStats
get_merchant_stats merchant = do require_auth merchant; gets (Storage.get_merchant_stats merchant)

-- The nonce of the last payment that the merchant has signed.
unfoldable pub get_merchant_nonce : Address → World → ℕ
get_merchant_nonce merchant_address w = Storage.get_merchant_nonce merchant_address w
