-- ===== src/Storage/Entries.antt =====
-- contracts/lumenflow/src/storage.rs: the records that the contract keeps, by their keys. Each
-- record is written under the key that it carries. Extending an entry's time to live is left out:
-- entries are taken to live until they are removed.
use lumenflow_contracts.Base.{
  nat_eq, string_eq, ℕ, String, Option, List, [], push_back, unwrap_or, if◌then◌else◌,
}
use lumenflow_contracts.Base.Int.{ℤ, pos, leb_ℤ}
use lumenflow_contracts.Base.Dict.{Dict, lookup, put, del}
use lumenflow_contracts.Types.{
  Address, Merchant, PaymentOrder, RefundRecord, DisputeRecord, MultisigPayment, SubscriptionPlan,
  Subscription, EscrowRecord, EscrowHold,
}
use lumenflow_contracts.Storage.State.{World}

abbrev pub get_merchant : Address → World → Option Merchant
get_merchant a w = lookup a w.people.merchants

abbrev pub set_merchant : Merchant → World → World
set_merchant m w = record w {
  people = record (w.people) { merchants = put m.address m w.people.merchants };
}

abbrev pub add_to_merchant_list : Address → World → World
add_to_merchant_list a w = record w {
  people = record (w.people) { merchant_list = push_back w.people.merchant_list a };
}

abbrev pub get_payment : String → World → Option PaymentOrder
get_payment k w = lookup k w.book.payments

abbrev pub set_payment : PaymentOrder → World → World
set_payment p w = record w {
  book = record (w.book) { payments = put p.order_id p w.book.payments };
}

abbrev pub remove_payment : String → World → World
remove_payment k w = record w { book = record (w.book) { payments = del k w.book.payments } }

abbrev pub get_merchant_payment_ids : Address → World → List String
get_merchant_payment_ids m w = unwrap_or [] (lookup m w.book.merchant_payment_ids)

abbrev pub get_payer_payment_ids : Address → World → List String
get_payer_payment_ids p w = unwrap_or [] (lookup p w.book.payer_payment_ids)

abbrev pub get_refund : String → World → Option RefundRecord
get_refund k w = lookup k w.claims.refunds

abbrev pub set_refund : RefundRecord → World → World
set_refund r w = record w {
  claims = record (w.claims) { refunds = put r.refund_id r w.claims.refunds };
}

abbrev pub get_order_refund_ids : String → World → List String
get_order_refund_ids k w = unwrap_or [] (lookup k w.claims.order_refund_ids)

abbrev pub remove_order_refund_index : String → World → World
remove_order_refund_index k w = record w {
  claims = record (w.claims) { order_refund_ids = del k w.claims.order_refund_ids };
}

abbrev pub add_order_refund_id : String → String → World → World
add_order_refund_id k r w = record w {
  claims = record (w.claims) {
    order_refund_ids = put k (push_back (get_order_refund_ids k w) r) w.claims.order_refund_ids;
  };
}

abbrev pub get_dispute : String → World → Option DisputeRecord
get_dispute k w = lookup k w.claims.disputes

abbrev pub set_dispute : DisputeRecord → World → World
set_dispute d w = record w {
  claims = record (w.claims) { disputes = put d.dispute_id d w.claims.disputes };
}

abbrev pub get_multisig : String → World → Option MultisigPayment
get_multisig k w = lookup k w.multisigs

abbrev pub set_multisig : MultisigPayment → World → World
set_multisig m w = record w { multisigs = put m.payment_id m w.multisigs }

abbrev pub get_subscription_plan : String → World → Option SubscriptionPlan
get_subscription_plan k w = lookup k w.recurring.subscription_plans

abbrev pub set_subscription_plan : SubscriptionPlan → World → World
set_subscription_plan p w = record w {
  recurring = record (w.recurring) {
    subscription_plans = put p.plan_id p w.recurring.subscription_plans;
  };
}

abbrev pub get_subscription : String → World → Option Subscription
get_subscription k w = lookup k w.recurring.subscriptions

abbrev pub set_subscription : Subscription → World → World
set_subscription s w = record w {
  recurring = record (w.recurring) {
    subscriptions = put s.subscription_id s w.recurring.subscriptions;
  };
}

-- The reserves of one subscriber, by token.
abbrev pub reserves_of : Address → World → Dict Address ℤ
reserves_of s w = unwrap_or [] (lookup s w.recurring.subscription_reserves)

abbrev pub get_subscription_reserve : Address → Address → World → ℤ
get_subscription_reserve s t w = unwrap_or (pos 0) (lookup t (reserves_of s w))

-- A reserve that is not positive is removed.
abbrev pub set_subscription_reserve : Address → Address → ℤ → World → World
set_subscription_reserve s t amount w = record w {
  recurring = record (w.recurring) {
    subscription_reserves =
        put s
          (if leb_ℤ amount (pos 0) then del t (reserves_of s w) else put t amount (reserves_of s w))
          w.recurring.subscription_reserves;
  };
}

abbrev pub get_escrow : String → World → Option EscrowRecord
get_escrow k w = lookup k w.escrows

abbrev pub set_escrow : EscrowRecord → World → World
set_escrow e w = record w { escrows = put e.order_id e w.escrows }

abbrev pub get_escrow_hold : String → World → Option EscrowHold
get_escrow_hold k w = lookup k w.escrow_holds

abbrev pub set_escrow_hold : EscrowHold → World → World
set_escrow_hold h w = record w { escrow_holds = put h.escrow_id h w.escrow_holds }

abbrev pub get_nonce : Address → World → ℕ
get_nonce p w = unwrap_or 0 (lookup p w.book.nonces)

abbrev pub get_merchant_nonce : Address → World → ℕ
get_merchant_nonce m w = unwrap_or 0 (lookup m w.book.merchant_nonces)
