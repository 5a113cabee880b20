-- ===== src/Types/Records.antt =====
-- contracts/lumenflow/src/types.rs: what the contract stores. An address is known by its identity
-- alone, so it is a number; `String` is the text whose `len` counts bytes, as the host's does.
use lumenflow_contracts.Base.{ℕ, String, Bool, Option, List}
use lumenflow_contracts.Base.Int.{ℤ}

abbrev pub Address : Type 0
Address = ℕ

abbrev pub Bytes : Type 0
Bytes = List ℕ

pub data MerchantCategory : Type 0 where
  retail food services digital other : MerchantCategory
  custom : String → MerchantCategory

pub record Merchant : Type 0 where
  pub address : Address
  pub name : String
  pub description : String
  pub contact_info : String
  pub category : MerchantCategory
  pub active : Bool
  pub verified : Bool
  pub registered_at : ℕ
  pub total_received : ℤ
  pub referral_count : ℕ

pub record ReferralStats : Type 0 where
  pub referrer : Address
  pub referral_count : ℕ
  pub reward_bps : ℕ

pub data PaymentStatus : Type 0 where
  completed partially_refunded fully_refunded : PaymentStatus

pub record PaymentOrder : Type 0 where
  pub order_id : String
  pub merchant_address : Address
  pub payer : Address
  pub token : Address
  pub amount : ℤ
  pub version : ℕ
  pub status : PaymentStatus
  pub paid_at : ℕ
  pub refunded_amount : ℤ
  pub memo : String
  pub tags : Option (List String)
  pub platform_fee : ℤ

pub record PaymentRequest : Type 0 where
  pub request_id : String
  pub merchant : Address
  pub token : Address
  pub amount : ℤ
  pub memo : String
  pub expires_at : ℕ

pub record BatchPaymentItem : Type 0 where
  pub order_id : String
  pub merchant_address : Address
  pub token_address : Address
  pub amount : ℤ
  pub memo : String
  pub tags : Option (List String)
  pub signature : Bytes
  pub merchant_public_key : Bytes

pub data RefundStatus : Type 0 where
  pending approved rejected completed : RefundStatus

pub record RefundRecord : Type 0 where
  pub refund_id : String
  pub order_id : String
  pub initiator : Address
  pub amount : ℤ
  pub reason : String
  pub status : RefundStatus
  pub created_at : ℕ

pub record SignatureEntry : Type 0 where
  pub signer : Address
  pub signature : Bytes

pub record MultisigPayment : Type 0 where
  pub payment_id : String
  pub initiator : Address
  pub merchant_address : Address
  pub token : Address
  pub amount : ℤ
  pub required_signatures : ℕ
  pub signers : List Address
  pub collected : List SignatureEntry
  pub executed : Bool
  pub cancelled : Bool
  pub created_at : ℕ
  pub expires_at : Option ℕ

pub record MerchantCommitment : Type 0 where
  pub merchant_address : Address
  pub commitment_hash : Bytes
  pub committed_at_ledger : ℕ

pub record GlobalStats : Type 0 where
  pub total_payments : ℕ
  pub total_volume : ℤ
  pub total_refunds : ℕ
  pub total_refund_volume : ℤ
  pub active_merchants : ℕ

pub record MerchantStats : Type 0 where
  pub total_payments : ℕ
  pub total_volume : ℤ
  pub total_refunds : ℕ
  pub total_refund_volume : ℤ

pub data EscrowStatus : Type 0 where
  locked released cancelled : EscrowStatus

pub record EscrowRecord : Type 0 where
  pub order_id : String
  pub payer : Address
  pub merchant : Address
  pub token : Address
  pub amount : ℤ
  pub unlock_at : ℕ
  pub status : EscrowStatus
  pub created_at : ℕ

pub data EscrowHoldStatus : Type 0 where
  held released cancelled : EscrowHoldStatus

pub record EscrowHold : Type 0 where
  pub escrow_id : String
  pub payer : Address
  pub merchant : Address
  pub token : Address
  pub amount : ℤ
  pub condition_hash : Bytes
  pub arbiter : Address
  pub timeout_at : ℕ
  pub status : EscrowHoldStatus
  pub created_at : ℕ

pub data DisputeStatus : Type 0 where
  opened under_review resolved escalated : DisputeStatus

pub data DisputeOutcome : Type 0 where
  merchant_favor payer_favor : DisputeOutcome

pub record DisputeRecord : Type 0 where
  pub dispute_id : String
  pub order_id : String
  pub refund_id : String
  pub initiator : Address
  pub reason : String
  pub status : DisputeStatus
  pub outcome : Option DisputeOutcome
  pub resolution : Option String
  pub created_at : ℕ

pub data SubscriptionStatus : Type 0 where
  active cancelled completed : SubscriptionStatus

pub record SubscriptionPlan : Type 0 where
  pub plan_id : String
  pub token : Address
  pub amount : ℤ
  pub interval_secs : ℕ
  pub max_cycles : ℕ
  pub created_at : ℕ

pub record Subscription : Type 0 where
  pub subscription_id : String
  pub plan_id : String
  pub merchant : Address
  pub subscriber : Address
  pub status : SubscriptionStatus
  pub cycles_charged : ℕ
  pub last_charged_at : ℕ
  pub created_at : ℕ

pub data SuspiciousActivityReason : Type 0 where
  large_payment rapid_refunds many_auth_failures : SuspiciousActivityReason

pub data AdminActionType : Type 0 where
  set_admin transfer_admin pause_contract unpause_contract : AdminActionType
  add_allowed_token remove_allowed_token set_platform_fee : AdminActionType
  set_large_payment_threshold set_payment_cleanup_period : AdminActionType
  set_multisig_expiry_duration set_refund_window set_min_refund_amount : AdminActionType
  deactivate_merchant reactivate_merchant verify_merchant unverify_merchant : AdminActionType
  archive_payment_record cleanup_expired_payments set_pause_guardians : AdminActionType
  upgrade_contract confirm_merchant_data_deletion other : AdminActionType

pub record AdminAuditEntry : Type 0 where
  pub index : ℕ
  pub action : AdminActionType
  pub caller : Address
  pub params : String
  pub timestamp : ℕ
  pub ledger_sequence : ℕ
