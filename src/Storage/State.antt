-- ===== src/Storage/State.antt =====
-- The contract's storage (`DataKey` of contracts/lumenflow/src/storage.rs), one record for each
-- part of the program: a single-valued key is an `Option`, since it may be unset; a key with an
-- argument is a dictionary. The calls to token contracts and the events come last.
use lumenflow_contracts.Base.{nat_eq, string_eq, ℕ, String, Bool, Option, List}
use lumenflow_contracts.Base.Int.{ℤ}
use lumenflow_contracts.Base.Dict.{Dict}
use lumenflow_contracts.Types.{
  Address, Bytes, Merchant, MerchantCommitment, PaymentOrder, PaymentRequest, RefundRecord,
  DisputeRecord, MultisigPayment, SubscriptionPlan, Subscription, EscrowRecord, EscrowHold,
  AdminAuditEntry, GlobalStats, MerchantStats,
}
use lumenflow_contracts.Host.{TokenCall, Event}

pub record Config : Type 0 where
  pub admin : Option Address
  pub cleanup_period : Option ℕ
  pub large_payment_threshold : Option ℤ
  pub min_refund_amount : Option ℤ
  pub platform_fee_bps : Option ℕ
  pub fee_recipient : Option Address
  pub refund_window : Option ℕ
  pub multisig_expiry_duration : Option ℕ
  pub max_multisig_signers : Option ℕ
  pub rate_limit_per_window : Option ℕ
  pub signature_expiry_window : Option ℕ
  pub allowed_tokens : Dict Address (Unit {0})
  pub allowed_issuers : Dict Address (Unit {0})
  pub refund_retention_period : Option ℕ
  pub referral_fee_bps : Option ℕ
  pub max_active_payment_requests : Option ℕ

-- The keys of the first storage layout, under their old names.
pub record Legacy : Type 0 where
  pub old_cleanup_period : Option ℕ
  pub old_platform_fee_bps : Option ℕ
  pub old_refund_window : Option ℕ
  pub old_large_payment_threshold : Option ℤ
  pub old_min_refund_amount : Option ℤ
  pub old_multisig_expiry_duration : Option ℕ
  pub old_stored_version : Option String
  pub old_merchant_list : Option (List Address)
  pub old_fee_recipient : Option Address

-- What upgrades read and write; `wasm` is the hash of the code that the host was told to run.
pub record Upgrade : Type 0 where
  pub storage_version : Option ℕ
  pub stored_version : Option String
  pub wasm : Option Bytes
  pub legacy : Legacy

pub record Pause : Type 0 where
  pub paused : Option Bool
  pub pause_reason : Option String
  pub unpause_lock_until : Option ℕ
  pub pause_guardians : List Address
  pub early_unpause_approvals : List Address

pub record Auth : Type 0 where
  pub auth_fail_counts : Dict Address (ℕ × ℕ)
  pub auth_lockouts : Dict Address ℕ

pub record Audit : Type 0 where
  pub admin_audit_count : Option ℕ
  pub admin_audit_max_entries : Option ℕ
  pub admin_audit_entries : Dict ℕ AdminAuditEntry

pub record Stats : Type 0 where
  pub global : Option GlobalStats
  pub by_merchant : Dict Address MerchantStats

pub record Merchants : Type 0 where
  pub merchants : Dict Address Merchant
  pub merchant_list : List Address
  pub merchant_commitments : Dict Address MerchantCommitment
  pub merchant_active_requests : Dict Address ℕ
  pub deletion_requests : Dict Address ℕ

pub record Payments : Type 0 where
  pub payments : Dict String PaymentOrder
  pub merchant_payment_ids : Dict Address (List String)
  pub payer_payment_ids : Dict Address (List String)
  pub nonces : Dict Address ℕ
  pub merchant_nonces : Dict Address ℕ
  pub rate_limit_counters : Dict Address (Dict ℕ ℕ)

pub record Refunds : Type 0 where
  pub refunds : Dict String RefundRecord
  pub order_refund_ids : Dict String (List String)
  pub disputes : Dict String DisputeRecord

pub record Requests : Type 0 where
  pub payment_requests : Dict String PaymentRequest
  pub payment_request_ids : List String

pub record Subscriptions : Type 0 where
  pub subscription_plans : Dict String SubscriptionPlan
  pub subscriptions : Dict String Subscription
  pub subscription_reserves : Dict Address (Dict Address ℤ)

pub record World : Type 0 where
  pub config : Config
  pub upgrade : Upgrade
  pub pause : Pause
  pub auth : Auth
  pub audit : Audit
  pub stats : Stats
  pub people : Merchants
  pub book : Payments
  pub claims : Refunds
  pub requests : Requests
  pub multisigs : Dict String MultisigPayment
  pub recurring : Subscriptions
  pub escrows : Dict String EscrowRecord
  pub escrow_holds : Dict String EscrowHold
  pub calls : List TokenCall
  pub events : List Event
