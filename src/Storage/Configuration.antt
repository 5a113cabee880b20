-- ===== src/Storage/Configuration.antt =====
-- contracts/lumenflow/src/storage.rs: what the administrator configures, and the versions. The
-- source's setters `set_x` are `put_x` here, where lib.rs has an entry point `set_x`.
use lumenflow_contracts.Base.{
  Bool, List, Option, String, false, is_some, nat_eq, some, string_eq, true, unwrap_or, ℕ, ◌*◌,
}
use lumenflow_contracts.Base.Dict.{del, lookup, put}
use lumenflow_contracts.Base.Int.{ℤ}
use lumenflow_contracts.Storage.State.{World}
use lumenflow_contracts.Types.{Address}

abbrev pub default_cleanup_period_secs : ℕ
default_cleanup_period_secs = 30 * 24 * 3600

abbrev pub min_refund_window_secs : ℕ
min_refund_window_secs = 3600

abbrev pub max_platform_fee_bps : ℕ
max_platform_fee_bps = 10_000

abbrev pub current_storage_version : ℕ
current_storage_version = 1

abbrev pub get_cleanup_period : World → ℕ
get_cleanup_period w = unwrap_or default_cleanup_period_secs w.config.cleanup_period

abbrev pub get_refund_retention_period : World → ℕ
get_refund_retention_period w = unwrap_or (90 * 24 * 3600) w.config.refund_retention_period

abbrev pub put_cleanup_period : ℕ → World → World
put_cleanup_period v w = record w { config = record (w.config) { cleanup_period = some v } }

abbrev pub put_platform_fee_bps : ℕ → World → World
put_platform_fee_bps v w = record w { config = record (w.config) { platform_fee_bps = some v } }

abbrev pub put_fee_recipient : Address → World → World
put_fee_recipient v w = record w { config = record (w.config) { fee_recipient = some v } }

abbrev pub put_refund_window : ℕ → World → World
put_refund_window v w = record w { config = record (w.config) { refund_window = some v } }

abbrev pub put_refund_retention_period : ℕ → World → World
put_refund_retention_period v w = record w {
  config = record (w.config) { refund_retention_period = some v };
}

abbrev pub put_large_payment_threshold : ℤ → World → World
put_large_payment_threshold v w = record w {
  config = record (w.config) { large_payment_threshold = some v };
}

abbrev pub put_min_refund_amount : ℤ → World → World
put_min_refund_amount v w = record w { config = record (w.config) { min_refund_amount = some v } }

abbrev pub put_multisig_expiry_duration : ℕ → World → World
put_multisig_expiry_duration v w = record w {
  config = record (w.config) { multisig_expiry_duration = some v };
}

abbrev pub put_max_multisig_signers : ℕ → World → World
put_max_multisig_signers v w = record w {
  config = record (w.config) { max_multisig_signers = some v };
}

abbrev pub put_rate_limit_per_window : ℕ → World → World
put_rate_limit_per_window v w = record w {
  config = record (w.config) { rate_limit_per_window = some v };
}

abbrev pub put_signature_expiry_window : ℕ → World → World
put_signature_expiry_window v w = record w {
  config = record (w.config) { signature_expiry_window = some v };
}

-- `set_payment_rate_limit` of storage.rs writes the key of `set_rate_limit_per_window`.
abbrev pub put_payment_rate_limit : ℕ → World → World
put_payment_rate_limit v w = record w {
  config = record (w.config) { rate_limit_per_window = some v };
}

-- `set_payment_rate_window` of storage.rs writes `DataKey::RW`, the key of the refund window.
abbrev pub put_payment_rate_window : ℕ → World → World
put_payment_rate_window v w = record w { config = record (w.config) { refund_window = some v } }

abbrev pub is_issuer_allowed : Address → World → Bool
is_issuer_allowed a w = is_some (lookup a w.config.allowed_issuers)

abbrev pub set_issuer_allowed : Address → Bool → World → World
set_issuer_allowed a true w = record w {
  config = record (w.config) { allowed_issuers = put a tt w.config.allowed_issuers };
}
set_issuer_allowed a false w = record w {
  config = record (w.config) { allowed_issuers = del a w.config.allowed_issuers };
}

abbrev pub get_merchant_list : World → List Address
get_merchant_list w = w.people.merchant_list

abbrev pub set_audit_max_entries : ℕ → World → World
set_audit_max_entries n w = record w {
  audit = record (w.audit) { admin_audit_max_entries = some n };
}

abbrev pub get_storage_version : World → ℕ
get_storage_version w = unwrap_or 0 w.upgrade.storage_version

abbrev pub set_storage_version : ℕ → World → World
set_storage_version n w = record w { upgrade = record (w.upgrade) { storage_version = some n } }

abbrev pub get_stored_version : World → Option String
get_stored_version w = w.upgrade.stored_version

abbrev pub set_stored_version : String → World → World
set_stored_version v w = record w { upgrade = record (w.upgrade) { stored_version = some v } }
