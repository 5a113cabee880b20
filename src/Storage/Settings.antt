-- ===== src/Storage/Settings.antt =====
-- contracts/lumenflow/src/storage.rs: the configuration, the pause state and the statistics, each
-- with the default that stands for an unset key.
use lumenflow_contracts.Base.{
  nat_eq, string_eq, ℕ, ◌*◌, String, Bool, true, false, Option, none, some, List, [], is_some,
  unwrap_or,
}
use lumenflow_contracts.Base.Int.{ℤ, pos}
use lumenflow_contracts.Base.Dict.{lookup, put, del}
use lumenflow_contracts.Types.{Address, GlobalStats, MerchantStats}
use lumenflow_contracts.Storage.State.{World}

abbrev pub default_min_refund_amount : ℤ
default_min_refund_amount = pos 100

abbrev pub default_refund_window_secs : ℕ
default_refund_window_secs = 30 * 24 * 3600

abbrev pub default_multisig_expiry : ℕ
default_multisig_expiry = 7 * 24 * 3600

abbrev pub default_max_multisig_signers : ℕ
default_max_multisig_signers = 10

abbrev pub default_rate_limit_per_window : ℕ
default_rate_limit_per_window = 100

abbrev pub default_large_payment_threshold : ℤ
default_large_payment_threshold = pos 10_000_000

abbrev pub default_signature_expiry_window_secs : ℕ
default_signature_expiry_window_secs = 5 * 60

abbrev pub get_admin : World → Option Address
get_admin w = w.config.admin

abbrev pub set_admin_key : Address → World → World
set_admin_key a w = record w { config = record (w.config) { admin = some a } }

abbrev pub get_paused : World → Bool
get_paused w = unwrap_or false w.pause.paused

abbrev pub set_paused : Bool → World → World
set_paused b w = record w { pause = record (w.pause) { paused = some b } }

abbrev pub get_platform_fee_bps : World → ℕ
get_platform_fee_bps w = unwrap_or 0 w.config.platform_fee_bps

abbrev pub get_fee_recipient : World → Option Address
get_fee_recipient w = w.config.fee_recipient

abbrev pub get_refund_window : World → ℕ
get_refund_window w = unwrap_or default_refund_window_secs w.config.refund_window

abbrev pub get_large_payment_threshold : World → ℤ
get_large_payment_threshold w =
    unwrap_or default_large_payment_threshold w.config.large_payment_threshold

abbrev pub get_min_refund_amount : World → ℤ
get_min_refund_amount w = unwrap_or default_min_refund_amount w.config.min_refund_amount

abbrev pub get_multisig_expiry_duration : World → ℕ
get_multisig_expiry_duration w = unwrap_or default_multisig_expiry w.config.multisig_expiry_duration

abbrev pub get_max_multisig_signers : World → ℕ
get_max_multisig_signers w = unwrap_or default_max_multisig_signers w.config.max_multisig_signers

abbrev pub get_rate_limit_per_window : World → ℕ
get_rate_limit_per_window w = unwrap_or default_rate_limit_per_window w.config.rate_limit_per_window

abbrev pub get_signature_expiry_window : World → ℕ
get_signature_expiry_window w =
    unwrap_or default_signature_expiry_window_secs w.config.signature_expiry_window

abbrev pub is_token_allowed : Address → World → Bool
is_token_allowed t w = is_some (lookup t w.config.allowed_tokens)

abbrev pub set_token_allowed : Address → Bool → World → World
set_token_allowed t true w = record w {
  config = record (w.config) { allowed_tokens = put t tt w.config.allowed_tokens };
}
set_token_allowed t false w = record w {
  config = record (w.config) { allowed_tokens = del t w.config.allowed_tokens };
}

abbrev pub set_pause_reason : String → World → World
set_pause_reason r w = record w { pause = record (w.pause) { pause_reason = some r } }

abbrev pub clear_pause_reason : World → World
clear_pause_reason w = record w { pause = record (w.pause) { pause_reason = none } }

abbrev pub get_unpause_lock_until : World → Option ℕ
get_unpause_lock_until w = w.pause.unpause_lock_until

abbrev pub set_unpause_lock_until : ℕ → World → World
set_unpause_lock_until t w = record w { pause = record (w.pause) { unpause_lock_until = some t } }

abbrev pub clear_unpause_lock_until : World → World
clear_unpause_lock_until w = record w { pause = record (w.pause) { unpause_lock_until = none } }

abbrev pub get_pause_guardians : World → List Address
get_pause_guardians w = w.pause.pause_guardians

abbrev pub set_pause_guardians_key : List Address → World → World
set_pause_guardians_key gs w = record w { pause = record (w.pause) { pause_guardians = gs } }

abbrev pub get_early_unpause_approvals : World → List Address
get_early_unpause_approvals w = w.pause.early_unpause_approvals

abbrev pub set_early_unpause_approvals : List Address → World → World
set_early_unpause_approvals xs w = record w {
  pause = record (w.pause) { early_unpause_approvals = xs };
}

abbrev pub clear_early_unpause_approvals : World → World
clear_early_unpause_approvals w = record w {
  pause = record (w.pause) { early_unpause_approvals = [] };
}

abbrev pub no_stats : GlobalStats
no_stats = record {
  total_payments = 0;
  total_volume = pos 0;
  total_refunds = 0;
  total_refund_volume = pos 0;
  active_merchants = 0;
}

abbrev pub no_merchant_stats : MerchantStats
no_merchant_stats = record {
  total_payments = 0;
  total_volume = pos 0;
  total_refunds = 0;
  total_refund_volume = pos 0;
}

abbrev pub get_global_stats : World → GlobalStats
get_global_stats w = unwrap_or no_stats w.stats.global

abbrev pub set_global_stats : GlobalStats → World → World
set_global_stats s w = record w { stats = record (w.stats) { global = some s } }

abbrev pub get_merchant_stats : Address → World → MerchantStats
get_merchant_stats m w = unwrap_or no_merchant_stats (lookup m w.stats.by_merchant)

abbrev pub set_merchant_stats : Address → MerchantStats → World → World
set_merchant_stats m s w = record w {
  stats = record (w.stats) { by_merchant = put m s w.stats.by_merchant };
}
