-- ===== src/Examples/Scene.antt =====
-- A small contract: administrator 1, merchant 2, payer 3, token 7, the contract itself at 9.
use lumenflow_contracts.Base.{[], eqb, false, nat_eq, none, not, some, string_eq, true, ℕ, ◌∷◌}
use lumenflow_contracts.Base.Int.{pos}
use lumenflow_contracts.Host.{Env}
use lumenflow_contracts.Storage.{World}
use lumenflow_contracts.Types.{Merchant, MerchantCategory}

abbrev pub shop : Merchant
shop = record {
  address = 2;
  name = "shop";
  description = "";
  contact_info = "";
  category = MerchantCategory.retail;
  active = true;
  verified = false;
  registered_at = 0;
  total_received = pos 0;
  referral_count = 0;
}

abbrev pub empty_world : World
empty_world = record {
  config = record {
    admin = some 1;
    cleanup_period = none;
    large_payment_threshold = none;
    min_refund_amount = none;
    platform_fee_bps = none;
    fee_recipient = none;
    refund_window = none;
    multisig_expiry_duration = none;
    max_multisig_signers = none;
    rate_limit_per_window = none;
    signature_expiry_window = none;
    allowed_tokens = (7, tt) ∷ [];
    allowed_issuers = [];
    refund_retention_period = none;
    referral_fee_bps = none;
    max_active_payment_requests = none;
  };
  upgrade = record {
    storage_version = none;
    stored_version = none;
    wasm = none;
    legacy = record {
      old_cleanup_period = none;
      old_platform_fee_bps = none;
      old_refund_window = none;
      old_large_payment_threshold = none;
      old_min_refund_amount = none;
      old_multisig_expiry_duration = none;
      old_stored_version = none;
      old_merchant_list = none;
      old_fee_recipient = none;
    };
  };
  pause = record {
    paused = none;
    pause_reason = none;
    unpause_lock_until = none;
    pause_guardians = [];
    early_unpause_approvals = [];
  };
  auth = record { auth_fail_counts = []; auth_lockouts = [] };
  audit = record {
    admin_audit_count = none;
    admin_audit_max_entries = none;
    admin_audit_entries = [];
  };
  stats = record { global = none; by_merchant = [] };
  people = record {
    merchants = (2, shop) ∷ [];
    merchant_list = 2 ∷ [];
    merchant_commitments = [];
    merchant_active_requests = [];
    deletion_requests = [];
  };
  book = record {
    payments = [];
    merchant_payment_ids = [];
    payer_payment_ids = [];
    nonces = [];
    merchant_nonces = [];
    rate_limit_counters = [];
  };
  claims = record { refunds = []; order_refund_ids = []; disputes = [] };
  requests = record { payment_requests = []; payment_request_ids = [] };
  multisigs = [];
  recurring = record { subscription_plans = []; subscriptions = []; subscription_reserves = [] };
  escrows = [];
  escrow_holds = [];
  calls = [];
  events = [];
}

-- A host at a given time, on which every address but the contract's has signed, and every token
-- accepts every call.
abbrev pub host_at : ℕ → Env
host_at now = record {
  timestamp = now;
  sequence = now;
  contract = 9;
  max_live_until_ledger = 100000;
  network_id = [];
  authorized = λ a. not (eqb a 9);
  accepts = λ calls c. true;
  ed25519_verify = λ key payload signature. true;
  address_xdr = λ a. a ∷ [];
  string_xdr = λ s. [];
  i128_be_bytes = λ a. [];
  u64_be_bytes = λ n. [];
  sha256 = λ b. b;
  max_memo_length = 256;
}
