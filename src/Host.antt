-- ===== src/Host.antt =====
-- What the contract takes from its host, the Soroban environment: the ledger's clock, who has
-- authorised the call, the token contracts that it calls and the cryptography. None of it is code
-- of the repository, so each is a parameter. A token contract is known by what it is asked, and by
-- whether it accepts or traps, which may depend on everything that it was asked before.
use lumenflow_contracts.Base.{ℕ, String, Bool, List}
use lumenflow_contracts.Base.Int.{ℤ}
use lumenflow_contracts.Types.{Address, Bytes, SuspiciousActivityReason}

-- The calls of the token interface that the contract makes, the token's address first.
pub data TokenCall : Type 0 where
  transfer : Address → Address → Address → ℤ → TokenCall
  transfer_from : Address → Address → Address → Address → ℤ → TokenCall
  approve : Address → Address → Address → ℤ → ℕ → TokenCall

-- The host of one invocation.
pub record Env : Type 0 where
  pub timestamp : ℕ
  pub sequence : ℕ
  pub contract : Address
  pub max_live_until_ledger : ℕ
  pub network_id : Bytes
  pub authorized : Address → Bool
  pub accepts : List TokenCall → TokenCall → Bool
  pub ed25519_verify : Bytes → Bytes → Bytes → Bool
  pub address_xdr : Address → Bytes
  pub string_xdr : String → Bytes
  pub i128_be_bytes : ℤ → Bytes
  pub u64_be_bytes : ℕ → Bytes
  pub sha256 : Bytes → Bytes
  -- `MAX_MEMO_LENGTH`, which helper.rs uses and no file of the contract defines.
  pub max_memo_length : ℕ

-- The events that the modelled entry points publish.
pub data Event : Type 0 where
  suspicious_activity : SuspiciousActivityReason → Address → Event
  large_payment : Address → ℤ → Event
  payment_history_near_limit : Address → ℕ → Event
  payment_processed : Address → String → Address → ℤ → Event
  payment_status_updated : String → ℤ → ℤ → Event
  refund_initiated refund_approved refund_rejected refund_executed :
      Address → String → String → Event
  dispute_raised : String → String → String → Event
  dispute_resolved : String → String → Bool → Event
  dispute_initiated : String → String → Address → String → Event
  dispute_under_review dispute_escalated : String → Event
  multisig_initiated : String → Address → Address → ℤ → ℕ → Event
  multisig_executed : String → Address → Address → Address → ℤ → Event
  payment_request_paid payment_request_cancelled : String → Event
  subscription_plan_created : String → Event
  subscription_created : String → Address → Address → Event
  subscription_charged : String → ℕ → ℤ → Event
  subscription_cancelled : String → Address → Event
  escrow_created escrow_released escrow_cancelled : String → ℤ → Event
  escrow_held : String → Address → Address → ℤ → Bytes → Event
  hold_released hold_cancelled : String → Address → ℤ → Event
  contract_paused contract_unpaused multisig_override : Event
  paused_with_reason : String → ℕ → Event
  auth_lockout_reset admin_set : Address → Event
  admin_transferred : Address → Address → Event
  merchant_registered merchant_deactivated merchant_reactivated merchant_verified : Address → Event
  merchant_unverified : Address → Event
  merchant_committed merchant_updated : Address → Event
  merchant_referred : Address → Address → Event
  -- `admin_action`, with the action's name, the administrator and the action's argument.
  admin_action : String → Address → ℤ → Event
  admin_action_on : String → Address → String → Event
  max_signers_updated refund_window_set signature_expiry_window_set rate_limit_set : ℕ → Event
  token_allowed token_disallowed issuer_allowed issuer_disallowed : Address → Event
  payment_archived : String → Event
  contract_upgraded : Bytes → Event
  storage_migrated : ℕ → ℕ → Event
