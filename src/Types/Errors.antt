-- ===== src/Types/Errors.antt =====
-- contracts/lumenflow/src/error.rs: the error codes of the contract. `invalid_category`,
-- `invalid_memo_length` and `invalid_ttl` are raised by helper.rs and lib.rs and missing from the
-- enumeration there; `duplicate_order_id` and `invalid_order_id` have the one code 55.
pub data PaymentError : Type 0 where
  unauthorized admin_already_set invalid_admin_address invalid_nonce auth_locked_out : PaymentError
  merchant_not_found merchant_already_registered merchant_inactive : PaymentError
  payment_not_found payment_already_exists invalid_amount invalid_signature payment_expired :
      PaymentError
  signature_expired insufficient_balance token_not_allowed : PaymentError
  refund_not_found refund_already_exists refund_window_expired refund_exceeds_original :
      PaymentError
  refund_not_approved refund_already_completed refund_below_minimum refund_limit_exceeded :
      PaymentError
  too_many_signers multisig_not_found multisig_already_signed multisig_already_executed :
      PaymentError
  insufficient_signatures multisig_already_cancelled multisig_cancelled multisig_expired :
      PaymentError
  contract_paused payment_history_limit_exceeded timelock_active : PaymentError
  insufficient_unpause_signatures already_approved_unpause not_a_pause_guardian : PaymentError
  version_mismatch invalid_issuer storage_version_too_new storage_migration_required : PaymentError
  commitment_already_exists commitment_not_found commitment_expired : PaymentError
  commitment_hash_mismatch : PaymentError
  invalid_input pagination_limit_exceeded batch_size_exceeded duplicate_order_id : PaymentError
  invalid_tags serialized_payload_too_large invalid_order_id order_id_too_long : PaymentError
  invalid_referral : PaymentError
  subscription_plan_already_exists subscription_already_exists : PaymentError
  subscription_plan_not_found subscription_not_found subscription_not_active : PaymentError
  subscription_max_cycles_reached subscription_interval_not_elapsed : PaymentError
  rate_limit_exceeded : PaymentError
  escrow_not_found escrow_already_exists escrow_not_unlocked escrow_already_finalised : PaymentError
  escrow_unauthorised escrow_lock_expired : PaymentError
  dispute_not_found dispute_already_exists dispute_refund_not_rejected : PaymentError
  dispute_already_resolved dispute_not_open dispute_already_escalated : PaymentError
  invalid_category invalid_memo_length invalid_ttl : PaymentError
