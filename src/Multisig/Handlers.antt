-- ===== src/Multisig/Handlers.antt =====
-- contracts/lumenflow/src/lib.rs, "Multi-signature payments".
use lumenflow_contracts.Action.{
  Action, Done, ask, call_token, err, fail_if, gets, modify, ok, or_fail, publish, require_auth,
  saturating_add_u64, trap, u64_max, ◌>>=◌, ◌>>◌,
}
use lumenflow_contracts.Base.{
  Bool, List, Option, String, [], contains, eqb, false, is_some, leb, length, ltb, nat_eq, none,
  not, push_back, some, string_eq, true, unwrap_or, ℕ, ◌&&◌, ◌||◌, ◌∷◌,
}
use lumenflow_contracts.Base.Int.{pos, ℤ}
use lumenflow_contracts.Guards.{is_address, require_not_paused, require_positive, require_valid_id}
use lumenflow_contracts.Host.{multisig_executed, multisig_initiated, transfer}
use lumenflow_contracts.Payment.Index.{
  add_merchant_payment_id, add_payer_payment_id, count_payment, new_payment,
}
use lumenflow_contracts.Storage.{
  World, get_admin, get_max_multisig_signers, get_merchant, get_multisig,
  get_multisig_expiry_duration, is_token_allowed, set_multisig, set_payment,
}
use lumenflow_contracts.Types.{
  Address, Bytes, MultisigPayment, SignatureEntry, insufficient_signatures, invalid_input,
  merchant_inactive, merchant_not_found, multisig_already_cancelled, multisig_already_executed,
  multisig_already_signed, multisig_cancelled, multisig_expired, multisig_not_found,
  payment_already_exists, payment_expired, token_not_allowed, too_many_signers, unauthorized,
}

abbrev pub resolved_expiry : Option ℕ → ℕ → World → ℕ
resolved_expiry none now w = saturating_add_u64 now (get_multisig_expiry_duration w)
resolved_expiry (some t) now w = t

abbrev pub new_multisig :
    String → Address → Address → Address → ℤ → List Address → ℕ → ℕ → ℕ → MultisigPayment
new_multisig payment_id initiator merchant token amount signers required now expiry = record {
  payment_id = payment_id;
  initiator = initiator;
  merchant_address = merchant;
  token = token;
  amount = amount;
  required_signatures = required;
  signers = signers;
  collected = [];
  executed = false;
  cancelled = false;
  created_at = now;
  expires_at = some expiry;
}

unfoldable pub initiate_multisig_payment :
    Address → String → Address → Address → ℤ → List Address → ℕ → Option ℕ → Action Done
unfolding require_not_paused require_positive require_valid_id
initiate_multisig_payment initiator payment_id merchant token amount signers required expires_at =
    do
      require_not_paused
      require_auth initiator
      require_positive amount
      require_valid_id payment_id
      fail_if (eqb (length signers) 0) invalid_input
      fail_if (eqb required 0) invalid_input
      fail_if (ltb (length signers) required) invalid_input
      max_signers ← gets get_max_multisig_signers
      fail_if (ltb max_signers (length signers)) too_many_signers
      allowed ← gets (is_token_allowed token)
      fail_if (not allowed) token_not_allowed
      existing ← gets (get_multisig payment_id)
      fail_if (is_some existing) payment_already_exists
      found ← gets (get_merchant merchant)
      m ← or_fail found merchant_not_found
      fail_if (not m.active) merchant_inactive
      env ← ask
      expiry ← gets (resolved_expiry expires_at env.timestamp)
      modify (
          set_multisig (
            new_multisig payment_id initiator merchant token amount signers required env.timestamp
              expiry))
      publish (multisig_initiated payment_id merchant token amount required)

-- `ms.collected.iter().any(|e| e.signer == signer)`
abbrev pub has_signed : Address → List SignatureEntry → Bool
has_signed a [] = false
has_signed a (e ∷ es) = eqb e.signer a || has_signed a es

unfoldable pub sign_multisig_payment : Address → String → Bytes → Action Done
unfolding require_not_paused
sign_multisig_payment signer payment_id signature = do
  require_not_paused
  require_auth signer
  found ← gets (get_multisig payment_id)
  ms ← or_fail found multisig_not_found
  fail_if ms.executed multisig_already_executed
  fail_if ms.cancelled multisig_cancelled
  env ← ask
  fail_if (leb (unwrap_or u64_max ms.expires_at) env.timestamp) multisig_expired
  fail_if (not (contains ms.signers signer)) unauthorized
  fail_if (has_signed signer ms.collected) multisig_already_signed
  modify (
      set_multisig (record ms {
        collected = push_back ms.collected (record { signer = signer; signature = signature });
      }))

unfoldable pub cancel_multisig_payment : Address → String → Action Done
cancel_multisig_payment caller payment_id = do
  require_auth caller
  found ← gets (get_multisig payment_id)
  ms ← or_fail found multisig_not_found
  fail_if ms.executed multisig_already_executed
  fail_if ms.cancelled multisig_already_cancelled
  admin ← gets get_admin
  fail_if (not (is_address admin caller) && not (eqb caller ms.initiator)) unauthorized
  modify (set_multisig (record ms { cancelled = true }))

abbrev pub is_past : Option ℕ → ℕ → Bool
is_past none now = false
is_past (some t) now = ltb t now

-- `let _ = action`: an error is dropped, and what was written before it stays.
abbrev pub ignore : Action Done → Action Done
ignore m env w = elim (m env w) [ ok a w' ↦ ok tt w' | err e w' ↦ ok tt w' | trap ↦ trap ]

unfoldable pub execute_multisig_payment : Address → String → Action Done
unfolding require_not_paused add_merchant_payment_id add_payer_payment_id
execute_multisig_payment payer payment_id = do
  require_not_paused
  require_auth payer
  found ← gets (get_multisig payment_id)
  ms ← or_fail found multisig_not_found
  fail_if ms.executed multisig_already_executed
  fail_if ms.cancelled multisig_already_cancelled
  env ← ask
  fail_if (is_past ms.expires_at env.timestamp) payment_expired
  fail_if (ltb (length ms.collected) ms.required_signatures) insufficient_signatures
  call_token (transfer ms.token payer ms.merchant_address ms.amount)
  modify (set_multisig (record ms { executed = true }))
  modify (
      set_payment (
        new_payment payment_id ms.merchant_address payer ms.token ms.amount env.timestamp "" none
          (pos 0)))
  ignore (add_merchant_payment_id ms.merchant_address payment_id)
  ignore (add_payer_payment_id payer payment_id)
  count_payment ms.amount
  publish (multisig_executed payment_id payer ms.merchant_address ms.token ms.amount)
