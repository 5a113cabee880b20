-- ===== src/Multisig/Execution.antt =====
-- When a multi-signature payment is paid, and what that does to the other records.
use lumenflow_contracts.Action.{is_ok, ok}
use lumenflow_contracts.Base.{
  String, arith, false, length, nat_eq, none, some, string_eq, true, ◌||◌, ◌∷◌, ◌≡◌, ◌≤◌,
}
use lumenflow_contracts.Base.Dict.{lookup-put_self}
use lumenflow_contracts.Base.Int.{pos}
use lumenflow_contracts.Host.{Env, transfer}
use lumenflow_contracts.Multisig.Handlers.{
  cancel_multisig_payment, execute_multisig_payment, is_past, sign_multisig_payment,
}
use lumenflow_contracts.Payment.Index.{new_payment}
use lumenflow_contracts.Storage.{World, get_multisig, get_paused, get_payment}
use lumenflow_contracts.Types.{Address, Bytes, MultisigPayment}

-- An execution that goes through is signed by the payer; the multi-signature payment was open, had
-- its threshold of signatures and was not past its expiry. It is marked executed, its token is
-- asked to pay the merchant, and a payment record is written under its id, whatever record stood
-- there.
pub execute_multisig_payment_lem :
    (payer : Address) (k : String) (env : Env) (w w' : World) (ms : MultisigPayment)
    → get_multisig k w ≡ some ms
    → ms.payment_id ≡ k
    → execute_multisig_payment payer k env w ≡ ok tt w'
    → (env.authorized payer ≡ true)
      × (ms.executed ≡ false)
      × (ms.cancelled ≡ false)
      × (is_past ms.expires_at env.timestamp ≡ false)
      × (ms.required_signatures ≤ length ms.collected)
      × (get_multisig k w' ≡ some (record ms { executed = true }))
      × (get_payment k w'
          ≡ some (
              new_payment k ms.merchant_address payer ms.token ms.amount env.timestamp "" none
                (pos 0)))
      × (w'.calls ≡ transfer ms.token payer ms.merchant_address ms.amount ∷ w.calls)
unfolding execute_multisig_payment
execute_multisig_payment_lem payer k env w w' ms found keyed done =
    let p =
      new_payment k ms.merchant_address payer ms.token ms.amount env.timestamp "" none (pos 0) in
    (
      ground arith,
      ground arith,
      ground arith,
      ground arith,
      ground arith,
      ground (arith, lookup-put_self k (record ms { executed = true }) w.multisigs),
      ground (arith, lookup-put_self k p w.book.payments),
      ground arith,
    )

-- In a running contract, a multi-signature payment that was executed or cancelled can be neither
-- signed, cancelled nor executed by an address that has signed the call.
pub closed_multisig :
    (a : Address) (k : String) (sig : Bytes) (env : Env) (w : World) (ms : MultisigPayment)
    → get_paused w ≡ false
    → env.authorized a ≡ true
    → get_multisig k w ≡ some ms
    → (ms.executed || ms.cancelled) ≡ true
    → (is_ok (sign_multisig_payment a k sig env w) ≡ false)
      × (is_ok (cancel_multisig_payment a k env w) ≡ false)
      × (is_ok (execute_multisig_payment a k env w) ≡ false)
unfolding sign_multisig_payment cancel_multisig_payment execute_multisig_payment
closed_multisig a k sig env w ms running signed found closed =
    (ground arith, ground arith, ground arith)
