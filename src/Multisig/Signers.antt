-- ===== src/Multisig/Signers.antt =====
-- Who has signed a multi-signature payment, and when it is paid.
use lumenflow_contracts.Action.{ok}
use lumenflow_contracts.Base.{
  All, List, String, [], arith, contains, eqb, false, length, length-push_back, nat_eq, push_back,
  refl, some, string_eq, true, ◌+◌, ◌||◌, ◌∷◌, ◌≡◌, ◌≤◌,
}
use lumenflow_contracts.Base.Dict.{lookup-put_self}
use lumenflow_contracts.Host.{Env}
use lumenflow_contracts.Multisig.Handlers.{has_signed, sign_multisig_payment}
use lumenflow_contracts.Storage.{World, get_multisig}
use lumenflow_contracts.Types.{Address, Bytes, MultisigPayment, SignatureEntry}

-- No address occurs twice among the signatures.
abbrev pub Distinct : List SignatureEntry → Type 0
Distinct [] = Unit
Distinct (e ∷ es) = (has_signed e.signer es ≡ false) × Distinct es

has_signed-push_back :
    (a : Address) (es : List SignatureEntry) (e : SignatureEntry)
    → has_signed a (push_back es e) ≡ (has_signed a es || eqb e.signer a)
has_signed-push_back a [] e = ground arith
has_signed-push_back a (x ∷ es) e = ground (arith, has_signed-push_back a es e)

push_back-Distinct :
    (es : List SignatureEntry) (e : SignatureEntry)
    → Distinct es
    → has_signed e.signer es ≡ false
    → Distinct (push_back es e)
push_back-Distinct [] e d fresh = (refl, tt)
push_back-Distinct (x ∷ es) e d fresh =
    (ground (arith, has_signed-push_back x.signer es e), push_back-Distinct es e d.1 (ground arith))

push_back-All :
    (P : SignatureEntry → Type 0) (es : List SignatureEntry) (e : SignatureEntry)
    → All P es
    → P e
    → All P (push_back es e)
push_back-All P [] e all p = (p, tt)
push_back-All P (x ∷ es) e all p = (all.0, push_back-All P es e all.1 p)

-- The signatures are of different, listed signers, and the threshold can be met by the list.
pub record IsFair (ms : MultisigPayment) : Type 0 where
  pub distinct : Distinct ms.collected
  pub listed : All (λ e. contains ms.signers e.signer ≡ true) ms.collected
  pub threshold : (1 ≤ ms.required_signatures) × (ms.required_signatures ≤ length ms.signers)

-- If the signatures of a record are of different, listed signers and the list can meet the
-- threshold, then after a signature that is accepted the same holds of the stored record, which has
-- one signature more, the caller's, who has signed the call.
pub sign_multisig_payment-IsFair :
    (a : Address) (k : String) (sig : Bytes) (env : Env) (w w' : World) (ms : MultisigPayment)
    → get_multisig k w ≡ some ms
    → ms.payment_id ≡ k
    → IsFair ms
    → sign_multisig_payment a k sig env w ≡ ok tt w'
    → (ms' : MultisigPayment) × (get_multisig k w' ≡ some ms')
      × IsFair ms'
      × (env.authorized a ≡ true)
      × (has_signed a ms'.collected ≡ true)
      × (length ms'.collected ≡ length ms.collected + 1)
unfolding sign_multisig_payment
sign_multisig_payment-IsFair a k sig env w w' ms found keyed fair done =
    let e : SignatureEntry = record { signer = a; signature = sig } in
    let ms' : MultisigPayment = record ms { collected = push_back ms.collected e } in
    (
      ms',
      ground (arith, lookup-put_self k ms' w.multisigs),
      record {
        distinct = push_back-Distinct ms.collected e fair.distinct (ground arith);
        listed = push_back-All _ ms.collected e fair.listed (ground arith);
        threshold = fair.threshold;
      },
      ground arith,
      ground (arith, has_signed-push_back a ms.collected e),
      length-push_back ms.collected e,
    )
