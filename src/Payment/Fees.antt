-- ===== src/Payment/Fees.antt =====
-- The platform fee, which the two entry points for payments compute in the same way.
use lumenflow_contracts.Action.{
  trap, Action, Done, call_token, gets, mul_i128, ok, pure, when, ◌>>=◌, ◌>>◌,
}
use lumenflow_contracts.Base.{
  Bool-cases, List, [], eqb, inl, inr, refl, ◌||◌, ◌∷◌, suc, zero, Option, arith, if◌then◌else◌,
  ltb, nat_eq, none, some, string_eq, ℕ, ◌*◌, ◌/◌, ◌≡◌, ◌≤◌,
}
use lumenflow_contracts.Base.Int.{in_i128, ◌*ℤ◌, div_ℤ, ltb_ℤ, pos, ℤ, ◌≤ℤ◌}
use lumenflow_contracts.Host.{TokenCall, Env, transfer}
use lumenflow_contracts.Escrow.Solvency.{net}
use lumenflow_contracts.Storage.{World, get_fee_recipient}
use lumenflow_contracts.Types.{Address}

-- `if fee_bps > 0 { amount * (fee_bps as i128) / 10_000 } else { 0 }`
unfoldable pub platform_fee : ℤ → ℕ → Action ℤ
platform_fee amount fee_bps =
    if ltb 0 fee_bps
    then (do product ← mul_i128 amount (pos fee_bps); pure (div_ℤ product 10_000))
    else pure (pos 0)

-- `if let Some(recipient) = get_fee_recipient(&env) { ... }`
abbrev pub pay_fee : Address → Address → ℤ → Option Address → Action Done
pay_fee token payer fee none = pure tt
pay_fee token payer fee (some recipient) = call_token (transfer token payer recipient fee)

-- The transfers of a payment: the net amount to the merchant, then the fee, if there is one and a
-- recipient for it.
unfoldable pub pay_out : Address → Address → Address → ℤ → ℤ → Action Done
pay_out token payer merchant net fee = do
  call_token (transfer token payer merchant net)
  recipient ← gets get_fee_recipient
  when (ltb_ℤ (pos 0) fee) (pay_fee token payer fee recipient)

mul_le : (n a b : ℕ) → a ≤ b → n * a ≤ n * b
mul_le zero a b h = omega arith
mul_le (suc n) a b h = omega (arith, mul_le n a b h)

div_ℤ-pos : (n bps k : ℕ) → div_ℤ (pos n *ℤ pos bps) k ≡ pos (n * bps / k)
unfolding div_ℤ ◌*ℤ◌
div_ℤ-pos n bps k =
    let product : pos n *ℤ pos bps ≡ pos (n * bps) = ground arith in rw product (ground arith)

-- At a rate of at most 10,000 basis points, the fee that is computed on an amount that is not
-- negative is the amount's share rounded down; it lies between nothing and the amount, and
-- computing it leaves the state as it was.
pub platform_fee_lem :
    (n bps : ℕ) (fee : ℤ) (env : Env) (w w' : World)
    → bps ≤ 10_000
    → platform_fee (pos n) bps env w ≡ ok fee w'
    → (w' ≡ w) × (fee ≡ pos (n * bps / 10_000)) × (pos 0 ≤ℤ fee) × (fee ≤ℤ pos n)
unfolding platform_fee
platform_fee_lem n bps fee env w w' h done =
    let share : n * bps ≤ n * 10_000 = mul_le n bps 10_000 h in
    let value : fee ≡ pos (n * bps / 10_000) = ground (arith, div_ℤ-pos n bps 10_000) in
    (ground arith, value, rw value (omega arith), rw value (omega (arith, share)))

pub platform_fee-eq :
    (n bps : ℕ) (env : Env) (w : World)
    → platform_fee (pos n) bps env w
      ≡ (if eqb bps 0 || in_i128 (pos n *ℤ pos bps) then ok (pos (n * bps / 10_000)) w else trap)
unfolding platform_fee
platform_fee-eq n bps env w = elim (Bool-cases (eqb bps 0)) [
  | inl free ↦
      let none_due : n * bps / 10_000 ≡ 0 =
        let product : n * bps ≡ 0 = ground (arith, mul_le n bps 0) in rw product refl in
      ground arith
  | inr due ↦ ground (arith, div_ℤ-pos n bps 10_000)
]

-- The transfers that a payment asks for, the last one first.
abbrev pub transfers : Address → Address → Address → ℤ → ℤ → Option Address → List TokenCall
transfers token payer merchant net fee none = transfer token payer merchant net ∷ []
transfers token payer merchant net fee (some r) =
    if ltb_ℤ (pos 0) fee
    then transfer token payer r fee ∷ transfer token payer merchant net ∷ []
    else transfer token payer merchant net ∷ []
