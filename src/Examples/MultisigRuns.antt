-- ===== src/Examples/MultisigRuns.antt =====
-- Runs of the entry points for multi-signature payments.
use lumenflow_contracts.Action.{left_by, ok}
use lumenflow_contracts.Base.{
  [], arith, false, length, nat_eq, none, refl, some, string_eq, true, ◌∷◌, ◌≡◌, ◌≤◌,
}
use lumenflow_contracts.Base.Dict.{lookup, put}
use lumenflow_contracts.Base.Int.{clamp_i128, pos, ◌+ℤ◌}
use lumenflow_contracts.Examples.Scene.{empty_world, host_at}
use lumenflow_contracts.Host.{transfer}
use lumenflow_contracts.Multisig.Execution.{execute_multisig_payment_lem}
use lumenflow_contracts.Multisig.Handlers.{
  execute_multisig_payment, has_signed, is_past, new_multisig, sign_multisig_payment,
}
use lumenflow_contracts.Multisig.Signers.{IsFair, sign_multisig_payment-IsFair}
use lumenflow_contracts.Payment.Index.{add_merchant_payment_id, add_payer_payment_id, new_payment}
use lumenflow_contracts.Storage.{World, get_multisig, get_payment}
use lumenflow_contracts.Types.{MultisigPayment}

abbrev deal : MultisigPayment
deal = new_multisig "deal" 3 2 7 (pos 400) (3 ∷ 4 ∷ []) 1 10 1000

abbrev deal_world : World
deal_world = record empty_world { multisigs = ("deal", deal) ∷ [] }

abbrev signed_world : World
signed_world = left_by deal_world (sign_multisig_payment 4 "deal" [] (host_at 20) deal_world)

sign_run : sign_multisig_payment 4 "deal" [] (host_at 20) deal_world ≡ ok tt signed_world
unfolding sign_multisig_payment lookup put
sign_run = refl

deal-IsFair : IsFair deal
deal-IsFair = record { distinct = tt; listed = tt; threshold = (omega arith, omega arith) }

signed_deal-IsFair :
    (ms' : MultisigPayment) × (get_multisig "deal" signed_world ≡ some ms')
    × IsFair ms'
    × (true ≡ true)
    × (has_signed 4 ms'.collected ≡ true)
    × (length ms'.collected ≡ 1)
unfolding lookup
signed_deal-IsFair =
    sign_multisig_payment-IsFair 4 "deal" [] (host_at 20) deal_world signed_world deal refl refl
      deal-IsFair sign_run

abbrev signed_deal : MultisigPayment
signed_deal = record deal { collected = record { signer = 4; signature = [] } ∷ [] }

abbrev executed_world : World
executed_world = left_by signed_world (execute_multisig_payment 3 "deal" (host_at 30) signed_world)

execute_run : execute_multisig_payment 3 "deal" (host_at 30) signed_world ≡ ok tt executed_world
unfolding execute_multisig_payment sign_multisig_payment lookup put clamp_i128 ◌+ℤ◌
    add_merchant_payment_id add_payer_payment_id
execute_run = refl

execute_multisig_payment_example :
    (true ≡ true)
    × (false ≡ false)
    × (false ≡ false)
    × (is_past (some 1000) 30 ≡ false)
    × (1 ≤ 1)
    × (get_multisig "deal" executed_world ≡ some (record signed_deal { executed = true }))
    × (get_payment "deal" executed_world
        ≡ some (new_payment "deal" 2 3 7 (pos 400) 30 "" none (pos 0)))
    × (executed_world.calls ≡ transfer 7 3 2 (pos 400) ∷ signed_world.calls)
unfolding lookup put sign_multisig_payment
execute_multisig_payment_example =
    execute_multisig_payment_lem 3 "deal" (host_at 30) signed_world executed_world signed_deal refl
      refl execute_run
