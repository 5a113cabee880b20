-- ===== src/Examples/RegistrationRuns.antt =====
-- Runs of the entry points for merchants.
use lumenflow_contracts.Action.{left_by, ok}
use lumenflow_contracts.Base.{[], arith, nat_eq, none, refl, some, string_eq, ◌∷◌, ◌≡◌}
use lumenflow_contracts.Base.Dict.{lookup, put}
use lumenflow_contracts.Examples.Scene.{empty_world, host_at}
use lumenflow_contracts.Registration.Commitment.{reveal_commitment}
use lumenflow_contracts.Registration.Handlers.{
  commit_merchant_registration, get_merchant_commitment, new_merchant, reveal_merchant_registration,
  revealed_hash,
}
use lumenflow_contracts.Storage.{World, get_merchant}
use lumenflow_contracts.Types.{MerchantCategory}

-- Five merchants are counted as active, the shop among them.
abbrev committed_world : World
committed_world = left_by empty_world (
    commit_merchant_registration 4 (revealed_hash 4 "books" (1 ∷ []) (host_at 60)) (host_at 50)
      empty_world)

commit_run :
    commit_merchant_registration 4
      (revealed_hash 4 "books" (1 ∷ []) (host_at 60))
      (host_at 50)
      empty_world
    ≡ ok tt committed_world
unfolding commit_merchant_registration lookup put
commit_run = refl

reveal_commitment_example :
    (v : World) × (reveal_merchant_registration 4 "books" "" ""
        (MerchantCategory.custom "comics")
        (1 ∷ [])
        (host_at 60)
        committed_world
      ≡ ok tt v)
    × (get_merchant 4 v ≡ some (new_merchant 4 "books" "" "" (MerchantCategory.custom "comics") 60))
    × (get_merchant_commitment 4 v ≡ none)
reveal_commitment_example =
    reveal_commitment 4 "books" "" "" (MerchantCategory.custom "comics") (1 ∷ []) (host_at 50)
      (host_at 60) empty_world committed_world commit_run refl refl (omega arith)
      (omega arith, omega arith) (omega arith) (omega arith)
