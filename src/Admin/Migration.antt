-- ===== src/Admin/Migration.antt =====
-- The migration of the keys.
use lumenflow_contracts.Admin.Upgrade.{migrated_keys, no_legacy}
use lumenflow_contracts.Base.{arith, nat_eq, refl, string_eq, ◌≡◌}
use lumenflow_contracts.Storage.{World}

-- Every key keeps the value that the first layout gave it, or the one that it had; no old key is
-- left, and a second migration changes nothing.
pub migrated_keys_lem :
    (w : World)
    → (migrated_keys (migrated_keys w) ≡ migrated_keys w)
      × ((migrated_keys w).upgrade.legacy ≡ no_legacy)
      × (w.upgrade.legacy ≡ no_legacy → migrated_keys w ≡ w)
unfolding migrated_keys
migrated_keys_lem w = (refl, refl, λ h. ground arith)
