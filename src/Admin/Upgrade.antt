-- ===== src/Admin/Upgrade.antt =====
-- contracts/lumenflow/src/lib.rs, "Versioning" and "Upgrade / storage compatibility", and the
-- migration of the keys in storage.rs.
use lumenflow_contracts.Action.{Action, Done, fail_if, gets, modify, publish, pure, ◌>>=◌, ◌>>◌}
use lumenflow_contracts.Base.{
  Bool, Option, String, false, ltb, nat_eq, none, not, some, string_eq, unwrap_or, ℕ, ◌==◌,
}
use lumenflow_contracts.Guards.{require_admin, require_admin_rate_limited}
use lumenflow_contracts.Host.{contract_upgraded, storage_migrated}
use lumenflow_contracts.Storage.State.{Config, Legacy}
use lumenflow_contracts.Storage.{
  World, current_storage_version, get_storage_version, get_stored_version, set_storage_version,
  set_stored_version,
}
use lumenflow_contracts.Types.{
  Address, Bytes, storage_migration_required, storage_version_too_new, version_mismatch,
}

-- `env!("CARGO_PKG_VERSION")`
abbrev pub package_version : String
package_version = "1.0.0"

abbrev pub get_contract_version : String
get_contract_version = package_version

unfoldable pub set_contract_version : Address → Action Done
unfolding require_admin_rate_limited
set_contract_version admin = do
  require_admin_rate_limited admin
  modify (set_stored_version package_version)

abbrev pub is_other_version : Option String → Bool
is_other_version none = false
is_other_version (some stored) = not (stored == package_version)

unfoldable pub assert_version_matches : Address → Action Done
unfolding require_admin_rate_limited
assert_version_matches admin = do
  require_admin_rate_limited admin
  stored ← gets get_stored_version
  fail_if (is_other_version stored) version_mismatch

-- `update_current_contract_wasm`
abbrev pub set_wasm : Bytes → World → World
set_wasm hash w = record w { upgrade = record (w.upgrade) { wasm = some hash } }

unfoldable pub upgrade : Address → Bytes → Action Done
unfolding require_admin_rate_limited
upgrade admin new_wasm_hash = do
  require_admin_rate_limited admin
  modify (set_wasm new_wasm_hash)
  publish (contract_upgraded new_wasm_hash)

unfoldable pub migrate : Address → Action ℕ
unfolding require_admin
migrate admin = do
  require_admin admin
  on_chain ← gets get_storage_version
  fail_if (ltb current_storage_version on_chain) storage_version_too_new
  modify (set_storage_version current_storage_version)
  publish (storage_migrated on_chain current_storage_version)
  pure current_storage_version

unfoldable pub check_upgrade_compatibility : Action ℕ
check_upgrade_compatibility = do
  on_chain ← gets get_storage_version
  fail_if (ltb current_storage_version on_chain) storage_version_too_new
  fail_if (ltb on_chain current_storage_version) storage_migration_required
  pure current_storage_version

-- One use of `migrate_instance!`: the value under the new key.
abbrev pub migrated : {A : Type 0} → Option A → Option A → Option A
migrated none new = new
migrated (some v) new = some v

abbrev pub migrated_config : Legacy → Config → Config
migrated_config old c = record c {
  cleanup_period = migrated old.old_cleanup_period c.cleanup_period;
  platform_fee_bps = migrated old.old_platform_fee_bps c.platform_fee_bps;
  refund_window = migrated old.old_refund_window c.refund_window;
  large_payment_threshold = migrated old.old_large_payment_threshold c.large_payment_threshold;
  min_refund_amount = migrated old.old_min_refund_amount c.min_refund_amount;
  multisig_expiry_duration = migrated old.old_multisig_expiry_duration c.multisig_expiry_duration;
  fee_recipient = migrated old.old_fee_recipient c.fee_recipient;
}

-- The old keys are removed where they were set, so afterwards none is set.
abbrev pub no_legacy : Legacy
no_legacy = record {
  old_cleanup_period = none;
  old_platform_fee_bps = none;
  old_refund_window = none;
  old_large_payment_threshold = none;
  old_min_refund_amount = none;
  old_multisig_expiry_duration = none;
  old_stored_version = none;
  old_merchant_list = none;
  old_fee_recipient = none;
}

unfoldable pub migrated_keys : World → World
migrated_keys w =
    let old = w.upgrade.legacy in
    record w {
      config = migrated_config old w.config;
      upgrade = record (w.upgrade) {
        stored_version = migrated old.old_stored_version w.upgrade.stored_version;
        legacy = no_legacy;
      };
      people = record (w.people) {
        merchant_list = unwrap_or w.people.merchant_list old.old_merchant_list;
      };
    }

unfoldable pub migrate_storage_keys : Address → Action Done
unfolding require_admin_rate_limited migrated_keys
migrate_storage_keys admin = do require_admin_rate_limited admin; modify migrated_keys
