-- ===== src/Examples/SettingRuns.antt =====
-- Runs of the configuration and of the helpers.
use lumenflow_contracts.Base.{
  false, Bool, String, contains, none, ◌==◌, [], arith, len, nat_eq, refl, some, string_eq, true,
  ◌↔◌, ◌∷◌, ◌≡◌,
}
use lumenflow_contracts.Cli.Config.{Config, valid, ValidatedConfig, valid_networks, validate_config}
use lumenflow_contracts.Cli.Validation.{IsGiven, validate_config_lem}
use lumenflow_contracts.Types.{Bytes}
use lumenflow_contracts.Guards.{require_admin}
use lumenflow_contracts.Action.{left_by, ok}
use lumenflow_contracts.Admin.Limits.{IsConfigured, Setting, configure, configure-IsConfigured}
use lumenflow_contracts.Admin.Settings.{set_payment_rate_window}
use lumenflow_contracts.Base.Int.{pos, pos_part}
use lumenflow_contracts.Examples.Scene.{empty_world, host_at}
use lumenflow_contracts.Helper.Bytes.{build_canonical_payload}
use lumenflow_contracts.Helper.Payload.{read_payload, read_payload-build_canonical_payload}
use lumenflow_contracts.Host.{Env}
use lumenflow_contracts.Storage.{World, get_admin, get_refund_window}

empty_world-IsConfigured : IsConfigured empty_world
empty_world-IsConfigured = record {
  fee_bounded = omega arith;
  threshold_positive = omega arith;
  refund_positive = omega arith;
  expiry_positive = omega arith;
  signers_positive = omega arith;
  signature_positive = omega arith;
  rate_positive = omega arith;
  window_long = omega arith;
}

-- The window of the payments' rate limit overwrites the window of refunds.
abbrev short_window : World
short_window =
    left_by empty_world (configure 1 (Setting.payment_rate_window 60) (host_at 50) empty_world)

short_window_run :
    configure 1 (Setting.payment_rate_window 60) (host_at 50) empty_world ≡ ok tt short_window
unfolding configure set_payment_rate_window require_admin
short_window_run = refl

refund_window_overwritten : get_refund_window short_window ≡ 60
unfolding configure set_payment_rate_window require_admin
refund_window_overwritten = refl

configure_example :
    (true ≡ true) × (get_admin empty_world ≡ some 1) × (IsConfigured short_window ↔ (false ≡ true))
configure_example =
    configure-IsConfigured 1 (Setting.payment_rate_window 60) (host_at 50) empty_world short_window
      empty_world-IsConfigured short_window_run

abbrev one_tag : Bytes
one_tag = 1 ∷ 255 ∷ []

abbrev other_tag : Bytes
other_tag = 1 ∷ 254 ∷ []

-- A host whose encodings are one byte long.
abbrev encoding_host : Env
encoding_host = record (host_at 50) {
  string_xdr = λ s. len s ∷ [];
  i128_be_bytes = λ a. pos_part a ∷ [];
}

read_payload_example :
    read_payload (build_canonical_payload encoding_host "sale" (pos 50)) ≡ some (4 ∷ [], 50 ∷ [])
read_payload_example =
    read_payload-build_canonical_payload encoding_host "sale" (pos 50) (omega arith) (omega arith)

abbrev local_config : Config
local_config = record {
  network = some "local";
  rpc_url = none;
  network_passphrase = none;
  contract_id = some "C1";
  source_account = some "S1";
}

abbrev local_values : ValidatedConfig
local_values = record { network = "local"; contract_id = "C1"; source_account = "S1" }

abbrev is_empty : String → Bool
is_empty s = s == ""

validate_config_example : (validate_config is_empty local_config ≡ valid local_values) ↔ (
    IsGiven is_empty (some "local") "local"
    × (contains valid_networks "local" ≡ true)
    × IsGiven is_empty (some "C1") "C1"
    × IsGiven is_empty (some "S1") "S1")
validate_config_example = validate_config_lem is_empty local_config local_values
