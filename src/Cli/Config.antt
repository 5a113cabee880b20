-- ===== src/Cli/Config.antt =====
-- cli/lumenflow-cli/src/main.rs, "Config models and Validation" and "Config loading". The process
-- environment, the terminal and the file system are parameters, and so is the test of the standard
-- library whether a text is blank, `s.trim().is_empty()`.
use lumenflow_contracts.Base.{
  Bool, List, Option, String, [], contains, if◌then◌else◌, nat_eq, none, some, string_eq, unwrap_or,
  ◌++◌, ◌==◌, ◌∷◌,
}

pub record Config : Type 0 where
  pub network : Option String
  pub rpc_url : Option String
  pub network_passphrase : Option String
  pub contract_id : Option String
  pub source_account : Option String

-- `RawConfig` has the same fields.
abbrev pub RawConfig : Type 0
RawConfig = Config

pub record ValidatedConfig : Type 0 where
  pub network : String
  pub contract_id : String
  pub source_account : String

pub record ResolvedConfig : Type 0 where
  pub network : String
  pub rpc_url : String
  pub network_passphrase : String
  pub contract_id : String
  pub source_account : Option String

pub data ConfigError : Type 0 where
  missing_field : String → String → String → ConfigError
  invalid_network : String → ConfigError

pub data Validated : Type 0 where
  valid : ValidatedConfig → Validated
  invalid : List ConfigError → Validated

abbrev pub valid_networks : List String
valid_networks = "local" ∷ "testnet" ∷ "mainnet" ∷ []

-- A field as the validation leaves it: its text and what is wrong with it.
abbrev pub Field : Type 0
Field = String × List ConfigError

abbrev pub validated : ValidatedConfig → List ConfigError → Validated
validated v [] = valid v
validated v (e ∷ es) = invalid (e ∷ es)

-- The errors are reported together, in the order of the fields.
abbrev pub combined : Field → Field → Field → Validated
combined (network, e) (contract_id, f) (source_account, g) =
    validated
      (record { network = network; contract_id = contract_id; source_account = source_account })
      ((e ++ f) ++ g)

module _ (is_blank : String → Bool) where
  abbrev pub check_network : Option String → Field
  check_network none = ("", missing_field "network" "LUMENFLOW_NETWORK" "network" ∷ [])
  check_network (some s) =
      if is_blank s
      then ("", missing_field "network" "LUMENFLOW_NETWORK" "network" ∷ [])
      else (s, if contains valid_networks s then [] else invalid_network s ∷ [])

  abbrev pub check_field : String → String → Option String → Field
  check_field name env_var none = ("", missing_field name env_var name ∷ [])
  check_field name env_var (some s) =
      if is_blank s then ("", missing_field name env_var name ∷ []) else (s, [])

  unfoldable pub validate_config : Config → Validated
  validate_config cfg =
      combined (check_network cfg.network)
        (check_field "contract_id" "LUMENFLOW_CONTRACT_ID" cfg.contract_id)
        (check_field "source_account" "LUMENFLOW_SOURCE" cfg.source_account)

-- `a.or(b)`
abbrev pub or_else : Option String → Option String → Option String
or_else (some a) b = some a
or_else none b = b

abbrev pub network_preset : String → Option (String × String)
network_preset name =
    if name == "local"
    then some ("http://localhost:8000/soroban/rpc", "Standalone Network ; February 2017")
    else if name == "testnet"
    then some ("https://soroban-testnet.stellar.org", "Test SDF Network ; September 2015")
    else if name == "mainnet"
    then some
        ("https://soroban-mainnet.stellar.org", "Public Global Stellar Network ; September 2015")
    else none

-- `std::env::var(name).ok()`
abbrev pub EnvVars : Type 0
EnvVars = String → Option String

unfoldable pub apply_env_overrides : EnvVars → RawConfig → RawConfig
apply_env_overrides var base = record {
  network = or_else (var "LUMENFLOW_NETWORK") base.network;
  rpc_url = or_else (var "LUMENFLOW_RPC_URL") base.rpc_url;
  network_passphrase = or_else (var "LUMENFLOW_NETWORK_PASSPHRASE") base.network_passphrase;
  contract_id = or_else (var "LUMENFLOW_CONTRACT_ID") base.contract_id;
  source_account = or_else (var "LUMENFLOW_SOURCE") base.source_account;
}

abbrev pub preset_url : Option (String × String) → Option String
preset_url none = none
preset_url (some (url, phrase)) = some url

abbrev pub preset_phrase : Option (String × String) → Option String
preset_phrase none = none
preset_phrase (some (url, phrase)) = some phrase

-- The options of the command line that `resolve_config` reads are those of a `Config`.
unfoldable pub resolve_config : RawConfig → Config → ResolvedConfig
resolve_config file_env cli =
    let network = unwrap_or "testnet" (or_else cli.network file_env.network) in
    let preset = network_preset network in
    record {
      network = network;
      rpc_url =
          unwrap_or "https://soroban-testnet.stellar.org"
            (or_else (or_else cli.rpc_url file_env.rpc_url) (preset_url preset));
      network_passphrase = unwrap_or "Test SDF Network ; September 2015" (
          or_else (or_else cli.network_passphrase file_env.network_passphrase)
            (preset_phrase preset));
      contract_id = unwrap_or "" (or_else cli.contract_id file_env.contract_id);
      source_account = or_else cli.source_account file_env.source_account;
    }

-- The file system and the TOML library, as `load_file_config` uses them.
pub record Files : Type 0 where
  pub exists : String → Bool
  pub read_to_string : String → Option String
  pub from_str : String → Option RawConfig

abbrev pub default_config : RawConfig
default_config = record {
  network = none;
  rpc_url = none;
  network_passphrase = none;
  contract_id = none;
  source_account = none;
}

abbrev pub parse_file : Files → Option String → Option RawConfig
parse_file files none = none
parse_file files (some content) = files.from_str content

-- A failure to read or to parse the file is `none`.
unfoldable pub load_file_config : Files → Option String → Option RawConfig
load_file_config files path =
    let config_path = unwrap_or ".lumenflow.toml" path in
    if files.exists config_path
    then parse_file files (files.read_to_string config_path)
    else some default_config
