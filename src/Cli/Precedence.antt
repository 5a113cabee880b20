-- ===== src/Cli/Precedence.antt =====
-- Where the values of the resolved configuration come from.
use lumenflow_contracts.Base.{
  List, Option, String, [], nat_eq, none, refl, some, string_eq, unwrap_or, ◌∷◌, ◌≡◌,
}
use lumenflow_contracts.Cli.Config.{
  EnvVars, apply_env_overrides, network_preset, or_else, preset_phrase, preset_url, resolve_config,
  Config, ResolvedConfig,
}

-- The first value that is given, or else the last resort.
abbrev pub first_of : List (Option String) → String → String
first_of [] last_resort = last_resort
first_of (some s ∷ rest) last_resort = s
first_of (none ∷ rest) last_resort = first_of rest last_resort

abbrev pub first_given : List (Option String) → Option String
first_given [] = none
first_given (some s ∷ rest) = some s
first_given (none ∷ rest) = first_given rest

-- `r` takes each value from the first place that has it.
pub record IsResolved (var : EnvVars) (file cli : Config) (r : ResolvedConfig) : Type 0 where
  pub network_from :
      r.network ≡ first_of (cli.network ∷ var "LUMENFLOW_NETWORK" ∷ file.network ∷ []) "testnet"
  pub rpc_url_from :
      r.rpc_url
      ≡ first_of
          (cli.rpc_url
            ∷ var "LUMENFLOW_RPC_URL"
            ∷ file.rpc_url
            ∷ preset_url (network_preset r.network)
            ∷ [])
          "https://soroban-testnet.stellar.org"
  pub network_passphrase_from :
      r.network_passphrase
      ≡ first_of
          (cli.network_passphrase
            ∷ var "LUMENFLOW_NETWORK_PASSPHRASE"
            ∷ file.network_passphrase
            ∷ preset_phrase (network_preset r.network)
            ∷ [])
          "Test SDF Network ; September 2015"
  pub contract_id_from :
      r.contract_id
      ≡ first_of (cli.contract_id ∷ var "LUMENFLOW_CONTRACT_ID" ∷ file.contract_id ∷ []) ""
  pub source_account_from :
      r.source_account
      ≡ first_given (cli.source_account ∷ var "LUMENFLOW_SOURCE" ∷ file.source_account ∷ [])

three :
    (a b c : Option String) (d : String)
    → unwrap_or d (or_else a (or_else b c)) ≡ first_of (a ∷ b ∷ c ∷ []) d
three (some a) b c d = refl
three none (some b) c d = refl
three none none (some c) d = refl
three none none none d = refl

four :
    (a b c p : Option String) (d : String)
    → unwrap_or d (or_else (or_else a (or_else b c)) p) ≡ first_of (a ∷ b ∷ c ∷ p ∷ []) d
four (some a) b c p d = refl
four none (some b) c p d = refl
four none none (some c) p d = refl
four none none none (some p) d = refl
four none none none none d = refl

three_given : (a b c : Option String) → or_else a (or_else b c) ≡ first_given (a ∷ b ∷ c ∷ [])
three_given (some a) b c = refl
three_given none (some b) c = refl
three_given none none (some c) = refl
three_given none none none = refl

-- Each value of the resolved configuration is the first that is given of: the option of the command
-- line, the environment variable and the configuration file, and for the address of the node and the
-- passphrase then the preset of the resolved network; last comes the default of the field, which the
-- source account has none of.
pub resolve_config-IsResolved :
    (var : EnvVars) (file cli : Config)
    → IsResolved var file cli (resolve_config (apply_env_overrides var file) cli)
unfolding resolve_config apply_env_overrides
resolve_config-IsResolved var file cli = record {
  network_from = three cli.network (var "LUMENFLOW_NETWORK") file.network "testnet";
  rpc_url_from = four cli.rpc_url (var "LUMENFLOW_RPC_URL") file.rpc_url _ _;
  network_passphrase_from =
      four cli.network_passphrase (var "LUMENFLOW_NETWORK_PASSPHRASE") file.network_passphrase _ _;
  contract_id_from = three cli.contract_id (var "LUMENFLOW_CONTRACT_ID") file.contract_id "";
  source_account_from = three_given cli.source_account (var "LUMENFLOW_SOURCE") file.source_account;
}
