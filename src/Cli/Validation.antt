-- ===== src/Cli/Validation.antt =====
-- What the validation accepts.
use lumenflow_contracts.Base.{
  Bool, Bool-cases, Option, String, [], arith, contains, false, inl, inr, nat_eq, none, refl, some,
  string_eq, true, ◌↔◌, ◌∷◌, ◌≡◌,
}
use lumenflow_contracts.Cli.Config.{
  Field, ValidatedConfig, check_field, check_network, valid_networks, validate_config, Config,
  combined, valid,
}

-- A field that is given and not blank.
abbrev pub IsGiven : (String → Bool) → Option String → String → Type 0
IsGiven is_blank o s = (o ≡ some s) × (is_blank s ≡ false)

combined_valid :
    (n c s : Field) (v : ValidatedConfig)
    → combined n c s ≡ valid v
    → (n ≡ (v.network, [])) × (c ≡ (v.contract_id, [])) × (s ≡ (v.source_account, []))
combined_valid (n, []) (c, []) (s, []) v h = (ground arith, ground arith, ground arith)
combined_valid (n, e ∷ es) (c, f) (s, g) v h = ground arith
combined_valid (n, []) (c, f ∷ fs) (s, g) v h = ground arith
combined_valid (n, []) (c, []) (s, g ∷ gs) v h = ground arith

check_network-IsGiven :
    (is_blank : String → Bool) (o : Option String) (s : String)
    → check_network is_blank o ≡ (s, [])
    → IsGiven is_blank o s × (contains valid_networks s ≡ true)
check_network-IsGiven is_blank none s h = ground arith
check_network-IsGiven is_blank (some t) s h = elim (Bool-cases (is_blank t)) [
  | inl blank ↦ ground arith
  | inr given ↦ elim (Bool-cases (contains valid_networks t)) [
    | inl known ↦ ground arith
    | inr unknown ↦ ground arith
  ]
]

check_field-IsGiven :
    (is_blank : String → Bool) (name env_var : String) (o : Option String) (s : String)
    → check_field is_blank name env_var o ≡ (s, [])
    → IsGiven is_blank o s
check_field-IsGiven is_blank name env_var none s h = ground arith
check_field-IsGiven is_blank name env_var (some t) s h = ground arith

-- A configuration is valid with the values `v` exactly if its network, contract and source account
-- are given, none of them blank, with these values, and the network is one of the three that are
-- known.
pub validate_config_lem :
    (is_blank : String → Bool) (cfg : Config) (v : ValidatedConfig)
    → (validate_config is_blank cfg ≡ valid v) ↔ (
        IsGiven is_blank cfg.network v.network
        × (contains valid_networks v.network ≡ true)
        × IsGiven is_blank cfg.contract_id v.contract_id
        × IsGiven is_blank cfg.source_account v.source_account)
unfolding validate_config
validate_config_lem is_blank cfg v = (
  λ h.
      let (network, contract, source) = combined_valid _ _ _ v h in
      let (given, known) = check_network-IsGiven is_blank cfg.network v.network network in
      (
        given,
        known,
        check_field-IsGiven is_blank "contract_id" "LUMENFLOW_CONTRACT_ID" cfg.contract_id
            v.contract_id contract,
        check_field-IsGiven is_blank "source_account" "LUMENFLOW_SOURCE" cfg.source_account
            v.source_account source,
      ),
  λ (network, known, contract, source). rw (network.0) (
      rw (network.1)
        (rw known (rw (contract.0) (rw (contract.1) (rw (source.0) (rw (source.1) refl)))))),
)
