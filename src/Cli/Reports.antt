-- ===== src/Cli/Reports.antt =====
-- cli/lumenflow-cli/src/main.rs, `main`: the list of merchants, the statistics of an account and the
-- configuration, as the client prints them.
use text.Mathlib.Text.{get?}
use lumenflow_contracts.Base.{
  List, Option, String, [], if◌then◌else◌, is_some, leb, len, ltb, nat_eq, none, some, string_eq,
  unwrap_or, ℕ, ◌*◌, ◌++◌, ◌-◌, ◌/◌, ◌==◌, ◌∷◌,
}
use lumenflow_contracts.Cli.Commands.{
  Client, Reply, answer, missing_target, no_count, printed, refused, texts,
}
use lumenflow_contracts.Cli.Invocation.{base_invoke, given, network_args, rpc_args}
use lumenflow_contracts.Cli.Config.{Config}

abbrev pub merchant_list_args : Config → String → String → Option String → String → List String
merchant_list_args config contract_id admin_key cursor limit =
    ("contract" ∷ "invoke" ∷ "--id" ∷ contract_id ∷ "--source-account" ∷ admin_key ∷ [])
    ++ (rpc_args (given config.rpc_url)
        ++ (network_args (given config.network_passphrase) (given config.network)
            ++ ("--"
                ∷ "get_merchants"
                ∷ "--admin"
                ∷ admin_key
                ∷ "--cursor"
                ∷ unwrap_or "null" cursor
                ∷ "--limit"
                ∷ limit
                ∷ [])))

abbrev pub show_merchants : Client → Config → Option String → String → String → String → Reply
show_merchants c config cursor limit output stdout =
    let raw = c.shell.text.trim stdout in
    printed (
      if c.shell.text.to_lowercase output == "json"
      then raw ∷ []
      else texts (
          "Merchant list (network: "
          ∷ unwrap_or "testnet" config.network
          ∷ ", limit: "
          ∷ limit
          ∷ ", cursor: "
          ∷ unwrap_or "(start)" cursor
          ∷ "):"
          ∷ [])
        ∷ raw
        ∷ [])

abbrev pub merchant_list_on :
    Client → Config → String → ℕ → Option String → String → Option String → Reply
merchant_list_on c config admin_key limit cursor output none = refused missing_target
merchant_list_on c config admin_key limit cursor output (some contract_id) =
    let shown = c.nat_text limit in
    answer c "get_merchants" (show_merchants c config cursor shown output)
      (c.shell.stellar 0 (merchant_list_args config contract_id admin_key cursor shown))

-- The arguments of `base_invoke` are made, and must be there, though others are used.
unfoldable pub merchant_list : Client → Config → String → ℕ → Option String → String → Reply
merchant_list c config admin_key limit cursor output =
    if is_some (base_invoke config)
    then merchant_list_on c config admin_key limit cursor output (given config.contract_id)
    else refused missing_target

-- The client's copy of the contract's constant.
abbrev pub client_max_payment_ids : ℕ
client_max_payment_ids = 10_000

-- `.lines().rev().find_map(|l| l.trim().parse().ok())`: the last line that is a number.
abbrev pub last_count : Client → List String → Option ℕ
last_count c [] = none
last_count c (l ∷ ls) = elim (last_count c ls) [
  | some n ↦ some n
  | none ↦ c.parse_u32 (c.shell.text.trim l)
]

abbrev pub near_limit_warning : String
near_limit_warning =
    "\nWarning: this account is at or above 90% of MAX_PAYMENT_IDS_PER_ACCOUNT. Further payments may soon fail with PaymentHistoryLimitExceeded."

abbrev pub warning_lines : ℕ → List String
warning_lines n = if leb (client_max_payment_ids * 9 / 10) n then near_limit_warning ∷ [] else []

abbrev pub stats_reply : Client → String → String → Option ℕ → Reply
stats_reply c address stdout none = refused (no_count (c.shell.text.trim stdout))
stats_reply c address stdout (some n) = printed (
    (texts ("Account:        " ∷ address ∷ [])
      ∷ texts ("Payment count:  " ∷ c.nat_text n ∷ [])
      ∷ texts ("Cap:            " ∷ c.nat_text client_max_payment_ids ∷ [])
      ∷ texts ("Usage:          " ∷ c.percent_text n client_max_payment_ids ∷ "%" ∷ [])
      ∷ [])
    ++ warning_lines n)

abbrev pub show_count : Client → String → String → Reply
show_count c address stdout =
    stats_reply c address stdout (last_count c (c.shell.text.lines stdout))

abbrev pub account_stats_on : Client → String → Option (List String) → Reply
account_stats_on c address none = refused missing_target
account_stats_on c address (some base) =
    answer c "get_account_payment_count" (show_count c address) (
      c.shell.stellar 0 (base ++ ("--" ∷ "get_account_payment_count" ∷ "--address" ∷ address ∷ [])))

unfoldable pub account_stats : Client → Config → String → Reply
account_stats c config address = account_stats_on c address (base_invoke config)

-- `&s[..4]` and `&s[s.len() - 4..]`; a cut inside a character, which panics, is `none`.
abbrev pub both_ends : Option String → Option String → Option String
both_ends (some a) (some b) = some (texts (a ∷ "…" ∷ b ∷ []))
both_ends _ _ = none

-- The source account as it is shown: its ends, or nothing of it.
unfoldable pub redact : String → Option String
redact s =
    if ltb 8 (len s) then both_ends (get? s 0 4) (get? s (len s - 4) (len s)) else some "*****"

abbrev pub source_display : Option String → Option String
source_display none = some "(not set)"
source_display (some s) = redact s

abbrev pub config_lines : Config → String → List String
config_lines config source =
    "Resolved configuration:"
    ∷ texts ("  network:            " ∷ unwrap_or "testnet" config.network ∷ [])
    ∷ texts (
        "  rpc_url:            "
        ∷ unwrap_or "https://soroban-testnet.stellar.org" config.rpc_url
        ∷ [])
    ∷ texts (
        "  network_passphrase: "
        ∷ unwrap_or "Test SDF Network ; September 2015" config.network_passphrase
        ∷ [])
    ∷ texts ("  contract_id:        " ∷ unwrap_or "N/A" config.contract_id ∷ [])
    ∷ texts ("  source_account:     " ∷ source ∷ [])
    ∷ []

abbrev pub shown_with : Config → Option String → Option (List String)
shown_with config none = none
shown_with config (some source) = some (config_lines config source)

-- What `PrintConfig` prints, and `none` if it panics.
unfoldable pub print_config : Config → Option (List String)
print_config config = shown_with config (source_display config.source_account)
