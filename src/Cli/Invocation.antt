-- ===== src/Cli/Invocation.antt =====
-- cli/lumenflow-cli/src/main.rs: `resolve_source` and `base_invoke`. The file system and the terminal
-- are parameters; a failure, whose message is for the user, is `none`.
use lumenflow_contracts.Base.{
  Bool, List, Option, String, [], false, if◌then◌else◌, nat_eq, none, not, some, string_eq, ◌++◌,
  ◌==◌, ◌∷◌,
}
use lumenflow_contracts.Cli.Config.{Config}

-- What `load_key_from_file` and `prompt_key` read, before they trim it.
pub record Terminal : Type 0 where
  pub read_file : String → Option String
  pub read_password : Option String
  pub is_interactive_tty : Bool
  pub trim : String → String

abbrev pub non_empty : String → Option String
non_empty s = if s == "" then none else some s

-- `load_key_from_file` and `prompt_key`
abbrev pub trimmed_key : Terminal → Option String → Option String
trimmed_key term none = none
trimmed_key term (some raw) = non_empty (term.trim raw)

abbrev pub load_key_from_file : Terminal → String → Option String
load_key_from_file term path = trimmed_key term (term.read_file path)

abbrev pub prompt_key : Terminal → Option String
prompt_key term = trimmed_key term term.read_password

-- `as_deref().map(|s| !s.trim().is_empty()).unwrap_or(false)`
abbrev pub has_text : Terminal → Option String → Bool
has_text term none = false
has_text term (some s) = not (term.trim s == "")

-- `config.source_account = Some(key?)`
abbrev pub with_key : Config → Option String → Option Config
with_key config none = none
with_key config (some key) = some (record config { source_account = some key })

abbrev pub auto_prompt : Terminal → Config → Option Config
auto_prompt term config =
    if term.is_interactive_tty then with_key config (prompt_key term) else none

abbrev pub resolve_without_file : Terminal → Config → Bool → Option Config
resolve_without_file term config use_prompt =
    if use_prompt
    then with_key config (prompt_key term)
    else if has_text term config.source_account
    then some config
    else auto_prompt term config

unfoldable pub resolve_source : Terminal → Config → Option String → Bool → Option Config
resolve_source term config (some path) use_prompt = with_key config (load_key_from_file term path)
resolve_source term config none use_prompt = resolve_without_file term config use_prompt

-- `as_deref().filter(|s| !s.is_empty())`
abbrev pub given : Option String → Option String
given none = none
given (some s) = non_empty s

abbrev pub rpc_args : Option String → List String
rpc_args none = []
rpc_args (some rpc) = "--rpc-url" ∷ rpc ∷ []

abbrev pub network_args : Option String → Option String → List String
network_args (some passphrase) network = "--network-passphrase" ∷ passphrase ∷ []
network_args none (some network) = "--network" ∷ network ∷ []
network_args none none = "--network" ∷ "testnet" ∷ []

abbrev pub invocation : Config → Option String → Option String → Option (List String)
invocation config none source = none
invocation config (some contract_id) none = none
invocation config (some contract_id) (some source) = some (
    ("contract" ∷ "invoke" ∷ "--id" ∷ contract_id ∷ "--source-account" ∷ source ∷ [])
    ++ rpc_args (given config.rpc_url)
    ++ network_args (given config.network_passphrase) (given config.network))

-- The arguments of the `stellar` command.
unfoldable pub base_invoke : Config → Option (List String)
base_invoke config = invocation config (given config.contract_id) (given config.source_account)
