-- ===== src/Cli/Main.antt =====
-- cli/lumenflow-cli/src/main.rs: the commands of the client, and `main` from the validation of the
-- configuration on. The two declarations of `MerchantCommands` are taken together. Options that the
-- commands never read, such as a memo or a limit, are arguments of the constructors all the same.
use lumenflow_contracts.Base.{
  Bool, List, Option, String, [], arith, false, nat_eq, refl, string_eq, true, ℕ, ◌&&◌, ◌∷◌, ◌≡◌,
}
use lumenflow_contracts.Base.Int.{ℤ}
use lumenflow_contracts.Cli.Commands.{
  Client, Reply, format_history, format_stats, merchant_update, printed, refund_approve,
  refund_execute, refund_init, refund_list, refund_reject, refund_status, pay,
}
use lumenflow_contracts.Cli.Reports.{account_stats, merchant_list, print_config}
use lumenflow_contracts.Cli.Submission.{Batch, Ran, batch_pay}
use lumenflow_contracts.Cli.Config.{Config, Validated, ConfigError, valid, invalid, validate_config}

pub data RefundCommands : Type 0 where
  -- order_id, amount, reason, caller
  init : String → ℤ → String → String → RefundCommands
  -- refund_id, caller
  approve reject : String → String → RefundCommands
  -- refund_id
  execute status : String → RefundCommands
  -- order_id, caller, output
  list : String → String → String → RefundCommands

pub data MerchantCommands : Type 0 where
  -- admin_key, limit, cursor, output
  list_merchants : String → ℕ → Option String → String → MerchantCommands
  -- address, name, description, contact_info, category
  update : String → Option String → Option String → Option String → Option String → MerchantCommands

pub data AdminCommands : Type 0 where
  account_stats_of : String → AdminCommands

pub record PayArgs : Type 0 where
  pub merchant : String
  pub amount : ℤ
  pub order_id : String
  pub token : String
  pub memo : Option String
  pub signature : String
  pub merchant_public_key : String
  pub idempotent : Bool

pub data Commands : Type 0 where
  pay_with : PayArgs → Commands
  merchant : MerchantCommands → Commands
  refund : RefundCommands → Commands
  -- merchant, cursor, limit
  history : String → Option String → ℕ → Commands
  stats : String → Commands
  show_config : Commands
  -- file, token, signature, merchant_public_key
  pay_batch : String → Option String → String → String → Commands
  admin : AdminCommands → Commands

-- What a run of the client ends with.
pub data Ending : Type 0 where
  invalid_config : List ConfigError → Ending
  replied : Reply → Ending
  paid_batch : Batch → Ending
  -- `none` if printing it panics
  showed_config : Option (List String) → Ending

abbrev pub run_refund : Client → Config → RefundCommands → Reply
run_refund c config (init order_id amount reason caller) = refund_init c config order_id amount
run_refund c config (approve refund_id caller) = refund_approve config refund_id
run_refund c config (reject refund_id caller) = refund_reject config refund_id
run_refund c config (execute refund_id) = refund_execute config refund_id
run_refund c config (status refund_id) = refund_status config refund_id
run_refund c config (list order_id caller output) = refund_list c config order_id caller output

abbrev pub run_merchant : Client → Config → MerchantCommands → Reply
run_merchant c config (list_merchants admin_key limit cursor output) =
    merchant_list c config admin_key limit cursor output
run_merchant c config (update address name description contact_info category) =
    merchant_update config address name description contact_info category

unfoldable pub run_command : Client → Config → Commands → Ending
run_command c config (pay_with args) =
    replied (pay c config args.merchant args.amount args.order_id args.idempotent)
run_command c config (merchant action) = replied (run_merchant c config action)
run_command c config (refund action) = replied (run_refund c config action)
run_command c config (history name cursor limit) = replied (printed (format_history name ∷ []))
run_command c config (stats admin_name) = replied (printed (format_stats ∷ []))
run_command c config show_config = showed_config (print_config config)
run_command c config (pay_batch file token signature public_key) =
    paid_batch (batch_pay c.shell config token signature public_key file)
run_command c config (admin (account_stats_of address)) = replied (account_stats c config address)

-- The command, or the errors of the configuration.
abbrev pub run_if_valid : Client → Config → Commands → Validated → Ending
run_if_valid c config command (valid v) = run_command c config command
run_if_valid c config command (invalid errors) = invalid_config errors

unfoldable pub main : (String → Bool) → Client → Config → Commands → Ending
main is_blank c config command = run_if_valid c config command (validate_config is_blank config)

-- The commands that run the `stellar` command at all.
abbrev pub reaches_network : Commands → Bool
reaches_network (merchant (list_merchants admin_key limit cursor output)) = true
reaches_network (refund (list order_id caller output)) = true
reaches_network (pay_batch file token signature public_key) = true
reaches_network (admin action) = true
reaches_network _ = false

abbrev pub is_valid : Validated → Bool
is_valid (valid v) = true
is_valid (invalid errors) = false

abbrev pub with_stellar : (ℕ → List String → Ran) → Client → Client
with_stellar run c = record c { shell = record (c.shell) { stellar = run } }

run_command_offline :
    (run : ℕ → List String → Ran) (c : Client) (config : Config) (command : Commands)
    → reaches_network command ≡ false
    → run_command (with_stellar run c) config command ≡ run_command c config command
unfolding run_command pay refund_init
run_command_offline run c config (pay_with args) h = refl
run_command_offline run c config (merchant (update a n d t k)) h = refl
run_command_offline run c config (merchant (list_merchants a l k o)) h = cc
run_command_offline run c config (refund (init o a r k)) h = refl
run_command_offline run c config (refund (approve r k)) h = refl
run_command_offline run c config (refund (reject r k)) h = refl
run_command_offline run c config (refund (execute r)) h = refl
run_command_offline run c config (refund (status r)) h = refl
run_command_offline run c config (refund (list o k f)) h = cc
run_command_offline run c config (history m k l) h = refl
run_command_offline run c config (stats a) h = refl
run_command_offline run c config show_config h = refl
run_command_offline run c config (pay_batch f t s k) h = cc
run_command_offline run c config (admin action) h = cc

run_if_valid_offline :
    (run : ℕ → List String → Ran) (c : Client) (config : Config) (command : Commands)
    (v : Validated)
    → (reaches_network command && is_valid v) ≡ false
    → run_if_valid (with_stellar run c) config command v ≡ run_if_valid c config command v
run_if_valid_offline run c config command (valid v) h =
    run_command_offline run c config command (ground arith)
run_if_valid_offline run c config command (invalid errors) h = refl

-- A command that is not the batch, the list of merchants, the list of refunds or the statistics of an
-- account ends in the same way whatever the `stellar` command does: a payment, the request, approval,
-- rejection, execution and status of a refund, the update of a merchant, the history and the global
-- statistics among them. With a configuration that is not valid, so does every command.
pub main_offline :
    (is_blank : String → Bool) (run : ℕ → List String → Ran) (c : Client) (config : Config)
    (command : Commands)
    → (reaches_network command && is_valid (validate_config is_blank config)) ≡ false
    → main is_blank (with_stellar run c) config command ≡ main is_blank c config command
unfolding main
main_offline is_blank run c config command h =
    run_if_valid_offline run c config command (validate_config is_blank config) h
