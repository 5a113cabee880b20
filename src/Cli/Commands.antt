-- ===== src/Cli/Commands.antt =====
-- cli/lumenflow-cli/src/main.rs, `main`: what each command but `BatchPay` prints. Runs of the `stellar`
-- command, the JSON library and the formatting of numbers are parameters. A multi-line text that is
-- printed at once is one entry; why a command fails is a value.
use lumenflow_contracts.Cli.Config.{Config}
use lumenflow_contracts.Base.{
  Bool, List, Option, String, [], false, if◌then◌else◌, is_some, length, nat_eq, none, some,
  string_eq, true, unwrap_or, ℕ, ◌++◌, ◌==◌, ◌∷◌,
}
use lumenflow_contracts.Base.Int.{ℤ}
use lumenflow_contracts.Base.Texts.{text_append}
use lumenflow_contracts.Cli.Invocation.{base_invoke}
use lumenflow_contracts.Cli.Submission.{Ran, Shell, exited, not_started}
use lumenflow_contracts.Cli.Table.{RefundRow, refund_table}

pub record Client : Type 0 where
  pub shell : Shell
  -- `serde_json::from_str`, if it gives an array: its items.
  pub parse_refunds : String → Option (List RefundRow)
  pub parse_u32 : String → Option ℕ
  pub nat_text : ℕ → String
  -- `{:.1}` of `count / MAX * 100`
  pub percent_text : ℕ → ℕ → String

pub data Failure : Type 0 where
  no_signing_key missing_target : Failure
  not_run : String → Failure
  command_failed : String → String → Failure
  no_count : String → Failure

pub data Reply : Type 0 where
  printed : List String → Reply
  refused : Failure → Reply

abbrev pub texts : List String → String
texts [] = ""
texts (s ∷ ss) = text_append s (texts ss)

-- `if config.source_account.is_none() { bail!(..) }`
abbrev pub with_signing_key : Config → Reply → Reply
with_signing_key config reply =
    if is_some config.source_account then reply else refused no_signing_key

-- `Pay` runs nothing: it prints that the payment has been submitted.
abbrev pub pay_lines : String → String → String → String → Bool → List String
pay_lines network merchant amount order_id idempotent =
    texts ("Processing payment" ∷ (if idempotent then " (idempotent)" else "") ∷ "..." ∷ [])
      ∷ texts ("  Order:    " ∷ order_id ∷ [])
      ∷ texts ("  Merchant: " ∷ merchant ∷ [])
      ∷ texts ("  Amount:   " ∷ amount ∷ [])
      ∷ texts ("  Network:  " ∷ network ∷ [])
      ∷ (if idempotent
          then texts (
              "\nNote: duplicate submissions for order " ∷ order_id
              ∷ " will return the existing payment record." ∷ [])
            ∷ []
          else [])
    ++ (texts ("\nSuccess! Payment for order " ∷ order_id ∷ " has been submitted." ∷ []) ∷ [])

unfoldable pub pay : Client → Config → String → ℤ → String → Bool → Reply
pay c config merchant amount order_id idempotent = with_signing_key config (
    printed (
      pay_lines (unwrap_or "testnet" config.network) merchant (c.shell.amount_text amount) order_id
        idempotent))

abbrev pub optional_line : String → Option String → List String
optional_line label none = []
optional_line label (some value) = texts (label ∷ value ∷ []) ∷ []

unfoldable pub merchant_update :
    Config → String → Option String → Option String → Option String → Option String → Reply
merchant_update config address name description contact_info category = printed (
    texts ("Updating merchant profile for " ∷ address ∷ "..." ∷ [])
      ∷ texts ("  Contract: " ∷ unwrap_or "N/A" config.contract_id ∷ [])
      ∷ optional_line "  Name: " name
    ++ (optional_line "  Description: " description
        ++ (optional_line "  Contact Info: " contact_info
            ++ (optional_line "  Category: " category
                ++ (texts ("\nSuccess! Merchant profile updated for " ∷ address ∷ "." ∷ [])
                    ∷ [])))))

unfoldable pub refund_init : Client → Config → String → ℤ → Reply
refund_init c config order_id amount = with_signing_key config (
    printed (
      texts (
        "Initiating refund of "
        ∷ c.shell.amount_text amount
        ∷ " for order "
        ∷ order_id
        ∷ "..."
        ∷ [])
      ∷ texts ("  Contract: " ∷ unwrap_or "N/A" config.contract_id ∷ [])
      ∷ []))

-- `Approve`, `Reject`, `Execute` and `Status` print one line each.
abbrev pub refund_verb : String → Config → String → Reply
refund_verb verb config refund_id =
    with_signing_key config (printed (texts (verb ∷ refund_id ∷ "..." ∷ []) ∷ []))

abbrev pub refund_approve : Config → String → Reply
refund_approve = refund_verb "Approving refund "

abbrev pub refund_reject : Config → String → Reply
refund_reject = refund_verb "Rejecting refund "

abbrev pub refund_execute : Config → String → Reply
refund_execute = refund_verb "Executing refund "

abbrev pub refund_status : Config → String → Reply
refund_status = refund_verb "Querying status of refund "

abbrev pub format_history : String → String
format_history merchant = texts (
    "Fetching payment history for merchant " ∷ merchant
    ∷ "...\n  (Mock data)\n  - ORDER_001: 500 XLM\n  - ORDER_002: 1200 XLM" ∷ [])

abbrev pub format_stats : String
format_stats =
    "Global LumenFlow Statistics:\n  Total Volume:   45,000.00\n  Total Payments: 128\n  Active Merch:   12"

-- `cmd.output().context(..)?`, then the test of the status.
abbrev pub answer : Client → String → (String → Reply) → Ran → Reply
answer c name next (exited true stdout stderr) = next stdout
answer c name next (exited false stdout stderr) =
    refused (command_failed name (c.shell.text.trim stderr))
answer c name next (not_started e) = refused (not_run name)

abbrev pub refund_lines : Client → String → String → Option (List RefundRow) → List String
refund_lines c order_id raw none = raw ∷ []
refund_lines c order_id raw (some []) =
    texts ("No refunds found for order " ∷ order_id ∷ "." ∷ []) ∷ []
refund_lines c order_id raw (some (r ∷ rs)) =
    refund_table (r ∷ rs)
    ++ (texts (c.nat_text (length (r ∷ rs)) ∷ " refund(s) for order " ∷ order_id ∷ "." ∷ []) ∷ [])

abbrev pub show_refunds : Client → String → String → String → Reply
show_refunds c order_id output stdout =
    let raw = c.shell.text.trim stdout in
    printed (
      if c.shell.text.to_lowercase output == "json"
      then raw ∷ []
      else refund_lines c order_id raw (c.parse_refunds raw))

abbrev pub refund_list_on : Client → String → String → String → Option (List String) → Reply
refund_list_on c order_id caller output none = refused missing_target
refund_list_on c order_id caller output (some base) =
    answer c "get_refunds_for_order" (show_refunds c order_id output) (
      c.shell.stellar 0 (
        base
        ++ ("--" ∷ "get_refunds_for_order" ∷ "--caller" ∷ caller ∷ "--order_id" ∷ order_id ∷ [])))

unfoldable pub refund_list : Client → Config → String → String → String → Reply
refund_list c config order_id caller output =
    with_signing_key config (refund_list_on c order_id caller output (base_invoke config))
