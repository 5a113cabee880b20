-- ===== src/Examples/ClientRuns.antt =====
-- A run of the batch file's parser, on a file with a header and one row.
use lumenflow_contracts.Cli.Commands.{Client}
use lumenflow_contracts.Cli.Main.{PayArgs, main, main_offline, pay_with, with_stellar}
use lumenflow_contracts.Cli.Submission.{
  exited, RowResult, Shell, batch_pay, failures, not_started, row_args, submit_rows, submitted,
}
use lumenflow_contracts.Base.{
  arith, false, none, ◌+◌, All, List, String, [], length, nat_eq, refl, some, string_eq, true, ℕ,
  ◌==◌, ◌∷◌, ◌≡◌, ◌≤◌,
}
use lumenflow_contracts.Cli.Invocation.{base_invoke}
use lumenflow_contracts.Cli.Redaction.{key_of, print_config_hides}
use lumenflow_contracts.Cli.Reports.{config_lines, print_config}
use lumenflow_contracts.Cli.Submitted.{order_ids, batch_pay_lem, failed_runs}
use lumenflow_contracts.Cli.Config.{Config}
use lumenflow_contracts.Cli.Csv.{
  parsed, CsvRow, Text, expected_header, find_header, parse_csv, parse_rows,
}
use lumenflow_contracts.Base.Int.{pos}
use lumenflow_contracts.Cli.CsvRows.{IsValidRow, data_lines, parse_csv_lem}

abbrev account : String
account = "GAAAAAAAAAAAAAAAAAAAAAAAAAAAAAAAAAAAAAAAAAAAAAAAAAAAAAAA"

abbrev header_line : String
header_line = "order_id,merchant_address,token_address,amount,memo"

abbrev columns : List String
columns = "o1" ∷ account ∷ account ∷ "100" ∷ "food" ∷ []

-- The standard library on the texts of this file.
abbrev plain_text : Text
plain_text = record {
  lines = λ content. header_line ∷ content ∷ "" ∷ [];
  trim = λ s. s;
  to_lowercase = λ s. s;
  starts_with_g = λ s. s == account;
  splitn = λ s. columns;
  parse = λ s. some (pos 100);
}

abbrev one_row : List CsvRow
one_row =
    record {
      order_id = "o1";
      merchant_address = account;
      token_address = account;
      amount = pos 100;
      memo = "food";
    }
    ∷ []

parse_run : parse_csv plain_text "row" ≡ parsed one_row
unfolding parse_csv find_header parse_rows
parse_run = refl

parse_csv_example :
    (header : String) × (n : ℕ) × (rest : List String) × (find_header plain_text 0
        (header_line ∷ "row" ∷ "" ∷ [])
      ≡ some (header, n, rest))
    × ((header == expected_header) ≡ true)
    × All (IsValidRow plain_text) one_row
    × (1 ≡ data_lines plain_text rest)
    × (1 ≤ length one_row)
parse_csv_example = parse_csv_lem plain_text "row" one_row parse_run

abbrev client_config : Config
client_config = record {
  network = some "testnet";
  rpc_url = none;
  network_passphrase = none;
  contract_id = some "C";
  source_account = some "SECRET-KEY";
}

-- A shell on which every run fails.
abbrev closed_shell : Shell
closed_shell = record {
  text = plain_text;
  read_to_string = λ path. some "row";
  stellar = λ n args. not_started "no stellar";
  is_hex = λ s. false;
  take_60 = λ s. s;
  amount_text = λ a. "100";
}

abbrev failed_row : List RowResult
failed_row = record { order_id = "o1"; status = "ERROR: no stellar"; tx_hash = "-" } ∷ []

batch_run : batch_pay closed_shell client_config none "" "" "file" ≡ submitted failed_row 0 1
unfolding batch_pay submit_rows failures base_invoke parse_csv find_header parse_rows
batch_run = refl

batch_pay_example :
    (content : String) × (rows : List CsvRow) × (base : List String) × (some "row" ≡ some content)
    × (parse_csv plain_text content ≡ parsed rows)
    × (base_invoke client_config ≡ some base)
    × (1 ≤ length rows)
    × (length rows ≤ 10)
    × ("o1" ∷ [] ≡ order_ids rows)
    × (1
        ≡ failed_runs
            (λ n row.
              closed_shell.stellar n (row_args closed_shell client_config none "" "" base row))
            0
            rows)
    × (0 + 1 ≡ length rows)
batch_pay_example =
    batch_pay_lem closed_shell client_config none "" "" "file" failed_row 0 1 batch_run

print_config_hides_example :
    (print_config (record client_config { source_account = some (key_of "SECR" "ET" "-KEY") })
      ≡ print_config (record client_config { source_account = some (key_of "SECR" "RET" "-KEY") }))
    × (print_config (record client_config { source_account = some (key_of "SECR" "ET" "-KEY") })
        ≡ some (config_lines client_config "SECR…-KEY"))
    × (print_config (record client_config { source_account = some "SHORT" })
        ≡ print_config (record client_config { source_account = some "KEY" }))
print_config_hides_example =
    print_config_hides client_config "SECR" "-KEY" "ET" "RET" "SHORT" "KEY" refl refl (omega arith)
      (omega arith) (omega arith) (omega arith)

abbrev purchase : PayArgs
purchase = record {
  merchant = account;
  amount = pos 100;
  order_id = "o1";
  token = account;
  memo = none;
  signature = "";
  merchant_public_key = "";
  idempotent = false;
}

abbrev console : Client
console = record {
  shell = closed_shell;
  parse_refunds = λ s. none;
  parse_u32 = λ s. none;
  nat_text = λ n. "";
  percent_text = λ n m. "";
}

main_offline_example :
    main
      (λ s. false)
      (with_stellar (λ n args. exited true "" "") console)
      client_config
      (pay_with purchase)
    ≡ main (λ s. false) console client_config (pay_with purchase)
main_offline_example =
    main_offline (λ s. false) (λ n args. exited true "" "") console client_config
      (pay_with purchase) refl
