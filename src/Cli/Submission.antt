-- ===== src/Cli/Submission.antt =====
-- cli/lumenflow-cli/src/main.rs, the command `BatchPay` of `main`: one run of the `stellar` command
-- for each row of the batch file, and the table of what came of it. The runs, the files and the
-- standard library's operations on text are parameters.
use Prim.Native.String.{◌++◌ as text_append}
use text.Mathlib.Text.{starts_with}
use lumenflow_contracts.Cli.Config.{Config}
use lumenflow_contracts.Cli.Csv.{parsed}
use lumenflow_contracts.Base.{
  Bool, List, Option, String, [], eqb, false, if◌then◌else◌, is_some, len, length, ltb, nat_eq,
  none, not, some, string_eq, suc, true, unwrap_or, ℕ, ◌&&◌, ◌++◌, ◌-◌, ◌==◌, ◌||◌, ◌∷◌,
}
use lumenflow_contracts.Base.Int.{ℤ}
use lumenflow_contracts.Cli.Csv.{CsvRow, Parsed, Text, parse_csv}
use lumenflow_contracts.Cli.Invocation.{base_invoke}

-- `cmd.output()`: the exit status with what was printed and what was complained of, or why the
-- command could not be started.
pub data Ran : Type 0 where
  exited : Bool → String → String → Ran
  not_started : String → Ran

pub record Shell : Type 0 where
  pub text : Text
  pub read_to_string : String → Option String
  -- The `n`-th run of the `stellar` command with these arguments.
  pub stellar : ℕ → List String → Ran
  -- `l.chars().all(|c| c.is_ascii_hexdigit())`
  pub is_hex : String → Bool
  -- `s.chars().take(60).collect()`
  pub take_60 : String → String
  pub amount_text : ℤ → String

pub record RowResult : Type 0 where
  pub order_id : String
  pub status : String
  pub tx_hash : String

pub data Batch : Type 0 where
  no_key no_file no_target : Batch
  bad_file : Parsed → Batch
  too_many : ℕ → Batch
  -- The table, how many rows succeeded and how many failed; the command succeeds if none did.
  submitted : List RowResult → ℕ → ℕ → Batch

abbrev pub max_rows : ℕ
max_rows = 10

-- The rows that were submitted, if the invocation could be made.
abbrev pub add_row : RowResult → Option (List RowResult) → Option (List RowResult)
add_row r none = none
add_row r (some rs) = some (r ∷ rs)

abbrev pub is_failure : RowResult → Bool
is_failure r = starts_with r.status "FAILED" || starts_with r.status "ERROR"

unfoldable pub failures : List RowResult → ℕ
failures [] = 0
failures (r ∷ rs) = let rest = failures rs in if is_failure r then suc rest else rest

abbrev pub report : Option (List RowResult) → Batch
report none = no_target
report (some results) =
    let failed = failures results in submitted results (length results - failed) failed

module _ (sh : Shell) where
  abbrev pub is_hash : String → Bool
  is_hash l = eqb (len l) 64 && sh.is_hex l

  -- `.find(..)`
  abbrev pub find_hash : List String → Option String
  find_hash [] = none
  find_hash (l ∷ ls) = if is_hash l then some l else find_hash ls

  abbrev pub find_line : List String → Option String
  find_line [] = none
  find_line (l ∷ ls) = if not (sh.text.trim l == "") then some l else find_line ls

  abbrev pub tx_hash_of : String → String
  tx_hash_of stdout = sh.text.trim (unwrap_or "(no hash)" (find_hash (sh.text.lines stdout)))

  abbrev pub err_summary : String → String
  err_summary stderr =
      sh.take_60 (sh.text.trim (unwrap_or "unknown error" (find_line (sh.text.lines stderr))))

  -- The row of the table for one run.
  abbrev pub row_result : CsvRow → Ran → RowResult
  row_result row (exited true stdout stderr) = record {
    order_id = row.order_id;
    status = "success";
    tx_hash = tx_hash_of stdout;
  }
  row_result row (exited false stdout stderr) = record {
    order_id = row.order_id;
    status = text_append "FAILED: " (err_summary stderr);
    tx_hash = "-";
  }
  row_result row (not_started e) = record {
    order_id = row.order_id;
    status = text_append "ERROR: " e;
    tx_hash = "-";
  }

  abbrev pub payment_args : String → Option String → String → String → CsvRow → List String
  payment_args payer token signature public_key row =
      "--"
      ∷ "process_payment_with_signature"
      ∷ "--payer"
      ∷ payer
      ∷ "--order_id"
      ∷ row.order_id
      ∷ "--merchant_address"
      ∷ row.merchant_address
      ∷ "--token_address"
      ∷ unwrap_or row.token_address token
      ∷ "--amount"
      ∷ sh.amount_text row.amount
      ∷ "--memo"
      ∷ row.memo
      ∷ "--tags"
      ∷ "null"
      ∷ "--nonce"
      ∷ "1"
      ∷ "--signature"
      ∷ signature
      ∷ "--merchant_public_key"
      ∷ public_key
      ∷ []

  module _ (config : Config) (token : Option String) (signature public_key : String) where
    abbrev pub row_args : List String → CsvRow → List String
    row_args base row =
        base ++ payment_args (unwrap_or "" config.source_account) token signature public_key row

    -- The loop over the rows, from the `n`-th run.
    unfoldable pub submit_rows : ℕ → List CsvRow → Option (List RowResult)
    submit_rows n [] = some []
    submit_rows n (row ∷ rows) =
        let rest = submit_rows (suc n) rows in
        elim (base_invoke config) [
          | none ↦ none
          | some base ↦ add_row (row_result row (sh.stellar n (row_args base row))) rest
        ]

    abbrev pub submit_parsed : Parsed → Batch
    submit_parsed (parsed rows) =
        if ltb max_rows (length rows) then too_many (length rows) else report (submit_rows 0 rows)
    submit_parsed p = bad_file p

    abbrev pub submit_file : Option String → Batch
    submit_file none = no_file
    submit_file (some content) = submit_parsed (parse_csv sh.text content)

    unfoldable pub batch_pay : String → Batch
    batch_pay file =
        if is_some config.source_account then submit_file (sh.read_to_string file) else no_key
