-- ===== src/Cli/Csv.antt =====
-- cli/lumenflow-cli/src/main.rs, `parse_csv`. The standard library's operations on text are
-- parameters; an error carries what its message says.
use lumenflow_contracts.Base.{
  Bool, List, Option, String, [], eqb, if◌then◌else◌, len, length, nat_eq, none, some, string_eq,
  suc, unwrap_or, ℕ, ◌&&◌, ◌++◌, ◌==◌, ◌∷◌,
}
use lumenflow_contracts.Base.Int.{ℤ, pos, ltb_ℤ}

pub record Text : Type 0 where
  pub lines : String → List String
  pub trim : String → String
  pub to_lowercase : String → String
  -- `starts_with('G')`
  pub starts_with_g : String → Bool
  -- `splitn(5, ',')`
  pub splitn : String → List String
  -- `parse::<i128>()`
  pub parse : String → Option ℤ

pub record CsvRow : Type 0 where
  pub order_id : String
  pub merchant_address : String
  pub token_address : String
  pub amount : ℤ
  pub memo : String

pub data CsvError : Type 0 where
  column_count : ℕ → ℕ → String → CsvError
  empty_order_id : ℕ → CsvError
  bad_merchant bad_token not_positive not_an_integer : ℕ → String → CsvError

pub data Parsed : Type 0 where
  parsed : List CsvRow → Parsed
  empty_file no_rows : Parsed
  header_mismatch : String → Parsed
  validation_failed : List CsvError → Parsed

abbrev pub expected_header : String
expected_header = "order_id,merchant_address,token_address,amount,memo"

-- `if row_ok { rows.push(..) }`
abbrev pub row_if_ok : CsvRow → List CsvError → Option CsvRow
row_if_ok row [] = some row
row_if_ok row (e ∷ es) = none

abbrev pub collect :
    Option CsvRow × List CsvError → List CsvRow × List CsvError → List CsvRow × List CsvError
collect (none, errors) (rows, later) = (rows, errors ++ later)
collect (some row, errors) (rows, later) = (row ∷ rows, errors ++ later)

abbrev pub outcome : List CsvRow × List CsvError → Parsed
outcome (rows, e ∷ es) = validation_failed (e ∷ es)
outcome ([], []) = no_rows
outcome (row ∷ rows, []) = parsed (row ∷ rows)

module _ (t : Text) where
  abbrev pub is_blank : String → Bool
  is_blank line = t.trim line == ""

  -- The loop that skips blank lines; what follows the header is numbered from `n`.
  unfoldable pub find_header : ℕ → List String → Option (String × ℕ × List String)
  find_header n [] = none
  find_header n (line ∷ rest) =
      let later = find_header (suc n) rest in
      if is_blank line then later else some (line, suc n, rest)

  abbrev pub is_stellar_address : String → Bool
  is_stellar_address s = t.starts_with_g s && eqb (len s) 56

  abbrev pub order_id_errors : ℕ → String → List CsvError
  order_id_errors n s = if s == "" then empty_order_id n ∷ [] else []

  abbrev pub merchant_errors : ℕ → String → List CsvError
  merchant_errors n s = if is_stellar_address s then [] else bad_merchant n s ∷ []

  abbrev pub token_errors : ℕ → String → List CsvError
  token_errors n s = if is_stellar_address s then [] else bad_token n s ∷ []

  abbrev pub amount_errors : ℕ → String → Option ℤ → List CsvError
  amount_errors n s none = not_an_integer n s ∷ []
  amount_errors n s (some a) = if ltb_ℤ (pos 0) a then [] else not_positive n s ∷ []

  -- The row, and what is wrong with it.
  abbrev pub check_row : ℕ → CsvRow → String → Option ℤ → CsvRow × List CsvError
  check_row n row amount_str amount = (
    record row { amount = unwrap_or (pos 0) amount },
    order_id_errors n row.order_id
        ++ (merchant_errors n row.merchant_address
            ++ (token_errors n row.token_address ++ amount_errors n amount_str amount)),
  )

  abbrev pub text_row : String → String → String → String → CsvRow
  text_row order_id merchant_address token_address memo = record {
    order_id = t.trim order_id;
    merchant_address = t.trim merchant_address;
    token_address = t.trim token_address;
    amount = pos 0;
    memo = t.trim memo;
  }

  -- A line that is not blank: a row without errors, or errors.
  abbrev pub parse_columns : ℕ → String → List String → Option CsvRow × List CsvError
  parse_columns n line (a ∷ b ∷ c ∷ d ∷ e ∷ []) =
      let amount_str = t.trim d in
      let (row, errors) = check_row n (text_row a b c e) amount_str (t.parse amount_str) in
      (row_if_ok row errors, errors)
  parse_columns n line parts = (none, column_count n (length parts) line ∷ [])

  unfoldable pub parse_rows : ℕ → List String → List CsvRow × List CsvError
  parse_rows n [] = ([], [])
  parse_rows n (line ∷ rest) =
      let later = parse_rows (suc n) rest in
      if is_blank line
      then later
      else collect (parse_columns (suc n) (t.trim line) (t.splitn (t.trim line))) later

  abbrev pub parse_after_header : Option (String × ℕ × List String) → Parsed
  parse_after_header none = empty_file
  parse_after_header (some (header, n, rest)) =
      if t.to_lowercase (t.trim header) == expected_header
      then outcome (parse_rows n rest)
      else header_mismatch (t.trim header)

  unfoldable pub parse_csv : String → Parsed
  parse_csv content = parse_after_header (find_header 0 (t.lines content))
