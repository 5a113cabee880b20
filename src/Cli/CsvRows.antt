-- ===== src/Cli/CsvRows.antt =====
-- What the batch file's parser lets through.
use lumenflow_contracts.Cli.Csv.{
  empty_file, parse_after_header, CsvError, CsvRow, Text, amount_errors, check_row, expected_header,
  find_header, merchant_errors, order_id_errors, parse_columns, parse_csv, parse_rows, row_if_ok,
  text_row, token_errors, parsed, is_stellar_address, is_blank, collect, outcome,
}
use lumenflow_contracts.Base.{
  All, Bool-cases, List, Option, Option-cases, String, [], arith, false, if◌then◌else◌, inl, inr,
  length, nat_eq, none, refl, some, string_eq, subst, suc, true, unwrap_or, ℕ, ◌++◌, ◌==◌, ◌∷◌, ◌≡◌,
  ◌≤◌,
}
use lumenflow_contracts.Base.Int.{ltb_ℤ, pos, ℤ}
use lumenflow_contracts.Cli.Invocation.{given}

-- A row that can be submitted.
pub record IsValidRow (t : Text) (row : CsvRow) : Type 0 where
  pub has_order : (row.order_id == "") ≡ false
  pub to_merchant : is_stellar_address t row.merchant_address ≡ true
  pub in_token : is_stellar_address t row.token_address ≡ true
  pub positive : ltb_ℤ (pos 0) row.amount ≡ true

-- The lines that are not blank.
unfoldable pub data_lines : Text → List String → ℕ
data_lines t [] = 0
data_lines t (line ∷ rest) =
    let later = data_lines t rest in if is_blank t line then later else suc later

append-eq-nil : (xs ys : List CsvError) → xs ++ ys ≡ [] → (xs ≡ []) × (ys ≡ [])
append-eq-nil [] ys h = (refl, h)
append-eq-nil (x ∷ xs) ys h = ground arith

amount_errors_lem :
    (t : Text) (n : ℕ) (s : String) (o : Option ℤ)
    → amount_errors t n s o ≡ []
    → ltb_ℤ (pos 0) (unwrap_or (pos 0) o) ≡ true
amount_errors_lem t n s none h = ground arith
amount_errors_lem t n s (some a) h = elim (Bool-cases (ltb_ℤ (pos 0) a)) [
  | inl positive ↦ positive
  | inr other ↦ ground arith
]

check_row-IsValidRow :
    (t : Text) (n : ℕ) (row : CsvRow) (s : String) (o : Option ℤ)
    → (check_row t n row s o).1 ≡ []
    → IsValidRow t (check_row t n row s o).0
check_row-IsValidRow t n row s o h =
    let (order, rest) = append-eq-nil (order_id_errors t n row.order_id) _ h in
    let (merchant, rest') = append-eq-nil (merchant_errors t n row.merchant_address) _ rest in
    let (token, number) = append-eq-nil (token_errors t n row.token_address) _ rest' in
    record {
      has_order = ground (arith, order);
      to_merchant = ground (arith, merchant);
      in_token = ground (arith, token);
      positive = amount_errors_lem t n s o number;
    }

row_if_ok_lem :
    (row : CsvRow) (errors : List CsvError) → errors ≡ [] → row_if_ok row errors ≡ some row
row_if_ok_lem row [] h = refl
row_if_ok_lem row (e ∷ es) h = ground arith

-- A line without errors gives a row.
Gives : Text → Option CsvRow × List CsvError → Type 0
Gives t (o, errors) = errors ≡ [] → (row : CsvRow) × (o ≡ some row) × IsValidRow t row

parse_columns-Gives :
    (t : Text) (n : ℕ) (line : String) (parts : List String)
    → Gives t (parse_columns t n line parts)
unfolding Gives
parse_columns-Gives t n line [] h = ground arith
parse_columns-Gives t n line (a ∷ []) h = ground arith
parse_columns-Gives t n line (a ∷ b ∷ []) h = ground arith
parse_columns-Gives t n line (a ∷ b ∷ c ∷ []) h = ground arith
parse_columns-Gives t n line (a ∷ b ∷ c ∷ d ∷ []) h = ground arith
parse_columns-Gives t n line (a ∷ b ∷ c ∷ d ∷ e ∷ []) h =
    let s = t.trim d in
    let row = text_row t a b c e in
    (
      (check_row t n row s (t.parse s)).0,
      row_if_ok_lem (check_row t n row s (t.parse s)).0 (check_row t n row s (t.parse s)).1 h,
      check_row-IsValidRow t n row s (t.parse s) h,
    )
parse_columns-Gives t n line (a ∷ b ∷ c ∷ d ∷ e ∷ f ∷ g) h = ground arith

-- Lines without errors give as many rows, all of them valid.
GivesAll : Text → ℕ → List CsvRow × List CsvError → Type 0
GivesAll t n (rows, errors) = errors ≡ [] → All (IsValidRow t) rows × (length rows ≡ n)

collect-GivesAll :
    (t : Text) (n : ℕ) (one : Option CsvRow × List CsvError) (more : List CsvRow × List CsvError)
    → Gives t one
    → GivesAll t n more
    → GivesAll t (suc n) (collect one more)
unfolding Gives GivesAll
collect-GivesAll t n (none, errors) (rows, later) first rest h =
    let (row, found, _) = first ((append-eq-nil errors later h).0) in ground arith
collect-GivesAll t n (some row, errors) (rows, later) first rest h =
    let (now, after) = append-eq-nil errors later h in
    let (same, found, valid_row) = first now in
    let (valid_rows, lengths) = rest after in
    let own : same ≡ row = ground arith in
    ((subst (IsValidRow t) own valid_row, valid_rows), omega arith)

no_lines : (t : Text) → GivesAll t 0 ([], [])
unfolding GivesAll
no_lines t h = (tt, refl)

parse_rows-GivesAll :
    (t : Text) (n : ℕ) (lines : List String)
    → GivesAll t (data_lines t lines) (parse_rows t n lines)
unfolding parse_rows data_lines
parse_rows-GivesAll t n [] = no_lines t
parse_rows-GivesAll t n (line ∷ rest) = elim (Bool-cases (is_blank t line)) [
  | inl blank ↦ rw blank (parse_rows-GivesAll t (suc n) rest)
  | inr given ↦ rw given (
      collect-GivesAll t (data_lines t rest)
        (parse_columns t (suc n) (t.trim line) (t.splitn (t.trim line))) (parse_rows t (suc n) rest)
        (parse_columns-Gives t (suc n) (t.trim line) (t.splitn (t.trim line)))
        (parse_rows-GivesAll t (suc n) rest))
]

outcome_lem :
    (found : List CsvRow × List CsvError) (rows : List CsvRow)
    → outcome found ≡ parsed rows
    → (found ≡ (rows, [])) × (1 ≤ length rows)
outcome_lem (xs, e ∷ es) rows h = ground arith
outcome_lem ([], []) rows h = ground arith
outcome_lem (x ∷ xs, []) rows h = (ground arith, ground arith)

parse_after_header_lem :
    (t : Text) (header : String) (n : ℕ) (rest : List String) (rows : List CsvRow)
    → parse_after_header t (some (header, n, rest)) ≡ parsed rows
    → ((t.to_lowercase (t.trim header) == expected_header) ≡ true)
      × All (IsValidRow t) rows
      × (length rows ≡ data_lines t rest)
      × (1 ≤ length rows)
unfolding GivesAll
parse_after_header_lem t header n rest rows h =
    elim (Bool-cases (t.to_lowercase (t.trim header) == expected_header)) [
      | inr other ↦ ground arith
      | inl expected ↦
          let read : outcome (parse_rows t n rest) ≡ parsed rows = rw expected at h in
          let (found, some_row) = outcome_lem (parse_rows t n rest) rows read in
          let all = subst (GivesAll t (data_lines t rest)) found (parse_rows-GivesAll t n rest) in
          (expected, (all refl).0, (all refl).1, some_row)
    ]

-- If a batch file is accepted, then it has a header with the expected columns, and below it at least
-- one line that is not blank. Every such line has given a row, and every row has an order id,
-- addresses of the right form for the merchant and the token, and a positive amount: one bad line
-- rejects the whole file.
pub parse_csv_lem :
    (t : Text) (content : String) (rows : List CsvRow)
    → parse_csv t content ≡ parsed rows
    → (header : String) × (n : ℕ) × (rest : List String) × (find_header t 0 (t.lines content)
        ≡ some (header, n, rest))
      × ((t.to_lowercase (t.trim header) == expected_header) ≡ true)
      × All (IsValidRow t) rows
      × (length rows ≡ data_lines t rest)
      × (1 ≤ length rows)
unfolding parse_csv GivesAll
parse_csv_lem t content rows h = elim (Option-cases (find_header t 0 (t.lines content))) [
  | inl missing ↦
      let bad : empty_file ≡ parsed rows =
        subst (λ o. parse_after_header t o ≡ parsed rows) missing h in
      ground arith
  | inr ((header, n, rest), found) ↦
      let (expected, all, lengths, some_row) =
        parse_after_header_lem t header n rest rows
          (subst (λ o. parse_after_header t o ≡ parsed rows) found h) in
      (header, n, rest, found, expected, all, lengths, some_row)
]
