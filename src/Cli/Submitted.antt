-- ===== src/Cli/Submitted.antt =====
-- What the client reports of a batch that it has submitted.
use lumenflow_contracts.Base.{
  ap, Bool, Option-cases, inl, inr, subst, ◌-◌, ◌∙◌, List, Option, String, [], arith, false,
  if◌then◌else◌, length, map, nat_eq, none, not, refl, some, string_eq, suc, sym, true, ℕ, ◌+◌, ◌∷◌,
  ◌≡◌, ◌≤◌,
}
use lumenflow_contracts.Cli.Csv.{
  CsvRow, Parsed, empty_file, no_rows, header_mismatch, validation_failed, parse_csv, parsed,
}
use lumenflow_contracts.Cli.Invocation.{base_invoke}
use lumenflow_contracts.Cli.Submission.{
  report, submit_parsed, no_target, Ran, RowResult, Shell, batch_pay, err_summary, exited, failures,
  is_failure, max_rows, not_started, row_args, row_result, submit_rows, submitted,
}
use lumenflow_contracts.Cli.CsvRows.{parse_csv_lem}
use Prim.Native.String.{◌++◌ as text_append}
use text.Mathlib.Text.{starts_with}
use text.Mathlib.TextPositions.{starts_with_of_prefix}
use text.Mathlib.TextLemmas.{append_assoc}
use lumenflow_contracts.Cli.Config.{Config}

-- Whether a run ended well.
abbrev pub succeeded : Ran → Bool
succeeded (exited true stdout stderr) = true
succeeded _ = false

abbrev pub order_ids : List CsvRow → List String
order_ids rows = map (λ row. row.order_id) rows

-- How many of the runs for these rows, the first one the `n`-th, do not end well.
unfoldable pub failed_runs : (ℕ → CsvRow → Ran) → ℕ → List CsvRow → ℕ
failed_runs run n [] = 0
failed_runs run n (row ∷ rows) =
    let rest = failed_runs run (suc n) rows in if succeeded (run n row) then rest else suc rest

is_failure-failed : (e : String) → starts_with (text_append "FAILED: " e) "FAILED" ≡ true
is_failure-failed e =
    starts_with_of_prefix "FAILED" (text_append "FAILED: " e)
      (text_append ": " e, sym (append_assoc "FAILED" ": " e))

is_failure-error : (e : String) → starts_with (text_append "ERROR: " e) "ERROR" ≡ true
is_failure-error e =
    starts_with_of_prefix "ERROR" (text_append "ERROR: " e)
      (text_append ": " e, sym (append_assoc "ERROR" ": " e))

-- A row counts as failed exactly if its run did not end well.
is_failure-row_result :
    (sh : Shell) (row : CsvRow) (r : Ran) → is_failure (row_result sh row r) ≡ not (succeeded r)
is_failure-row_result sh row (exited true stdout stderr) = refl
is_failure-row_result sh row (exited false stdout stderr) =
    ground (arith, is_failure-failed (err_summary sh stderr))
is_failure-row_result sh row (not_started e) = ground (arith, is_failure-error e)

-- The rows of the table, for rows that are submitted from the `n`-th run on.
TableOf : Shell → (ℕ → CsvRow → Ran) → ℕ → List CsvRow → List RowResult → Type 0
TableOf sh run n rows results =
    (map (λ r. r.order_id) results ≡ order_ids rows)
    × (length results ≡ length rows)
    × (failures results ≡ failed_runs run n rows)

no_rows_yet : (sh : Shell) (run : ℕ → CsvRow → Ran) (n : ℕ) → TableOf sh run n [] []
unfolding TableOf failures failed_runs
no_rows_yet sh run n = (refl, refl, refl)

row_result-order_id :
    (sh : Shell) (row : CsvRow) (r : Ran) → (row_result sh row r).order_id ≡ row.order_id
row_result-order_id sh row (exited true stdout stderr) = refl
row_result-order_id sh row (exited false stdout stderr) = refl
row_result-order_id sh row (not_started e) = refl

module _ (sh : Shell) (config : Config) (token : Option String) (signature public_key : String)
    (base : List String) (target : base_invoke config ≡ some base) where
  abbrev run_of : ℕ → CsvRow → Ran
  run_of n row = sh.stellar n (row_args sh config token signature public_key base row)

  add_row-TableOf :
      (n : ℕ) (row : CsvRow) (rows : List CsvRow) (rest : List RowResult)
      → TableOf sh run_of (suc n) rows rest
      → TableOf sh run_of n (row ∷ rows) (row_result sh row (run_of n row) ∷ rest)
  unfolding TableOf failures failed_runs
  add_row-TableOf n row rows rest (ids, lengths, count) =
      let fails = is_failure-row_result sh row (run_of n row) in
      let same : (row_result sh row (run_of n row)).order_id ≡ row.order_id =
        row_result-order_id sh row (run_of n row) in
      (rw (same, ids) refl, omega (arith, lengths), ground (arith, fails, count))

  submit_rows-TableOf :
      (n : ℕ) (rows : List CsvRow)
      → (results : List RowResult) × (submit_rows sh config token signature public_key n rows
          ≡ some results)
        × TableOf sh run_of n rows results
  unfolding submit_rows
  submit_rows-TableOf n [] = ([], refl, no_rows_yet sh run_of n)
  submit_rows-TableOf n (row ∷ rows) =
      let (rest, e, table) = submit_rows-TableOf (suc n) rows in
      (
        row_result sh row (run_of n row) ∷ rest,
        rw (submit_rows, target, e) refl,
        add_row-TableOf n row rows rest table,
      )

  failures_le : (n : ℕ) (rows : List CsvRow) → failed_runs run_of n rows ≤ length rows
  unfolding failed_runs
  failures_le n [] = omega arith
  failures_le n (row ∷ rows) = ground (arith, failures_le (suc n) rows)

-- Without a contract or a source to invoke, rows cannot be submitted.
no_target_lem :
    (sh : Shell) (config : Config) (token : Option String) (signature public_key : String) (n : ℕ)
    (row : CsvRow) (rows : List CsvRow)
    → base_invoke config ≡ none
    → submit_rows sh config token signature public_key n (row ∷ rows) ≡ none
unfolding submit_rows
no_target_lem sh config token signature public_key n row rows h = rw (submit_rows, h) refl

report_lem :
    (o : Option (List RowResult)) (table results : List RowResult) (good bad : ℕ)
    → o ≡ some table
    → report o ≡ submitted results good bad
    → (results ≡ table) × (bad ≡ failures table) × (good ≡ length table - failures table)
report_lem o table results good bad e reported =
    let known : report (some table) ≡ submitted results good bad =
      subst (λ x. report x ≡ submitted results good bad) e reported in
    (ground arith, ground arith, ground arith)

module _ (sh : Shell) (config : Config) (token : Option String)
    (signature public_key : String) where
  batch_pay_file :
      (file : String) (results : List RowResult) (good bad : ℕ)
      → batch_pay sh config token signature public_key file ≡ submitted results good bad
      → (content : String) × (sh.read_to_string file ≡ some content)
        × (submit_parsed sh config token signature public_key (parse_csv sh.text content)
            ≡ submitted results good bad)
  unfolding batch_pay
  batch_pay_file file results good bad done = elim (Option-cases (sh.read_to_string file)) [
    | inl missing ↦ ground arith
    | inr (content, read) ↦ (content, read, ground arith)
  ]

  submit_parsed_rows :
      (p : Parsed) (results : List RowResult) (good bad : ℕ)
      → submit_parsed sh config token signature public_key p ≡ submitted results good bad
      → (rows : List CsvRow) × (p ≡ parsed rows)
        × (length rows ≤ max_rows)
        × (report (submit_rows sh config token signature public_key 0 rows)
            ≡ submitted results good bad)
  submit_parsed_rows (parsed rows) results good bad done = (rows, refl, ground arith, ground arith)
  submit_parsed_rows empty_file results good bad done = ground arith
  submit_parsed_rows no_rows results good bad done = ground arith
  submit_parsed_rows (header_mismatch h) results good bad done = ground arith
  submit_parsed_rows (validation_failed es) results good bad done = ground arith

  known_target :
      (rows : List CsvRow) (results : List RowResult) (good bad : ℕ)
      → 1 ≤ length rows
      → report (submit_rows sh config token signature public_key 0 rows)
        ≡ submitted results good bad
      → (base : List String) × (base_invoke config ≡ some base)
  known_target [] results good bad h done = ground arith
  known_target (row ∷ rows) results good bad h done = elim (Option-cases (base_invoke config)) [
    | inr target ↦ target
    | inl missing ↦
        let nothing = no_target_lem sh config token signature public_key 0 row rows missing in
        let refused : no_target ≡ submitted results good bad =
          subst (λ o. report o ≡ submitted results good bad) nothing done in
        ground arith
  ]

-- If the batch command gets as far as a table, then its file was accepted with one to ten rows, and
-- the table has a line for each row, in their order. The number of failures that it reports, by which
-- the command itself fails, is the number of runs that did not end well, and it reports all the
-- others as successes.
pub batch_pay_lem :
    (sh : Shell) (config : Config) (token : Option String) (signature public_key file : String)
    (results : List RowResult) (good bad : ℕ)
    → batch_pay sh config token signature public_key file ≡ submitted results good bad
    → (content : String) × (rows : List CsvRow) × (base : List String) × (sh.read_to_string file
        ≡ some content)
      × (parse_csv sh.text content ≡ parsed rows)
      × (base_invoke config ≡ some base)
      × (1 ≤ length rows)
      × (length rows ≤ max_rows)
      × (map (λ r. r.order_id) results ≡ order_ids rows)
      × (bad
          ≡ failed_runs
              (λ n row. sh.stellar n (row_args sh config token signature public_key base row))
              0
              rows)
      × (good + bad ≡ length rows)
unfolding TableOf
batch_pay_lem sh config token signature public_key file results good bad done =
    let (content, read, submission) =
      batch_pay_file sh config token signature public_key file results good bad done in
    let (rows, found, short, reported) =
      submit_parsed_rows sh config token signature public_key (parse_csv sh.text content) results
        good bad submission in
    let (_, _, _, _, _, _, _, some_row) = parse_csv_lem sh.text content rows found in
    let (base, target) =
      known_target sh config token signature public_key rows results good bad some_row reported in
    let (table, e, known) =
      submit_rows-TableOf sh config token signature public_key base target 0 rows in
    let (same, bad_count, good_count) =
      report_lem (submit_rows sh config token signature public_key 0 rows) table results good bad e
        reported in
    let (ids, lengths, counted) = known in
    let fits = failures_le sh config token signature public_key base target 0 rows in
    (
      content,
      rows,
      base,
      read,
      found,
      target,
      some_row,
      short,
      ap (map (λ r. r.order_id)) same ∙ ids,
      bad_count ∙ counted,
      omega (arith, bad_count, good_count, counted, lengths, fits),
    )
