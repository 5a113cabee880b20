-- ===== src/Cli/Alignment.antt =====
-- The lines of a table are equally long.
use Prim.Native.String.{count}
use lumenflow_contracts.Base.{
  All, List, String, [], arith, len, map, nat_eq, refl, string_eq, length, ℕ, ◌++◌, ◌+◌, ◌∷◌, ◌≡◌,
  ◌≤◌,
}
use lumenflow_contracts.Base.Texts.{
  count-append, count-le-len, count-pad, count-repeat, pad, repeat, text_append,
}
use lumenflow_contracts.Cli.Submission.{RowResult}
use lumenflow_contracts.Cli.Table.{
  RefundRow, result_header, refund_header, print_results_table, refund_cells, refund_table,
  refund_widths, result_cells, result_widths, line, more_cells, more_dashes, separator, table,
  width,
}

-- Each cell is at most as long, in bytes, as its column is wide.
Fits : List ℕ → List String → Type 0
Fits [] [] = Unit
Fits (w ∷ ws) (cell ∷ cells) = (len cell ≤ w) × Fits ws cells
Fits _ _ = ⊥

abbrev pub more_chars : List ℕ → ℕ
more_chars [] = 2
more_chars (w ∷ ws) = 3 + w + more_chars ws

-- How many characters a line has.
abbrev pub chars : List ℕ → ℕ
chars [] = 0
chars (w ∷ ws) = 2 + w + more_chars ws

count_joined :
    (s t u : String) (a b c : ℕ)
    → count s ≡ a
    → count t ≡ b
    → count u ≡ c
    → count (text_append s (text_append t u)) ≡ a + b + c
count_joined s t u a b c h i j =
    omega (arith, count-append s (text_append t u), count-append t u, h, i, j)

more_dashes_lem : (ws : List ℕ) → count (more_dashes ws) ≡ more_chars ws
more_dashes_lem [] = refl
more_dashes_lem (w ∷ ws) =
    count_joined "-+-" (repeat "-" w) (more_dashes ws) 3 w (more_chars ws) refl
      (count-repeat "-" w refl) (more_dashes_lem ws)

separator_lem : (ws : List ℕ) → count (separator ws) ≡ chars ws
separator_lem [] = refl
separator_lem (w ∷ ws) =
    count_joined "+-" (repeat "-" w) (more_dashes ws) 2 w (more_chars ws) refl
      (count-repeat "-" w refl) (more_dashes_lem ws)

padded : (w : ℕ) (cell : String) → len cell ≤ w → count (pad w cell) ≡ w
padded w cell h = count-pad w cell (omega (arith, count-le-len cell, h))

more_cells_lem :
    (ws : List ℕ) (cells : List String)
    → Fits ws cells
    → count (more_cells ws cells) ≡ more_chars ws
unfolding Fits
more_cells_lem [] [] fits = refl
more_cells_lem [] (cell ∷ cells) fits = absurd fits
more_cells_lem (w ∷ ws) [] fits = absurd fits
more_cells_lem (w ∷ ws) (cell ∷ cells) (here_fits, rest) =
    count_joined " | " (pad w cell) (more_cells ws cells) 3 w (more_chars ws) refl
      (padded w cell here_fits) (more_cells_lem ws cells rest)

line_lem : (ws : List ℕ) (cells : List String) → Fits ws cells → count (line ws cells) ≡ chars ws
unfolding Fits
line_lem [] [] fits = refl
line_lem [] (cell ∷ cells) fits = absurd fits
line_lem (w ∷ ws) [] fits = absurd fits
line_lem (w ∷ ws) (cell ∷ cells) (here_fits, rest) =
    count_joined "| " (pad w cell) (more_cells ws cells) 2 w (more_chars ws) refl
      (padded w cell here_fits) (more_cells_lem ws cells rest)

-- Every line of the table has as many characters as its widths say.
abbrev pub IsAligned : List ℕ → List String → Type 0
IsAligned ws lines = All (λ l. count l ≡ chars ws) lines

lines-IsAligned :
    (ws : List ℕ) (rows : List (List String)) (last : List String)
    → All (Fits ws) rows
    → IsAligned ws last
    → IsAligned ws (map (line ws) rows ++ last)
lines-IsAligned ws [] last fits end = end
lines-IsAligned ws (row ∷ rows) last (one, rest) end =
    (line_lem ws row one, lines-IsAligned ws rows last rest end)

table-IsAligned :
    (ws : List ℕ) (header : List String) (rows : List (List String))
    → Fits ws header
    → All (Fits ws) rows
    → IsAligned ws (table ws header rows)
table-IsAligned ws header rows top fits =
    let edge = separator_lem ws in
    (edge, (line_lem ws header top, (edge, lines-IsAligned ws rows _ fits (edge, tt))))

width-header : (header : String) (cells : List String) → len header ≤ width header cells
width-header header [] = omega arith
width-header header (cell ∷ cells) = omega (arith, width-header header cells)

-- The cells of one column, as a function of the row.
module _ {A : Type 0} (cell : A → String) (header : String) where
  width_of : List A → ℕ
  width_of rows = width header (map cell rows)

  FitsAll : ℕ → List A → Type 0
  FitsAll w rows = All (λ r. len (cell r) ≤ w) rows

  FitsAll-le : (v w : ℕ) (rows : List A) → v ≤ w → FitsAll v rows → FitsAll w rows
  unfolding FitsAll
  FitsAll-le v w [] h fits = tt
  FitsAll-le v w (r ∷ rows) h (one, rest) = (omega (arith, one, h), FitsAll-le v w rows h rest)

  width-FitsAll : (rows : List A) → All (λ r. len (cell r) ≤ width header (map cell rows)) rows
  unfolding FitsAll
  width-FitsAll [] = tt
  width-FitsAll (r ∷ rows) = (
    omega arith,
    FitsAll-le (width header (map cell rows)) (width header (map cell (r ∷ rows))) rows
        (omega arith) (width-FitsAll rows),
  )

-- A column is added on the left.
add_column :
    {A : Type 0} (cell : A → String) (header : String) (cells : A → List String) (ws : List ℕ)
    (w : ℕ) (rows : List A)
    → All (λ r. len (cell r) ≤ w) rows
    → All (Fits ws) (map cells rows)
    → All (Fits (w ∷ ws)) (map (λ r. cell r ∷ cells r) rows)
unfolding Fits
add_column cell header cells ws w [] one more = tt
add_column cell header cells ws w (r ∷ rows) (one, ones) (more, mores) =
    ((one, more), add_column cell header cells ws w rows ones mores)

no_columns : {A : Type 0} (rows : List A) → All (Fits []) (map (λ r. []) rows)
unfolding Fits
no_columns [] = tt
no_columns (r ∷ rows) = (tt, no_columns rows)

column :
    {A : Type 0} (cell : A → String) (header : String) (cells : A → List String) (ws : List ℕ)
    (rows : List A)
    → All (Fits ws) (map cells rows)
    → All (Fits (width header (map cell rows) ∷ ws)) (map (λ r. cell r ∷ cells r) rows)
column cell header cells ws rows =
    add_column cell header cells ws (width header (map cell rows)) rows
      (width-FitsAll cell header rows)

length-table :
    (ws : List ℕ) (header : List String) (rows : List (List String))
    → length (table ws header rows) ≡ length rows + 4
length-table ws header [] = refl
length-table ws header (row ∷ rows) = omega (arith, length-table ws header rows)

results-Fits :
    (results : List RowResult) → All (Fits (result_widths results)) (map result_cells results)
results-Fits results =
    column (λ r. r.order_id) "order_id" _ _ results
      (column (λ r. r.status) "status" _ _ results
        (column (λ r. r.tx_hash) "tx_hash" (λ r. []) [] results (no_columns results)))

refunds-Fits :
    (refunds : List RefundRow) → All (Fits (refund_widths refunds)) (map refund_cells refunds)
refunds-Fits refunds =
    column (λ r. r.refund_id) "refund_id" _ _ refunds
      (column (λ r. r.status) "status" _ _ refunds
        (column (λ r. r.amount) "amount" _ _ refunds
          (column (λ r. r.reason) "reason" _ _ refunds
            (column (λ r. r.initiator) "initiator" (λ r. []) [] refunds (no_columns refunds)))))

result_header-Fits : (results : List RowResult) → Fits (result_widths results) result_header
unfolding Fits
result_header-Fits results = (
  width-header "order_id" (map (λ r. r.order_id) results),
  (
    width-header "status" (map (λ r. r.status) results),
    (width-header "tx_hash" (map (λ r. r.tx_hash) results), tt),
  ),
)

refund_header-Fits : (refunds : List RefundRow) → Fits (refund_widths refunds) refund_header
unfolding Fits
refund_header-Fits refunds = (
  width-header "refund_id" (map (λ r. r.refund_id) refunds),
  (
    width-header "status" (map (λ r. r.status) refunds),
    (
      width-header "amount" (map (λ r. r.amount) refunds),
      (
        width-header "reason" (map (λ r. r.reason) refunds),
        (width-header "initiator" (map (λ r. r.initiator) refunds), tt),
      ),
    ),
  ),
)

-- Both tables of the client, that of a batch and that of the refunds of an order, have a line for
-- each row and four more, and all lines of a table have the same number of characters.
pub tables-IsAligned :
    (results : List RowResult) (refunds : List RefundRow)
    → IsAligned (result_widths results) (print_results_table results)
      × (length (print_results_table results) ≡ length (map result_cells results) + 4)
      × IsAligned (refund_widths refunds) (refund_table refunds)
      × (length (refund_table refunds) ≡ length (map refund_cells refunds) + 4)
unfolding print_results_table refund_table
tables-IsAligned results refunds = (
  table-IsAligned (result_widths results) _ (map result_cells results) (result_header-Fits results)
      (results-Fits results),
  length-table (result_widths results) result_header (map result_cells results),
  table-IsAligned (refund_widths refunds) _ (map refund_cells refunds) (refund_header-Fits refunds)
      (refunds-Fits refunds),
  length-table (refund_widths refunds) refund_header (map refund_cells refunds),
)
