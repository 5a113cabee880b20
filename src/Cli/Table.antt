-- ===== src/Cli/Table.antt =====
-- cli/lumenflow-cli/src/main.rs: the tables that `print_results_table` and the command `Refund List`
-- print. A width is the length in bytes of the widest cell of its column, the header included; the
-- padding counts characters.
use lumenflow_contracts.Base.Texts.{pad, repeat, text_append}
use Prim.Native.Nat.{max}
use lumenflow_contracts.Base.{List, String, [], len, map, nat_eq, string_eq, ℕ, ◌++◌, ◌∷◌}
use lumenflow_contracts.Base.Texts.{pad, repeat, text_append}
use lumenflow_contracts.Cli.Submission.{RowResult}

-- `.map(|r| ..len()).max().unwrap_or(0).max("header".len())`
abbrev pub width : String → List String → ℕ
width header [] = len header
width header (cell ∷ cells) = max (len cell) (width header cells)

-- `+-{}-+-{}-+` with as many dashes as each column is wide.
abbrev pub more_dashes : List ℕ → String
more_dashes [] = "-+"
more_dashes (w ∷ ws) = text_append "-+-" (text_append (repeat "-" w) (more_dashes ws))

abbrev pub separator : List ℕ → String
separator [] = ""
separator (w ∷ ws) = text_append "+-" (text_append (repeat "-" w) (more_dashes ws))

-- `| {:<w$} | {:<w$} |`
abbrev pub more_cells : List ℕ → List String → String
more_cells (w ∷ ws) (cell ∷ cells) =
    text_append " | " (text_append (pad w cell) (more_cells ws cells))
more_cells _ _ = " |"

abbrev pub line : List ℕ → List String → String
line (w ∷ ws) (cell ∷ cells) = text_append "| " (text_append (pad w cell) (more_cells ws cells))
line _ _ = ""

-- The lines of a table.
abbrev pub table : List ℕ → List String → List (List String) → List String
table ws header rows =
    (separator ws ∷ line ws header ∷ separator ws ∷ [])
    ++ (map (line ws) rows ++ (separator ws ∷ []))

abbrev pub result_header : List String
result_header = "order_id" ∷ "status" ∷ "tx_hash" ∷ []

abbrev pub result_cells : RowResult → List String
result_cells r = r.order_id ∷ r.status ∷ r.tx_hash ∷ []

abbrev pub result_widths : List RowResult → List ℕ
result_widths results =
    width "order_id" (map (λ r. r.order_id) results)
    ∷ width "status" (map (λ r. r.status) results)
    ∷ width "tx_hash" (map (λ r. r.tx_hash) results)
    ∷ []

unfoldable pub print_results_table : List RowResult → List String
print_results_table results = table (result_widths results) result_header (map result_cells results)

-- A refund as the JSON of the contract's answer has it: `as_str().unwrap_or("-")` of four fields and
-- `to_string()` of the amount.
pub record RefundRow : Type 0 where
  pub refund_id : String
  pub status : String
  pub amount : String
  pub reason : String
  pub initiator : String

abbrev pub refund_header : List String
refund_header = "refund_id" ∷ "status" ∷ "amount" ∷ "reason" ∷ "initiator" ∷ []

abbrev pub refund_cells : RefundRow → List String
refund_cells r = r.refund_id ∷ r.status ∷ r.amount ∷ r.reason ∷ r.initiator ∷ []

abbrev pub refund_widths : List RefundRow → List ℕ
refund_widths refunds =
    width "refund_id" (map (λ r. r.refund_id) refunds)
    ∷ width "status" (map (λ r. r.status) refunds)
    ∷ width "amount" (map (λ r. r.amount) refunds)
    ∷ width "reason" (map (λ r. r.reason) refunds)
    ∷ width "initiator" (map (λ r. r.initiator) refunds)
    ∷ []

unfoldable pub refund_table : List RefundRow → List String
refund_table refunds = table (refund_widths refunds) refund_header (map refund_cells refunds)
