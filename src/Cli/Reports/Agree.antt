-- ===== src/Cli/Reports/Agree.antt =====
-- The JSON of a result against the rows of its CSV file.
use funding_tool.Prelude.{
  ℕ, ◌≡◌, ◌⊎◌, inl, inr, refl, Bool, true, String, Option, some, List, [], ◌∷◌, map, length,
  length-map,
}
use funding_tool.Errors.{Error, Result, ok, err, Result-cases}
use funding_tool.Decimal.{Decimal}
use funding_tool.Time.{DateTime}
use funding_tool.Models.{BacktestResult, HistoryResult}
use funding_tool.Cli.Output.{payment_row, backtest_csv, record_row, history_csv}
use funding_tool.Cli.Json.{Json}
use funding_tool.Cli.Json.Rows.{
  at_key, array_rows, payment_cells, record_cells, format_backtest_json-rows,
  format_history_json-rows,
}
use funding_tool.Cli.Reports.{
  csv_file, wrote_rows, json_out, csv_part, finished, backtest_part, backtest_written, history_part,
  history_written,
}

abbrev pub payment_header : List String
payment_header =
    "timestamp" ∷ "symbol" ∷ "rate" ∷ "mark_price" ∷ "quantity_base" ∷ "notional_quote"
    ∷ "payment_quote" ∷ []

abbrev pub record_header : List String
record_header = "timestamp" ∷ "symbol" ∷ "amount_usdt" ∷ "tran_id" ∷ []

module _ (iso : DateTime → String) (str : Decimal → String) (date minute : DateTime → List ℕ)
    (text : Option Decimal → List ℕ) (opens : String → Result (Unit {0})) (path : String) where
  -- With a path for CSV and with JSON asked for: if the file cannot be opened, both commands end with
  -- the exception and write nothing; and if it can, they end without an error, whatever the result, and
  -- write a file with a row for the header and one for each payment, or record, a note
  -- of their number, and a JSON text; the rows are those that are read from the JSON text, key by
  -- key.
  pub written-agrees :
      (res : BacktestResult) (history : HistoryResult) (detail : Bool) (account : Option String)
      (exchange : String) (by_symbol by_month : Bool)
      → let (ended, written) =
          backtest_written iso str date minute text opens (some path) true detail res in
        let (ended_h, written_h) =
          history_written iso str date minute text opens
            (some path)
            true
            account
            exchange
            by_symbol
            by_month
            detail
            history in
        ((x : Error) × (opens path ≡ err x)
          × ((ended ≡ err x) × (written ≡ []))
          × ((ended_h ≡ err x) × (written_h ≡ [])))
        ⊎ ((opens path ≡ ok tt)
            × ((j : Json) × (rows : List (List String)) × (ended ≡ ok tt)
                × (written
                    ≡ csv_file path (payment_header ∷ rows)
                      ∷ wrote_rows (length res.payments) path
                      ∷ json_out j
                      ∷ [])
                × (array_rows payment_cells (at_key "payments" (some j)) ≡ some rows)
                × (length rows ≡ length res.payments))
            × ((j : Json) × (rows : List (List String)) × (ended_h ≡ ok tt)
                × (written_h
                    ≡ csv_file path (record_header ∷ rows)
                      ∷ wrote_rows (length history.records) path
                      ∷ json_out j
                      ∷ [])
                × (array_rows record_cells (at_key "records" (some j)) ≡ some rows)
                × (length rows ≡ length history.records)))
  unfolding backtest_written backtest_part history_written history_part finished csv_part
      backtest_csv history_csv
  written-agrees res history detail account exchange by_symbol by_month =
      let (j, made, read) = format_backtest_json-rows iso str res in
      let (h, h_made, h_read) = format_history_json-rows iso str history in
      elim (Result-cases (opens path)) [
        | inr (x, failed) ↦
            inl (x, failed, (rw failed refl, rw failed refl), (rw failed refl, rw failed refl))
        | inl (u, opened) ↦ inr (
          opened,
          (
            j,
            map (payment_row iso str) res.payments,
            rw (made, opened) refl,
            rw (made, opened) refl,
            read,
            length-map res.payments _,
          ),
          (
            h,
            map (record_row iso str) history.records,
            rw (h_made, opened) refl,
            rw (h_made, opened) refl,
            h_read,
            length-map history.records _,
          ),
        )
      ]
