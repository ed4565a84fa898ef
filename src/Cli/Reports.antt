-- ===== src/Cli/Reports.antt =====
-- The ends of cli/backtest_cmd.py and cli/history_cmd.py: what the two commands write, with
-- cli/output.py. The texts of the tables are lists of code points. `opens` is what path.open raises, if
-- it does; a file that is open is written in full.
pub mod Agree
use funding_tool.Prelude.{
  ℕ, Bool, true, false, String, Option, none, some, List, [], ◌∷◌, ◌++◌, length,
}
use funding_tool.Errors.{Result, ok, err, ◌>>=◌}
use funding_tool.Decimal.{Decimal}
use funding_tool.Time.{DateTime}
use funding_tool.Models.{BacktestResult, HistoryResult}
use funding_tool.Accounts.Resolve.{given, text_of}
use funding_tool.Cli.Output.{backtest_csv, history_csv}
use funding_tool.Cli.Tables.{Printed, print_backtest_table, print_history_table}
use funding_tool.Cli.Json.{Json, format_backtest_json, format_history_json}

-- The rows of a CSV file, its note on the standard output, a JSON text with the end of its line there,
-- the name of the account, or tables.
pub data Written : Type 0 where
  csv_file : String → List (List String) → Written
  wrote_rows : ℕ → String → Written
  json_out : Json → Written
  account_line : String → String → Written
  tables : List Printed → Written

-- if csv_path is not None: the file, and the note of its rows
unfoldable pub csv_part :
    {A : Type 0}
    → (String → Result (Unit {0}))
    → Option String
    → List (List String)
    → List A
    → Result (List Written)
csv_part opens none rows xs = ok []
csv_part opens (some path) rows xs =
    opens path >>= λ u. ok (csv_file path rows ∷ wrote_rows (length xs) path ∷ [])

-- if account: the line of the account
unfoldable pub account_part : Option String → String → List Written
account_part account exchange = elim (given account) [
  | true ↦ account_line (text_of account) exchange ∷ []
  | false ↦ []
]

-- What is written in front of the rest, and the rest, unless one of them fails.
unfoldable pub finished :
    Result (List Written) → Result (List Written) → Result (Unit {0}) × List Written
finished (err e) rest = (err e, [])
finished (ok ws) (ok rest) = (ok tt, ws ++ rest)
finished (ok ws) (err e) = (err e, ws)

module _ (iso : DateTime → String) (str : Decimal → String) (date minute : DateTime → List ℕ)
    (text : Option Decimal → List ℕ) (opens : String → Result (Unit {0})) where
  unfoldable pub backtest_part : Bool → Bool → BacktestResult → Result (List Written)
  backtest_part true detail res = format_backtest_json iso str res >>= λ j. ok (json_out j ∷ [])
  backtest_part false detail res =
      print_backtest_table date minute text res detail >>= λ ps. ok (tables ps ∷ [])

  -- What backtest_command writes of its result.
  unfoldable pub backtest_written :
      Option String → Bool → Bool → BacktestResult → Result (Unit {0}) × List Written
  backtest_written csv_path json detail res =
      finished (csv_part opens csv_path (backtest_csv iso str res) res.payments)
        (backtest_part json detail res)

  unfoldable pub history_part :
      Bool → Option String → String → Bool → Bool → Bool → HistoryResult → Result (List Written)
  history_part true account exchange by_symbol by_month detail res =
      format_history_json iso str res >>= λ j. ok (json_out j ∷ [])
  history_part false account exchange by_symbol by_month detail res = ok (
      account_part account exchange
      ++ tables (print_history_table date minute text res by_symbol by_month detail) ∷ [])

  -- What history_command writes of its result.
  unfoldable pub history_written :
      Option String
      → Bool
      → Option String
      → String
      → Bool
      → Bool
      → Bool
      → HistoryResult
      → Result (Unit {0}) × List Written
  history_written csv_path json account exchange by_symbol by_month detail res =
      finished (csv_part opens csv_path (history_csv iso str res) res.records)
        (history_part json account exchange by_symbol by_month detail res)
