-- ===== src/Cli/Output.antt =====
-- cli/output.py: the rows that go to the CSV files, in front of the writer's quoting. `iso` is
-- isoformat of a datetime, and `str` the text of a decimal.
use funding_tool.Prelude.{String, List, [], ◌∷◌, map}
use funding_tool.Decimal.{Decimal}
use funding_tool.Time.{DateTime}
use funding_tool.Models.{FundingPayment, BacktestResult, IncomeRecord, HistoryResult}

module _ (iso : DateTime → String) (str : Decimal → String) where
  unfoldable pub payment_row : FundingPayment → List String
  payment_row p =
      iso p.event.timestamp
      ∷ p.event.symbol
      ∷ str p.event.rate
      ∷ str p.event.mark_price
      ∷ str p.quantity_base
      ∷ str p.notional_quote
      ∷ str p.payment_quote
      ∷ []

  -- write_backtest_csv
  unfoldable pub backtest_csv : BacktestResult → List (List String)
  backtest_csv res =
      ("timestamp" ∷ "symbol" ∷ "rate" ∷ "mark_price" ∷ "quantity_base" ∷ "notional_quote"
        ∷ "payment_quote" ∷ [])
      ∷ map payment_row res.payments

  unfoldable pub record_row : IncomeRecord → List String
  record_row r = iso r.timestamp ∷ r.symbol ∷ str r.amount_usdt ∷ r.tran_id ∷ []

  -- write_history_csv
  unfoldable pub history_csv : HistoryResult → List (List String)
  history_csv res =
      ("timestamp" ∷ "symbol" ∷ "amount_usdt" ∷ "tran_id" ∷ []) ∷ map record_row res.records
