-- ===== src/History.antt =====
-- core/account.py: the funding history of an account, with its totals. `month_of` is the text that
-- strftime("%Y-%m") gives for an instant.
pub mod Totals
use funding_tool.Prelude.{Bool, not, ◌&&◌, ltb, str_eq, if◌then◌else◌, String, List, [], ◌∷◌}
use funding_tool.Errors.{Result, ok, err, validation_error, ◌>>=◌, ◌>>◌}
use funding_tool.Decimal.{Decimal, from_nat}
use funding_tool.Decimal
use funding_tool.Time.{DateTime}
use funding_tool.Models.{IncomeRecord, HistoryResult}

-- _validate
unfoldable pub validate_range : DateTime → DateTime → Result (Unit {0})
validate_range start end =
    if not (start.aware && end.aware)
    then err validation_error
    else if not (ltb start.us end.us)
    then err validation_error
    else ok tt

-- d[key] += amount, with Decimal("0") for a key that is not there
unfoldable pub add_to : String → Decimal → List (String × Decimal) → List (String × Decimal)
add_to key amount [] = (key, Decimal.add (from_nat 0) amount) ∷ []
add_to key amount ((k, x) ∷ d) =
    let rest = add_to key amount d in
    if str_eq k key then (k, Decimal.add x amount) ∷ d else (k, x) ∷ rest

-- The total, and the totals by symbol and by month.
pub record Sums : Type 0 where
  pub total : Decimal
  pub by_symbol : List (String × Decimal)
  pub by_month : List (String × Decimal)

abbrev pub no_sums : Sums
no_sums = record { total = from_nat 0; by_symbol = []; by_month = [] }

module _ (month_of : DateTime → String) where
  -- for r in records
  unfoldable pub sums : Sums → List IncomeRecord → Sums
  sums s [] = s
  sums s (r ∷ rs) =
      sums
        (record {
          total = Decimal.add s.total r.amount_usdt;
          by_symbol = add_to r.symbol r.amount_usdt s.by_symbol;
          by_month = add_to (month_of r.timestamp) r.amount_usdt s.by_month;
        })
        rs

  -- `fetch` is exchange.fetch_funding_income at the arguments.
  unfoldable pub run_account_history :
      DateTime → DateTime → Result (List IncomeRecord) → Result HistoryResult
  run_account_history start end fetch =
      validate_range start end
      >> (fetch >>= λ records.
          let s = sums no_sums records in
          ok (record {
            start = start;
            end = end;
            records = records;
            total = s.total;
            by_symbol = s.by_symbol;
            by_month = s.by_month;
          }))
