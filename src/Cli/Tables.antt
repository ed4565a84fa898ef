-- ===== src/Cli/Tables.antt =====
-- cli/output.py: what print_backtest_table and print_history_table put on the console, as lines and
-- tables of texts of code points, without the markup of rich. `date` is d.date(), `minute` is
-- strftime("%Y-%m-%d %H:%M"), and `str` the text of a decimal.
pub mod Descending
pub mod Amounts
pub mod Summary
use funding_tool.Prelude.{
  ℕ, ◌+◌, ◌-◌, ◌*◌, ◌/◌, Bool, true, false, not, ◌&&◌, leb, ltb, ◌==◌, text_le, if◌then◌else◌,
  String, Option, none, some, List, [], ◌∷◌, ◌++◌, map, length,
}
use funding_tool.Prelude.Int.{min_ℤ}
use funding_tool.Errors.{Result, ok, err, type_error, ◌>>=◌}
use funding_tool.Text.{codes, str_of}
use funding_tool.Decimal.{Decimal, aligned, fix, mul, from_nat}
use funding_tool.Decimal.Format.{fixed, signed_fixed}
use funding_tool.Models.{
  FundingPayment, Side, long, short, SizeMode, base, quote, rate_only, BacktestResult, IncomeRecord,
  HistoryResult,
}
use funding_tool.Time.{DateTime}

-- A line, or a table with its title, its columns and its rows.
pub data Printed : Type 0 where
  line : List ℕ → Printed
  table : Option (List ℕ) → List (List ℕ) → List (List (List ℕ)) → Printed

-- -d
unfoldable pub negated : Decimal → Decimal
negated d =
    fix (record { neg = if d.coeff == 0 then false else not d.neg; coeff = d.coeff; exp = d.exp })

-- a <= b of two decimals
unfoldable pub signed_le : Bool → ℕ → Bool → ℕ → Bool
signed_le true x true y = leb y x
signed_le true x false y = true
signed_le false x true y = x == 0 && y == 0
signed_le false x false y = leb x y

unfoldable pub decimal_le : Decimal → Decimal → Bool
decimal_le a b = let e = min_ℤ a.exp b.exp in signed_le a.neg (aligned a e) b.neg (aligned b e)

-- sorted(d.items(), key=...), which is stable: `first` compares the keys of two items.
abbrev pub Item : Type 0
Item = String × Decimal

unfoldable pub insert_item : (Item → Item → Bool) → Item → List Item → List Item
insert_item first x [] = x ∷ []
insert_item first x (y ∷ ys) =
    let rest = insert_item first x ys in if first x y then x ∷ y ∷ ys else y ∷ rest

unfoldable pub sorted_items : (Item → Item → Bool) → List Item → List Item
sorted_items first [] = []
sorted_items first (x ∷ xs) = insert_item first x (sorted_items first xs)

-- key=lambda kv: -kv[1]
unfoldable pub larger_first : Item → Item → Bool
larger_first x y = decimal_le (negated x.1) (negated y.1)

-- By the name; the names of one dictionary differ.
unfoldable pub name_first : Item → Item → Bool
name_first x y = text_le x.0 y.0

unfoldable pub amount_row : Item → List (List ℕ)
amount_row (name, amount) = codes name ∷ signed_fixed 4 amount ∷ []

-- (end - start).days
unfoldable pub days : DateTime → DateTime → ℕ
days start end = (end.us - start.us) / 86400000000

abbrev pub percent : Decimal → Decimal
percent d = mul d (from_nat 100)

unfoldable pub side_text : Side → List ℕ
side_text long = codes "LONG"
side_text short = codes "SHORT"

unfoldable pub mode_text : SizeMode → List ℕ
mode_text base = codes "BASE"
mode_text quote = codes "QUOTE"
mode_text rate_only = codes "RATE_ONLY"

-- A number that is formatted with places; for None this is a TypeError.
unfoldable pub formatted : ℕ → Option Decimal → Result (List ℕ)
formatted places none = err type_error
formatted places (some d) = ok (signed_fixed places d)

-- The rows of the two totals, if there is one in the quote currency.
unfoldable pub total_rows : Option Decimal → Option Decimal → Result (List (List (List ℕ)))
total_rows none base_total = ok []
total_rows (some d) base_total = formatted 8 base_total >>= λ base_text. ok (
    (codes "Total income (USDT)" ∷ signed_fixed 4 d ∷ [])
    ∷ (codes "Total income (base)" ∷ base_text ∷ [])
    ∷ [])

-- if detail and xs, or a flag and its dictionary
unfoldable pub shown_if {ℓ} : {A : Type ℓ} → Bool → List A → Printed → List Printed
shown_if flag [] p = []
shown_if flag (x ∷ xs) p = if flag then p ∷ [] else []

module _ (date minute : DateTime → List ℕ) (str : Option Decimal → List ℕ) where
  unfoldable pub range_text : DateTime → DateTime → List ℕ
  range_text start end =
      (date start ++ codes " → ")
      ++ ((date end ++ codes " (") ++ (str_of (days start end) ++ codes " days)"))

  unfoldable pub size_line : SizeMode → Option Decimal → List ℕ
  size_line rate_only size = codes "Size:    RATE_ONLY (no notional)"
  size_line base size = (codes "Size:    " ++ str size) ++ codes " (BASE mode)"
  size_line quote size = (codes "Size:    " ++ str size) ++ codes " (QUOTE mode)"

  unfoldable pub payment_line : FundingPayment → List (List ℕ)
  payment_line p =
      minute p.event.timestamp
      ∷ (signed_fixed 4 (percent p.event.rate) ++ codes "%")
      ∷ fixed 2 p.event.mark_price
      ∷ signed_fixed 4 p.payment_quote
      ∷ []

  unfoldable pub summary_rows : BacktestResult → List (List (List ℕ)) → List (List (List ℕ))
  summary_rows res totals =
      totals
      ++ (codes "Cumulative rate" ∷ (signed_fixed 4 res.cumulative_rate_pct ++ codes "%") ∷ [])
        ∷ (codes "APR (annualized)" ∷ (signed_fixed 4 (percent res.apr) ++ codes "%") ∷ [])
        ∷ (codes "Settlements" ∷ str_of res.event_count ∷ [])
        ∷ (codes "Average rate" ∷ (signed_fixed 6 (percent res.avg_rate) ++ codes "%") ∷ [])
        ∷ []

  -- What print_backtest_table prints, with the rows of the totals.
  unfoldable pub backtest_items : BacktestResult → Bool → List (List (List ℕ)) → List Printed
  backtest_items res detail totals =
      line (
        (codes "Backtest " ++ codes res.input.symbol)
        ++ ((codes " " ++ side_text res.input.side)
            ++ (codes "  " ++ range_text res.input.start res.input.end)))
      ∷ line (size_line res.input.size_mode res.input.size)
      ∷ table none [] (summary_rows res totals)
      ∷ shown_if detail res.payments (
          table none (codes "Time (UTC)" ∷ codes "Rate" ∷ codes "Mark Price" ∷ codes "Payment" ∷ [])
            (map payment_line res.payments))

  unfoldable pub print_backtest_table : BacktestResult → Bool → Result (List Printed)
  print_backtest_table res detail =
      total_rows res.total_quote res.total_base >>= λ totals. ok (backtest_items res detail totals)

  unfoldable pub record_line : IncomeRecord → List (List ℕ)
  record_line r =
      minute r.timestamp ∷ codes r.symbol ∷ signed_fixed 4 r.amount_usdt ∷ codes r.tran_id ∷ []

  unfoldable pub symbol_table : HistoryResult → Printed
  symbol_table res =
      table (some (codes "By symbol")) (codes "Symbol" ∷ codes "Amount" ∷ [])
        (map amount_row (sorted_items larger_first res.by_symbol))

  unfoldable pub month_table : HistoryResult → Printed
  month_table res =
      table (some (codes "By month")) (codes "Month" ∷ codes "Amount" ∷ [])
        (map amount_row (sorted_items name_first res.by_month))

  unfoldable pub print_history_table : HistoryResult → Bool → Bool → Bool → List Printed
  print_history_table res by_symbol by_month detail =
      (line (codes "Range:   " ++ range_text res.start res.end)
        ∷ line []
        ∷ line (codes "Total funding P&L:   " ++ (signed_fixed 4 res.total ++ codes " USDT"))
        ∷ line (codes "Settlements:         " ++ str_of (length res.records))
        ∷ shown_if by_symbol res.by_symbol (symbol_table res))
      ++ (shown_if by_month res.by_month (month_table res)
          ++ shown_if detail res.records (
              table none
                (codes "Time (UTC)" ∷ codes "Symbol" ∷ codes "Amount" ∷ codes "Tran ID" ∷ [])
                (map record_line res.records)))
