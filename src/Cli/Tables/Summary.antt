-- ===== src/Cli/Tables/Summary.antt =====
-- The summary of a backtest: the totals that it formats are there.
use mathlib.Core.List.{Mem, mem-cons_self, mem-cons_of_mem}
use funding_tool.Prelude.{
  ℕ, ◌+◌, ◌≡◌, refl, ◌∙◌, Bool, if◌then◌else◌, Option, none, some, List, [], ◌∷◌, map, length,
  length-append, arith,
}
use funding_tool.Errors.{Result, ok, Ensures, Ensures-bind, Ensures-then, Ensures-ok}
use funding_tool.Time.{DateTime}
use funding_tool.Decimal.{Decimal, div, from_nat}
use funding_tool.Decimal.Format.{signed_fixed}
use funding_tool.Text.{codes}
use funding_tool.Models.{
  FundingEvent, FundingPayment, SizeMode, base, quote, rate_only, BacktestInput, BacktestResult,
}
use funding_tool.Backtest.{
  needs_size, validate, payments_for, average, signed_rate, totals, base_amounts, elapsed_seconds,
  apr_for, summarise, run_backtest,
}
use funding_tool.Cli.Tables.{
  Printed, table, total_rows, formatted, summary_rows, backtest_items, print_backtest_table,
}

-- Both totals, or none of the two.
abbrev ArePaired : SizeMode → Option Decimal → Option Decimal → Type 0
ArePaired rate_only q b = (q ≡ none) × (b ≡ none)
ArePaired base q b = ((x : Decimal) × (q ≡ some x)) × ((y : Decimal) × (b ≡ some y))
ArePaired quote q b = ((x : Decimal) × (q ≡ some x)) × ((y : Decimal) × (b ≡ some y))

totals-ArePaired :
    (mode : SizeMode) (ps : List FundingPayment)
    → Ensures (λ ts. ArePaired mode ts.0 ts.1) (totals mode ps)
unfolding totals
totals-ArePaired rate_only ps = (refl, refl)
totals-ArePaired base ps =
    Ensures-bind (λ ts. ArePaired base ts.0 ts.1) (base_amounts ps) _ (λ xs. ((_, refl), (_, refl)))
totals-ArePaired quote ps =
    Ensures-bind (λ ts. ArePaired quote ts.0 ts.1) (base_amounts ps) _
      (λ xs. ((_, refl), (_, refl)))

abbrev Fits : BacktestInput → BacktestResult → Type 0
Fits inp r = ArePaired inp.size_mode r.total_quote r.total_base

summarise-Fits :
    (inp : BacktestInput) (ps : List FundingPayment) → Ensures (Fits inp) (summarise inp ps)
unfolding summarise
summarise-Fits inp ps =
    Ensures-bind (Fits inp) (average (map (signed_rate inp.side) ps)) _ λ avg_rate.
      Ensures-then (λ ts. ArePaired inp.size_mode ts.0 ts.1) (Fits inp) (totals inp.size_mode ps) _
        (totals-ArePaired inp.size_mode ps)
        λ ts paired.
          Ensures-bind (Fits inp) (div (elapsed_seconds inp.start inp.end) (from_nat 31557600)) _
            λ years.
              Ensures-bind (Fits inp) (apr_for inp.size_mode inp.size ps avg_rate ts.0 years) _
                λ apr. paired

run_backtest-Fits :
    (inp : BacktestInput) (fetch : Result (List FundingEvent))
    → Ensures (Fits inp) (run_backtest inp fetch)
unfolding run_backtest
run_backtest-Fits inp fetch = Ensures-bind (Fits inp) (validate inp) _ λ u.
    Ensures-bind (Fits inp) fetch _
      λ events. Ensures-bind (Fits inp) (payments_for inp events) _ λ ps. summarise-Fits inp ps

-- The rows of two totals.
abbrev both_rows : Decimal → Decimal → List (List (List ℕ))
both_rows x y =
    (codes "Total income (USDT)" ∷ signed_fixed 4 x ∷ [])
    ∷ (codes "Total income (base)" ∷ signed_fixed 8 y ∷ [])
    ∷ []

total_rows-ArePaired :
    (mode : SizeMode) (q b : Option Decimal)
    → ArePaired mode q b
    → (rows : List (List (List ℕ))) × (total_rows q b ≡ ok rows)
      × (length rows ≡ (if needs_size mode then 2 else 0))
unfolding total_rows formatted needs_size
total_rows-ArePaired rate_only q b (e, f) = ([], rw e refl, refl)
total_rows-ArePaired base q b ((x, e), (y, f)) = (both_rows x y, rw (e, f) refl, refl)
total_rows-ArePaired quote q b ((x, e), (y, f)) = (both_rows x y, rw (e, f) refl, refl)

six_or_four :
    (mode : SizeMode) (n : ℕ)
    → n ≡ (if needs_size mode then 2 else 0)
    → n + 4 ≡ (if needs_size mode then 6 else 4)
six_or_four mode n e = ground arith

module _ (date minute : DateTime → List ℕ) (str : Option Decimal → List ℕ) where
  -- The table of a backtest that has a result is printed without an error, and its summary has six
  -- rows, or the four without the totals for a backtest of rates only.
  pub print_backtest_table-run_backtest :
      (inp : BacktestInput) (fetch : Result (List FundingEvent)) (res : BacktestResult)
      (detail : Bool)
      → run_backtest inp fetch ≡ ok res
      → (printed : List Printed) × (rows : List (List (List ℕ))) × (print_backtest_table date minute
            str res detail
          ≡ ok printed)
        × Mem (table none [] rows) printed
        × (length rows ≡ (if needs_size inp.size_mode then 6 else 4))
  unfolding print_backtest_table backtest_items summary_rows
  print_backtest_table-run_backtest inp fetch res detail e =
      let fits = Ensures-ok (Fits inp) (run_backtest inp fetch) (run_backtest-Fits inp fetch) e in
      let (rows, made, count) =
        total_rows-ArePaired inp.size_mode res.total_quote res.total_base fits in
      (
        backtest_items date minute str res detail rows,
        summary_rows date minute str res rows,
        rw made refl,
        mem-cons_of_mem _ (mem-cons_of_mem _ mem-cons_self),
        length-append rows _ ∙ six_or_four inp.size_mode (length rows) count,
      )
