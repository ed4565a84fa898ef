-- ===== src/Tests/Rates.antt =====
-- Backtests of two funding events, and conversions of instants.
use funding_tool.Prelude.{ℕ, ◌*◌, ◌≡◌, refl, true, false, some, List, [], ◌∷◌, All, arith}
use funding_tool.Prelude.Int.{negsuc}
use funding_tool.Errors.{ok, Both}
use funding_tool.Decimal.{Decimal, from_nat, digits, is_positive}
use funding_tool.Time.{DateTime}
use funding_tool.Models.{FundingEvent, long, short, base, BacktestInput, BacktestResult}
use funding_tool.Backtest.{run_backtest, needs_size, size_missing}
use funding_tool.Backtest.Rows.{IsValid, IsUsable, AreModerate}
use funding_tool.Backtest.Sides.{MirroredResult, with_side}
use funding_tool.Backtest.Sides.Figures.{run_backtest_sides}
use funding_tool.Backtest.Totality.{Covers, run_backtest-Covers}

abbrev pub at : ℕ → DateTime
at ms = record { us = ms * 1000; aware = true }

-- 0.0001
abbrev pub basis_point : Decimal
basis_point = record { neg = false; coeff = 1; exp = negsuc 3 }

abbrev pub first_event : FundingEvent
first_event = record {
  timestamp = at 1767225600000;
  symbol = "BTCUSDT";
  rate = basis_point;
  mark_price = from_nat 60000;
  interval_hours = 8;
}

abbrev second_event : FundingEvent
second_event = record first_event { timestamp = at 1767254400000; mark_price = from_nat 50000 }

abbrev pub two_events : List FundingEvent
two_events = first_event ∷ second_event ∷ []

abbrev pub one_coin : BacktestInput
one_coin = record {
  symbol = "BTCUSDT";
  side = long;
  start = at 1767225600000;
  end = at 1767312000000;
  size_mode = base;
  size = some (from_nat 1);
}

pub two_events-IsUsable : All IsUsable two_events
two_events-IsUsable = ((omega arith, omega arith), ((omega arith, omega arith), tt))

pub two_events-AreModerate : AreModerate (some (from_nat 1)) two_events
unfolding digits
two_events-AreModerate = (
  (omega arith, omega arith),
  (
    ((omega arith, omega arith), (omega arith, omega arith)),
    (((omega arith, omega arith), (omega arith, omega arith)), tt),
  ),
)

pub one_coin-IsValid : IsValid one_coin
unfolding needs_size size_missing is_positive
one_coin-IsValid = record { aware = (refl, refl); ordered = omega arith; sized = λ h. refl }

run_backtest_sides_example :
    Both MirroredResult
      (run_backtest (with_side one_coin long) (ok two_events))
      (run_backtest (with_side one_coin short) (ok two_events))
run_backtest_sides_example = run_backtest_sides one_coin (ok two_events)

run_backtest-Covers_example :
    (r : BacktestResult) × (run_backtest one_coin (ok two_events) ≡ ok r)
    × Covers one_coin two_events r
run_backtest-Covers_example =
    run_backtest-Covers one_coin two_events one_coin-IsValid two_events-IsUsable
      two_events-AreModerate
