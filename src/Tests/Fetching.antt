-- ===== src/Tests/Fetching.antt =====
-- A server with two rates and two klines: its pages, the merge, and the whole fetch of rates.
use funding_tool.Prelude.{
  ℕ, ◌+◌, ◌*◌, ◌≡◌, refl, true, String, some, List, [], ◌∷◌, ◌++◌, take, map, arith,
}
use mathlib.Core.List.{append_assoc, append-nil}
use funding_tool.Errors.{ok}
use funding_tool.Decimal.{Decimal, from_nat, digits, is_positive}
use funding_tool.Time.{DateTime, from_ms}
use funding_tool.Time.Roundtrip.{to_ms-eq-div}
use funding_tool.Models.{FundingEvent, long, base}
use funding_tool.Backtest.{needs_size, size_missing}
use funding_tool.Backtest.Rows.{IsValid, AreModerate}
use funding_tool.Web.{returned, answered}
use funding_tool.Web.BacktestApi.{BacktestRequest, BacktestResponse, input_of, backtest}
use funding_tool.Web.BacktestApi.Fetched.{of_rate, rate_line, backtest-fetch_funding_rates}
use funding_tool.Paging.{fetch_pages}
use funding_tool.Paging.Complete.{window, Ascends, fetch_pages-window}
use funding_tool.Binance.{
  dict_get, dict_set, RateRow, KlineRow, IncomeItem, Api, cached_interval, get_interval,
  get_interval_hours,
}
use funding_tool.Binance.Rates.{
  merge_rows, merged_event, floor_lookup, within_tolerance, bisect_right, insert_time, add_klines,
  sorted_keys, mark_for, merge, fetch_funding_rates,
}
use funding_tool.Binance.Merge.{IsMark, mark_for-IsMark}
use funding_tool.Binance.FromEmpty.{IsHonest, rates_of, klines_of, fetch_funding_rates-empty}

abbrev pub at : ℕ → DateTime
at ms = record { us = ms * 1000; aware = true }

abbrev pub rates : List RateRow
rates =
    record { funding_time = 1767225600003; funding_rate = from_nat 1 }
    ∷ record { funding_time = 1767254400000; funding_rate = from_nat 2 }
    ∷ []

abbrev pub klines : List KlineRow
klines =
    record { open_time = 1767225600000; open_price = from_nat 60000 }
    ∷ record { open_time = 1767254400000; open_price = from_nat 50000 }
    ∷ []

abbrev pub item : String → ℕ → IncomeItem
item id ms = record { time = ms; symbol = some "BTCUSDT"; income = from_nat 1; tran_id = id }

-- The income request repeats a record.
abbrev pub api : Api
api = record {
  server_time = ok 1767312000000;
  exchange_info = ok [];
  funding_rate = λ s lo hi. ok (take 1000 (rates_of lo hi rates));
  mark_price_klines = λ s h lo hi. ok (take 1500 (klines_of lo hi klines));
  income =
      λ s lo hi. ok (item "2" 1767254400000 ∷ item "1" 1767225600000 ∷ item "2" 1767254400000 ∷ []);
}

rates-Ascends : Ascends (λ r. r.funding_time) rates
rates-Ascends = ((omega arith, tt), (tt, tt))

pub api-IsHonest : IsHonest api "BTCUSDT" 8 rates klines
api-IsHonest = record {
  rates_ascend = rates-Ascends;
  klines_ascend = ((omega arith, tt), (tt, tt));
  rates_answer = λ lo hi. refl;
  klines_answer = λ lo hi. refl;
}

abbrev pub same : Decimal → Decimal
same d = d

abbrev pub clock : ℕ → DateTime
clock i = at (1767312000000 + i)

-- The interval of the symbol stands in the cache.
pub knows : get_interval_hours api "BTCUSDT" (("BTCUSDT", 8) ∷ []) ≡ ok 8
unfolding get_interval_hours get_interval cached_interval
knows = refl

fetch_pages-window_example :
    fetch_pages
      (λ r. r.funding_time)
      1
      ◌++◌
      (λ lo hi. ok (take 1 (window (λ r. r.funding_time) lo hi rates)))
      []
      0
      1767254400000
    ≡ ok (window (λ r. r.funding_time) 0 1767254400000 rates)
fetch_pages-window_example =
    fetch_pages-window (λ r. r.funding_time) 0 ◌++◌
      (λ lo hi. ok (take 1 (window (λ r. r.funding_time) lo hi rates))) (λ a. append-nil a)
      (λ a xs ys. append_assoc a xs ys) rates rates-Ascends (λ lo hi. refl) [] 0 1767254400000

fetch_funding_rates-empty_example :
    (fetch_funding_rates same same api "BTCUSDT"
      (("BTCUSDT", 8) ∷ [])
      clock
      (at 1767225600000)
      (at 1767312000000)
      []).0
    ≡ merge "BTCUSDT"
        (rates_of 1767225600000 1767312000000 rates)
        (add_klines [] (klines_of 1767225600000 1767312000000 klines))
        8
fetch_funding_rates-empty_example =
    fetch_funding_rates-empty api-IsHonest (at 1767225600000) (at 1767312000000)
      (to_ms-eq-div 1767225600000000 (omega arith) (omega arith))
      (to_ms-eq-div 1767312000000000 (omega arith) (omega arith)) same same (λ d. refl) clock
      (λ i. refl) (omega arith) (omega arith) (("BTCUSDT", 8) ∷ []) knows

abbrev prices : List (ℕ × Decimal)
prices = (1767225600000, from_nat 60000) ∷ (1767254400000, from_nat 50000) ∷ []

mark_for-IsMark_example :
    IsMark prices 28800000 1767225600003
      (mark_for prices (sorted_keys prices) 28800000 1767225600003)
mark_for-IsMark_example = mark_for-IsMark prices 28800000 1767225600003

abbrev body : BacktestRequest
body = record {
  symbol = "BTCUSDT";
  side = long;
  start = at 1767225600000;
  end = at 1767312000000;
  size_mode = base;
  size = some (from_nat 1);
}

abbrev pub events : List FundingEvent
events =
    record {
      timestamp = from_ms 1767225600003;
      symbol = "BTCUSDT";
      rate = from_nat 1;
      mark_price = from_nat 60000;
      interval_hours = 8;
    }
    ∷ record {
      timestamp = from_ms 1767254400000;
      symbol = "BTCUSDT";
      rate = from_nat 2;
      mark_price = from_nat 50000;
      interval_hours = 8;
    }
    ∷ []

events_merged :
    merge "BTCUSDT"
      (rates_of 1767225600000 1767312000000 rates)
      (add_klines [] (klines_of 1767225600000 1767312000000 klines))
      8
    ≡ ok events
unfolding merge merge_rows merged_event mark_for floor_lookup within_tolerance bisect_right
    sorted_keys insert_time add_klines dict_get dict_set window
events_merged = refl

events-AreModerate : AreModerate body.size events
unfolding digits
events-AreModerate = (
  (omega arith, omega arith),
  (
    ((omega arith, omega arith), (omega arith, omega arith)),
    (((omega arith, omega arith), (omega arith, omega arith)), tt),
  ),
)

body-IsValid : IsValid (input_of body)
unfolding input_of needs_size size_missing is_positive
body-IsValid = record { aware = (refl, refl); ordered = omega arith; sized = λ h. refl }

backtest-fetch_funding_rates_example :
    (answer : BacktestResponse) × (backtest body (
        answered
          (fetch_funding_rates same same api "BTCUSDT"
            (("BTCUSDT", 8) ∷ [])
            clock
            (at 1767225600000)
            (at 1767312000000)
            []).0)
      ≡ returned answer)
    × (map rate_line answer.payments ≡ map of_rate (rates_of 1767225600000 1767312000000 rates))
backtest-fetch_funding_rates_example =
    backtest-fetch_funding_rates body api-IsHonest
      (to_ms-eq-div 1767225600000000 (omega arith) (omega arith))
      (to_ms-eq-div 1767312000000000 (omega arith) (omega arith)) same same (λ d. refl) clock
      (λ i. refl) (omega arith) (omega arith) (("BTCUSDT", 8) ∷ []) events knows events_merged
      ((omega arith, omega arith), ((omega arith, omega arith), tt)) events-AreModerate body-IsValid
      (omega arith)
