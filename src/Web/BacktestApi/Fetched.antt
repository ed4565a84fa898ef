-- ===== src/Web/BacktestApi/Fetched.antt =====
-- A backtest over the web, down to the server of the exchange: the handler, the service, the pages and
-- the cache, which is empty before.
use funding_tool.Prelude.{
  ℕ, ◌+◌, ◌*◌, ◌≤◌, ◌<◌, ◌≡◌, sym, ap, ap₂, ◌∙◌, true, String, Option, none, some, List, [], ◌∷◌,
  map, All,
}
use mathlib.Core.List.{map-map}
use funding_tool.Errors.{ok, cons-eq-ok}
use funding_tool.Decimal.{Decimal}
use funding_tool.Time.{DateTime, to_ms, from_ms}
use funding_tool.Models.{FundingEvent}
use funding_tool.Backtest.Rows.{IsValid, IsUsable, AreModerate}
use funding_tool.Binance.{RateRow, KlineRow, Api, get_interval_hours}
use funding_tool.Binance.Rates.{
  add_klines, mark_for, merged_event, merge_rows, merge, fetch_funding_rates,
}
use funding_tool.Binance.FromEmpty.{IsHonest, rates_of, klines_of, fetch_funding_rates-empty}
use funding_tool.Web.{returned, answered}
use funding_tool.Web.Ranges.{days_us}
use funding_tool.Web.BacktestApi.{
  BacktestRequest, FundingPaymentOut, BacktestResponse, input_of, to_backtest_response, backtest,
}
use funding_tool.Web.BacktestApi.Responses.{of_event, of_line, backtest-returned}

-- The time and the rate of a settlement, at the server, in an event, and in a line of the answer.
abbrev pub of_rate : RateRow → DateTime × Decimal
of_rate r = (from_ms r.funding_time, r.funding_rate)

abbrev rate_event : FundingEvent → DateTime × Decimal
rate_event e = (e.timestamp, e.rate)

abbrev pub rate_line : FundingPaymentOut → DateTime × Decimal
rate_line p = (p.timestamp, p.rate)

merged_event-rate :
    (symbol : String) (h : ℕ) (r : RateRow) (mark : Option Decimal) (ev : FundingEvent)
    → merged_event symbol h r mark ≡ ok ev
    → rate_event ev ≡ of_rate r
unfolding merged_event
merged_event-rate symbol h r none ev e = cc
merged_event-rate symbol h r (some p) ev e = cc

merge_rows-rates :
    (symbol : String) (rs : List RateRow) (klines : List (ℕ × Decimal)) (times : List ℕ) (h : ℕ)
    (evs : List FundingEvent)
    → merge_rows symbol rs klines times h ≡ ok evs
    → map rate_event evs ≡ map of_rate rs
unfolding merge_rows
merge_rows-rates symbol [] klines times h evs e = ap (map rate_event) {y = []} cc
merge_rows-rates symbol (r ∷ rs) klines times h evs e =
    let (ev, evs', one, rest, same) =
      cons-eq-ok (merged_event symbol h r (mark_for klines times (h * 3600000) r.funding_time))
        (merge_rows symbol rs klines times h) e in
    ap (map rate_event) same
    ∙ ap₂ ◌∷◌ (merged_event-rate symbol h r _ ev one)
        (merge_rows-rates symbol rs klines times h evs' rest)

abbrev pair : DateTime × Decimal × Decimal → DateTime × Decimal
pair t = (t.0, t.1)

-- The lines of an answer that repeats the events.
rates_of_lines :
    (ps : List FundingPaymentOut) (evs : List FundingEvent)
    → map of_line ps ≡ map of_event evs
    → map rate_line ps ≡ map rate_event evs
rates_of_lines ps evs e =
    sym (map-map pair of_line ps) ∙ ap (map pair) e ∙ map-map pair of_event evs

module _ {api : Api} {h : ℕ} {rates : List RateRow} {klines : List KlineRow}
    (body : BacktestRequest) (honest : IsHonest api body.symbol h rates klines) {lo hi : ℕ}
    (from : to_ms body.start ≡ ok lo) (to : to_ms body.end ≡ ok hi) {Text : Type 0}
    (str : Decimal → Text) (decimal : Text → Decimal) (exact : (d : Decimal) → decimal (str d) ≡ d)
    (clock : ℕ → DateTime) (clock_aware : (i : ℕ) → (clock i).aware ≡ true)
    (early : 1099511627776 < lo) (late : hi < 2147483648000) where
  -- The whole way of a backtest, from an empty cache, with a server that holds the rates and the
  -- klines of the symbol in ascending order and answers with the first rows of a range, a symbol
  -- whose interval is known, a window between 2004-11-03 and 2038-01-19, aware readings of the
  -- clock and texts of decimals that are read back: for a valid request of at most 730 days, if
  -- each rate of the window has its kline, so that they merge, and the merged events have prices
  -- and intervals that are not zero, the size, rates and prices having at most 1000 digits and
  -- exponents of at most 10000 either way, the answer has one line for every rate that the server holds
  -- in the window, in their order, with its time and its rate.
  pub backtest-fetch_funding_rates :
      (intervals : List (String × ℕ)) (evs : List FundingEvent)
      → get_interval_hours api body.symbol intervals ≡ ok h
      → merge body.symbol (rates_of lo hi rates) (add_klines [] (klines_of lo hi klines)) h ≡ ok evs
      → All IsUsable evs
      → AreModerate body.size evs
      → IsValid (input_of body)
      → body.end.us ≤ body.start.us + days_us 730
      → let fetch =
          (fetch_funding_rates str decimal api body.symbol intervals clock body.start body.end
            []).0 in
        (answer : BacktestResponse) × (backtest body (answered fetch) ≡ returned answer)
        × (map rate_line answer.payments ≡ map of_rate (rates_of lo hi rates))
  unfolding merge
  backtest-fetch_funding_rates intervals evs known merged u moderate v near =
      let fetched =
        fetch_funding_rates-empty honest body.start body.end from to str decimal exact clock
          clock_aware early late intervals known
        ∙ merged in
      let (r, _, answer, _, lines) = backtest-returned body evs v near u moderate in
      (
        to_backtest_response r,
        ap (λ f. backtest body (answered f)) fetched ∙ answer,
        rates_of_lines (to_backtest_response r).payments evs lines
            ∙ merge_rows-rates body.symbol (rates_of lo hi rates) _ _ h evs merged,
      )
