-- ===== src/Tests/Repeats.antt =====
-- Two requests for the same funding rates: the second one without a network.
use funding_tool.Prelude.{◌≡◌, refl, ap, ◌∙◌, List, [], ◌∷◌, arith}
use funding_tool.Errors.{Result, ok, err, network_error}
use funding_tool.Decimal.{Decimal}
use funding_tool.Time.{from_ms, from_timestamp, double, scale}
use funding_tool.Rounding.{round_div}
use funding_tool.Time.Roundtrip.{to_ms-eq-div}
use funding_tool.Models.{FundingEvent}
use funding_tool.Cache.{Row}
use funding_tool.Binance.{
  Api, dict_get, dict_set, cached_interval, get_interval, get_interval_hours,
}
use funding_tool.Binance.Rates.{
  merge_rows, merged_event, floor_lookup, within_tolerance, bisect_right, insert_time, add_klines,
  sorted_keys, mark_for, merge, fetch_funding_rates,
}
use funding_tool.Paging.Complete.{window}
use funding_tool.Binance.FromEmpty.{rates_of, klines_of, fetch_funding_rates-empty}
use funding_tool.Binance.Repeated.{IsDense, fetch_funding_rates-repeated}
use funding_tool.Tests.Fetching.{at, rates, klines, api, api-IsHonest, same, clock, knows, events}

abbrev first_request : Result (List FundingEvent) × List (Row Decimal)
first_request =
    fetch_funding_rates same same api "BTCUSDT" (("BTCUSDT", 8) ∷ []) clock (at 1767225600000)
      (at 1767283200000) []

two_events :
    merge "BTCUSDT"
      (rates_of 1767225600000 1767283200000 rates)
      (add_klines [] (klines_of 1767225600000 1767283200000 klines))
      8
    ≡ ok events
unfolding merge merge_rows merged_event mark_for floor_lookup within_tolerance bisect_right
    sorted_keys insert_time add_klines dict_get dict_set window
two_events = refl

first_answer : first_request.0 ≡ ok events
first_answer =
    fetch_funding_rates-empty api-IsHonest (at 1767225600000) (at 1767283200000)
      (to_ms-eq-div 1767225600000000 (omega arith) (omega arith))
      (to_ms-eq-div 1767283200000000 (omega arith) (omega arith)) same same (λ d. refl) clock
      (λ i. refl) (omega arith) (omega arith) (("BTCUSDT", 8) ∷ []) knows
    ∙ two_events

abbrev offline : Api
offline = record {
  server_time = err network_error;
  exchange_info = err network_error;
  funding_rate = λ s lo hi. err network_error;
  mark_price_klines = λ s h lo hi. err network_error;
  income = λ s lo hi. err network_error;
}

offline_knows : get_interval_hours offline "BTCUSDT" (("BTCUSDT", 8) ∷ []) ≡ ok 8
unfolding get_interval_hours get_interval cached_interval
offline_knows = refl

events-IsDense : IsDense (at 1767225600000) (at 1767283200000) events
unfolding from_ms from_timestamp double scale round_div
events-IsDense = (omega arith, (omega arith, omega arith))

fetch_funding_rates-repeated_example :
    fetch_funding_rates same same offline "BTCUSDT"
      (("BTCUSDT", 8) ∷ [])
      (λ i. at 0)
      (at 1767225600000)
      (at 1767283200000)
      first_request.1
    ≡ (ok events, first_request.1)
fetch_funding_rates-repeated_example =
    fetch_funding_rates-repeated same same "BTCUSDT" (at 1767225600000) (at 1767283200000) api
      offline (("BTCUSDT", 8) ∷ []) (("BTCUSDT", 8) ∷ []) clock (λ i. at 0) [] events
      first_request.1 8 (ap (λ (r : Result (List FundingEvent)). (r, first_request.1)) first_answer)
      events-IsDense offline_knows
