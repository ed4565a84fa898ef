-- ===== src/Tests/Incomes.antt =====
-- A server with two items of income, one of which it repeats.
use funding_tool.Prelude.{◌≡◌, refl, none, List, [], ◌∷◌, take, arith}
use funding_tool.Errors.{ok}
use funding_tool.Time.{to_ms, truncated_ms, timestamp, from_ms, from_timestamp, double, scale}
use funding_tool.Rounding.{round_div}
use funding_tool.Time.Roundtrip.{to_ms-eq-div}
use funding_tool.Models.{IncomeRecord}
use funding_tool.Paging.{use_batch}
use funding_tool.Binance.{IncomeItem, Api}
use funding_tool.Binance.Funding.{
  fetch_funding_income, income_windows, window_end, iter_income_pages, income_pages, income_record,
  add_new, has_tran_id, sort_records, insert_record,
}
use funding_tool.Binance.Coverage.{items_of, HoldsIncome, HasAll, fetch_funding_income-HasAll}
use funding_tool.Binance.Income.{HasUniqueIds, IsByTime, fetch_funding_income-HasUniqueIds}
use funding_tool.Tests.Fetching.{at, api, item}

abbrev two_records : List IncomeRecord
two_records = income_record (item "1" 1767225600000) ∷ income_record (item "2" 1767254400000) ∷ []

-- The record that came twice is there once, and the records are sorted.
income_run : fetch_funding_income 0 api none (at 1767225600000) (at 1767312000000) ≡ ok two_records
unfolding fetch_funding_income income_windows window_end iter_income_pages income_pages use_batch
    income_record add_new has_tran_id sort_records insert_record to_ms truncated_ms timestamp
    from_ms from_timestamp double scale round_div
income_run = refl

fetch_funding_income-HasUniqueIds_example : HasUniqueIds two_records × IsByTime two_records
fetch_funding_income-HasUniqueIds_example =
    fetch_funding_income-HasUniqueIds 0 api none (at 1767225600000) (at 1767312000000) income_run

abbrev two_items : List IncomeItem
two_items = item "1" 1767225600000 ∷ item "2" 1767254400000 ∷ []

abbrev income_api : Api
income_api = record api { income = λ s lo hi. ok (take 1000 (items_of lo hi two_items)) }

income_api-HoldsIncome : HoldsIncome income_api none two_items
income_api-HoldsIncome = record {
  now = 1767312000000;
  timed = refl;
  ascend = ((omega arith, tt), (tt, tt));
  answer = λ lo hi. refl;
}

fetch_funding_income-HasAll_example :
    (rs : List IncomeRecord) × (fetch_funding_income 0 income_api none
        (at 1767225600000)
        (at 1767312000000)
      ≡ ok rs)
    × HasAll rs (items_of 1767225600000 1767312000000 two_items)
    × HasUniqueIds rs
    × IsByTime rs
fetch_funding_income-HasAll_example =
    fetch_funding_income-HasAll income_api-HoldsIncome 0 (at 1767225600000) (at 1767312000000)
      (omega arith) (to_ms-eq-div 1767225600000000 (omega arith) (omega arith))
      (to_ms-eq-div 1767312000000000 (omega arith) (omega arith))
