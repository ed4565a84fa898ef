-- ===== src/Binance/Funding.antt =====
-- fetch_funding_income of core/exchanges/binance_usdm.py: its windows, their pages, and the records
-- without repetitions.
use funding_tool.Prelude.{
  ℕ, zero, suc, ◌+◌, ◌-◌, Bool, true, false, ltb, leb, str_eq, if◌then◌else◌, String, Option, none,
  some, List, [], ◌∷◌, ◌++◌, map,
}
use funding_tool.Errors.{Result, ok, err, fuel_exhausted, ◌>>=◌}
use funding_tool.Time.{DateTime, to_ms, from_ms}
use funding_tool.Models.{IncomeRecord}
use funding_tool.Paging.{use_batch}
use funding_tool.Binance.{IncomeItem, Api}

-- seven_days, in microseconds
abbrev pub seven_days : ℕ
seven_days = 604800000000

unfoldable pub symbol_or_empty : Option String → String
symbol_or_empty none = ""
symbol_or_empty (some s) = s

unfoldable pub income_record : IncomeItem → IncomeRecord
income_record item = record {
  timestamp = from_ms item.time;
  symbol = symbol_or_empty item.symbol;
  amount_usdt = item.income;
  tran_id = item.tran_id;
}

-- _iter_income_pages, collected: the loop has no test on the cursor.
unfoldable pub income_pages :
    (ℕ → ℕ → Result (List IncomeItem)) → ℕ → List IncomeItem → ℕ → ℕ → Result (List IncomeItem)
income_pages fetch zero acc cursor end = err fuel_exhausted
income_pages fetch (suc fuel) acc cursor end = fetch cursor end >>= λ batch.
    use_batch (λ i. i.time) 1000 ◌++◌ acc batch (λ acc' next. income_pages fetch fuel acc' next end)

-- One round more than the window has milliseconds, and behind its end one for a server that has
-- nothing there: enough for any server that keeps to the window. `further` rounds are for one that does
-- not.
unfoldable pub iter_income_pages :
    ℕ → Api → Option String → DateTime → DateTime → Result (List IncomeRecord)
iter_income_pages further api symbol start end = to_ms start >>= λ cursor. to_ms end >>= λ last.
    income_pages (api.income symbol) (further + suc (suc (suc last - cursor))) [] cursor last
    >>= λ items. ok (map income_record items)

unfoldable pub has_tran_id : String → List IncomeRecord → Bool
has_tran_id id [] = false
has_tran_id id (r ∷ rs) = if str_eq r.tran_id id then true else has_tran_id id rs

-- seen_tran_ids holds the ids of `records`: the record of a new id is appended.
unfoldable pub add_new : List IncomeRecord → List IncomeRecord → List IncomeRecord
add_new records [] = records
add_new records (r ∷ rs) =
    add_new (if has_tran_id r.tran_id records then records else records ++ r ∷ []) rs

unfoldable pub window_end : DateTime → DateTime → DateTime
window_end start end =
    if leb (start.us + seven_days) end.us then record start { us = start.us + seven_days } else end

-- while window_start < end
unfoldable pub income_windows :
    ℕ
    → Api
    → Option String
    → ℕ
    → List IncomeRecord
    → DateTime
    → DateTime
    → Result (List IncomeRecord)
income_windows further api symbol zero records start end = err fuel_exhausted
income_windows further api symbol (suc fuel) records start end = elim (ltb start.us end.us) [
  | true ↦
      let stop = window_end start end in
      iter_income_pages further api symbol start stop >>= λ page.
      income_windows further api symbol fuel (add_new records page) stop end
  | false ↦ ok records
]

-- records.sort(key=lambda r: r.timestamp), which is stable
unfoldable pub insert_record : IncomeRecord → List IncomeRecord → List IncomeRecord
insert_record r [] = r ∷ []
insert_record r (x ∷ xs) =
    let rest = insert_record r xs in
    if leb r.timestamp.us x.timestamp.us then r ∷ x ∷ xs else x ∷ rest

unfoldable pub sort_records : List IncomeRecord → List IncomeRecord
sort_records [] = []
sort_records (r ∷ rs) = insert_record r (sort_records rs)

unfoldable pub fetch_funding_income :
    ℕ → Api → Option String → DateTime → DateTime → Result (List IncomeRecord)
fetch_funding_income further api symbol start end = api.server_time >>= λ server.
    income_windows further api symbol (suc (suc end.us - start.us)) [] start end >>= λ records.
    ok (sort_records records)
