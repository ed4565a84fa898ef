-- ===== src/Binance/Rates.antt =====
-- fetch_funding_rates of core/exchanges/binance_usdm.py: its pages, the mark prices, and the gaps of
-- the cache that it fills.
use funding_tool.Prelude.{
  ℕ, zero, suc, ◌-◌, ◌*◌, leb, if◌then◌else◌, String, Option, none, some, List, [], ◌∷◌, ◌++◌,
  get_elem?,
}
use funding_tool.Errors.{Result, ok, err, exchange_error, ◌>>=◌}
use funding_tool.Decimal.{Decimal}
use funding_tool.Time.{DateTime, to_ms, from_ms}
use funding_tool.Models.{FundingEvent}
use funding_tool.Cache.{Row, put, get, missing_ranges}
use funding_tool.Paging.{fetch_pages}
use funding_tool.Binance.{RateRow, KlineRow, Api, dict_get, dict_set, get_interval_hours}

unfoldable pub fetch_rate_pages : Api → String → DateTime → DateTime → Result (List RateRow)
fetch_rate_pages api symbol start end = to_ms start >>= λ cursor. to_ms end >>= λ last.
    fetch_pages (λ r. r.funding_time) 1000 ◌++◌ (api.funding_rate symbol) [] cursor last

-- for row in batch: result[int(row[0])] = ...
unfoldable pub add_klines : List (ℕ × Decimal) → List KlineRow → List (ℕ × Decimal)
add_klines d [] = d
add_klines d (k ∷ ks) = add_klines (dict_set k.open_time k.open_price d) ks

unfoldable pub fetch_klines : Api → String → DateTime → DateTime → ℕ → Result (List (ℕ × Decimal))
fetch_klines api symbol start end interval_h = to_ms start >>= λ cursor. to_ms end >>= λ last.
    fetch_pages (λ k. k.open_time) 1500 add_klines (api.mark_price_klines symbol interval_h) []
      cursor last

-- sorted(klines.keys())
unfoldable pub insert_time : ℕ → List ℕ → List ℕ
insert_time t [] = t ∷ []
insert_time t (x ∷ xs) = let rest = insert_time t xs in if leb t x then t ∷ x ∷ xs else x ∷ rest

unfoldable pub sorted_keys : List (ℕ × Decimal) → List ℕ
sorted_keys [] = []
sorted_keys ((t, p) ∷ d) = insert_time t (sorted_keys d)

-- bisect.bisect_right: the number of leading times that are at most `x`.
unfoldable pub bisect_right : List ℕ → ℕ → ℕ
bisect_right [] x = 0
bisect_right (t ∷ ts) x = let rest = bisect_right ts x in if leb t x then suc rest else 0

-- The kline at an index, if it is within the tolerance.
unfoldable pub within_tolerance : List (ℕ × Decimal) → ℕ → ℕ → Option ℕ → Option Decimal
within_tolerance klines tolerance_ms ft none = none
within_tolerance klines tolerance_ms ft (some t) =
    if leb (ft - t) tolerance_ms then dict_get t klines else none

-- idx = bisect_right(...) - 1, used only if it is not negative
unfoldable pub floor_lookup : List (ℕ × Decimal) → List ℕ → ℕ → ℕ → Option Decimal
floor_lookup klines times tolerance_ms ft = elim (bisect_right times ft) [
  | zero ↦ none
  | suc idx ↦ within_tolerance klines tolerance_ms ft (get_elem? times idx)
]

unfoldable pub mark_for : List (ℕ × Decimal) → List ℕ → ℕ → ℕ → Option Decimal
mark_for klines times tolerance_ms ft = elim (dict_get ft klines) [
  | some p ↦ some p
  | none ↦ floor_lookup klines times tolerance_ms ft
]

unfoldable pub merged_event : String → ℕ → RateRow → Option Decimal → Result FundingEvent
merged_event symbol interval_h r none = err exchange_error
merged_event symbol interval_h r (some mark) = ok (record {
  timestamp = from_ms r.funding_time;
  symbol = symbol;
  rate = r.funding_rate;
  mark_price = mark;
  interval_hours = interval_h;
})

unfoldable pub merge_rows :
    String → List RateRow → List (ℕ × Decimal) → List ℕ → ℕ → Result (List FundingEvent)
merge_rows symbol [] klines times interval_h = ok []
merge_rows symbol (r ∷ rs) klines times interval_h =
    merged_event symbol interval_h r (mark_for klines times (interval_h * 3600000) r.funding_time)
    >>= λ ev. merge_rows symbol rs klines times interval_h >>= λ evs. ok (ev ∷ evs)

unfoldable pub merge : String → List RateRow → List (ℕ × Decimal) → ℕ → Result (List FundingEvent)
merge symbol rates klines interval_h =
    merge_rows symbol rates klines (sorted_keys klines) interval_h

-- self.name
abbrev pub exchange_name : String
exchange_name = "binance_usdm"

module _ {Text : Type 0} (str : Decimal → Text) (decimal : Text → Decimal) (api : Api) where
  -- What the loop does with the rates of a gap.
  unfoldable pub store_rates :
      String
      → ℕ
      → (ℕ → DateTime)
      → DateTime
      → DateTime
      → List (Row Text)
      → List RateRow
      → Result (List (Row Text))
  store_rates symbol interval clock start end t [] = ok t
  store_rates symbol interval clock start end t (r ∷ rs) =
      fetch_klines api symbol start end interval >>= λ klines.
      merge symbol (r ∷ rs) klines interval >>= λ events.
      put str decimal exchange_name symbol clock events t

  unfoldable pub fill_gap :
      String → ℕ → (ℕ → DateTime) → DateTime × DateTime → List (Row Text) → Result (List (Row Text))
  fill_gap symbol interval clock (start, end) t = fetch_rate_pages api symbol start end >>= λ rates.
      store_rates symbol interval clock start end t rates

  -- The gaps in turn. The table comes back beside an error too: what earlier gaps stored stays.
  unfoldable pub fill_gaps :
      String
      → ℕ
      → (ℕ → DateTime)
      → List (DateTime × DateTime)
      → List (Row Text)
      → Result (Unit {0}) × List (Row Text)
  fill_gaps symbol interval clock [] t = (ok tt, t)
  fill_gaps symbol interval clock (g ∷ gs) t = elim (fill_gap symbol interval clock g t) [
    | ok t' ↦ fill_gaps symbol interval clock gs t'
    | err e ↦ (err e, t)
  ]

  unfoldable pub finish :
      String
      → DateTime
      → DateTime
      → Result (Unit {0}) × List (Row Text)
      → Result (List FundingEvent) × List (Row Text)
  finish symbol start end (ok _, t) = (get str decimal exchange_name symbol start end t, t)
  finish symbol start end (err e, t) = (err e, t)

  unfoldable pub fetch_with :
      String
      → ℕ
      → (ℕ → DateTime)
      → DateTime
      → DateTime
      → List (Row Text)
      → Result (List FundingEvent) × List (Row Text)
  fetch_with symbol interval clock start end t =
      elim (missing_ranges str decimal exchange_name symbol start end t) [
        | ok gaps ↦ finish symbol start end (fill_gaps symbol interval clock gaps t)
        | err e ↦ (err e, t)
      ]

  -- fetch_funding_rates: the result, and the cache after the call. The interval cache is an input;
  -- its entry for the symbol is what `get_interval` adds.
  unfoldable pub fetch_funding_rates :
      String
      → List (String × ℕ)
      → (ℕ → DateTime)
      → DateTime
      → DateTime
      → List (Row Text)
      → Result (List FundingEvent) × List (Row Text)
  fetch_funding_rates symbol intervals clock start end t =
      elim (get_interval_hours api symbol intervals) [
        | ok interval ↦ fetch_with symbol interval clock start end t
        | err e ↦ (err e, t)
      ]
