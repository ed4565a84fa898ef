-- ===== src/Tests/Caching.antt =====
-- The cache of two rows and of two events, and the gaps of a window.
use funding_tool.Prelude.{
  ℕ, ◌+◌, ◌*◌, ◌≡◌, refl, true, sym, ◌≤◌, List, [], ◌∷◌, All, inl, inr, arith,
}
use funding_tool.Errors.{ok, ◌>>=◌}
use funding_tool.Decimal.{Decimal, from_nat}
use funding_tool.Time.{DateTime}
use funding_tool.Time.Roundtrip.{to_ms-eq-div, us-from_ms}
use funding_tool.Models.{FundingEvent}
use funding_tool.Cache.{Row, put, get, gaps}
use funding_tool.Cache.Gaps.{InSome, Disjoint, gaps-cover, gaps-Disjoint}
use funding_tool.Cache.Stored.{Fits, get-put}

abbrev row : ℕ → Decimal → Row Decimal
row ms rate = record {
  exchange = "binance_usdm";
  symbol = "BTCUSDT";
  funding_ms = ms;
  rate = rate;
  mark_price = from_nat 60000;
  interval_h = 8;
  fetched_at = 9000;
}

abbrev rows : List (Row Decimal)
rows = row 2000 (from_nat 1) ∷ row 1000 (from_nat 2) ∷ row 2000 (from_nat 3) ∷ []

abbrev hour : ℕ → DateTime
hour h = record { us = h * 3600000000; aware = true }

abbrev event_at : DateTime → FundingEvent
event_at t = record {
  timestamp = t;
  symbol = "BTCUSDT";
  rate = from_nat 1;
  mark_price = from_nat 60000;
  interval_hours = 8;
}

-- Events at the hours 16 and 48 of a window of 100 hours.
abbrev cached : List FundingEvent
cached = event_at (hour 16) ∷ event_at (hour 48) ∷ []

gaps-cover_example : InSome (30 * 3600000000) (gaps cached (hour 0) (hour 100))
gaps-cover_example =
    gaps-cover cached (hour 0) (hour 100) (30 * 3600000000) (omega arith) (omega arith)
      (inl (omega arith), (inr (omega arith), tt))

gaps-Disjoint_example : Disjoint 0 (100 * 3600000000) (gaps cached (hour 0) (hour 100))
gaps-Disjoint_example =
    gaps-Disjoint cached (hour 0) (hour 100) (omega arith) (omega arith, (omega arith, omega arith))

abbrev at : ℕ → DateTime
at ms = record { us = ms * 1000; aware = true }

abbrev stored : List FundingEvent
stored = event_at (at 1767225600000) ∷ event_at (at 1767254400000) ∷ []

event_at-Fits :
    (ms : ℕ)
    → 1767225600000 ≤ ms
    → ms ≤ 1767312000000
    → Fits "BTCUSDT" 1767225600000 1767312000000 (event_at (at ms))
event_at-Fits ms above below = record {
  ms = ms;
  time = sym (us-from_ms ms (omega arith) (omega arith));
  early = omega arith;
  late = omega arith;
  above = above;
  below = below;
  symbol = refl;
}

stored-Fits : All (Fits "BTCUSDT" 1767225600000 1767312000000) stored
stored-Fits = (
  event_at-Fits 1767225600000 (omega arith) (omega arith),
  (event_at-Fits 1767254400000 (omega arith) (omega arith), tt),
)

abbrev same : Decimal → Decimal
same d = d

abbrev clock : ℕ → DateTime
clock i = at (1767312000000 + i)

get-put_example :
    (put same same "binance_usdm" "BTCUSDT" clock stored []
      >>= get same same "binance_usdm" "BTCUSDT" (at 1767225600000) (at 1767312000000))
    ≡ ok stored
get-put_example =
    get-put same same (λ d. refl) "binance_usdm" "BTCUSDT" 1767225600000 1767312000000 clock stored
      (at 1767225600000) (at 1767312000000) (λ i. refl)
      (to_ms-eq-div 1767225600000000 (omega arith) (omega arith))
      (to_ms-eq-div 1767312000000000 (omega arith) (omega arith)) stored-Fits
      ((omega arith, tt), (tt, tt))
