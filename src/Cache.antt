-- ===== src/Cache.antt =====
-- core/cache.py: the SQLite table of funding rates and its operations. The table is the list of its
-- rows, in any order; the columns `rate` and `mark_price` hold the text of a decimal.
pub mod Table
pub mod Window
pub mod Gaps
pub mod Stats
pub mod Roundtrip
pub mod Stored
use funding_tool.Prelude.{
  ℕ, suc, ◌+◌, ◌-◌, ◌*◌, ◌/◌, Bool, ◌&&◌, not, ltb, leb, ◌==◌, str_eq, if◌then◌else◌, String,
  Option, none, some, List, [], ◌∷◌, ◌++◌, map, length,
}
use funding_tool.Errors.{Result, ok, ◌>>=◌}
use funding_tool.Decimal.{Decimal}
use funding_tool.Time.{DateTime, to_ms, from_ms}
use funding_tool.Models.{FundingEvent}

pub record Row (Text : Type 0) : Type 0 where
  pub exchange : String
  pub symbol : String
  pub funding_ms : ℕ
  pub rate : Text
  pub mark_price : Text
  pub interval_h : ℕ
  pub fetched_at : ℕ

module _ {Text : Type 0} where
  -- The primary key (exchange, symbol, funding_ms).
  unfoldable pub has_key : String → String → ℕ → Row Text → Bool
  has_key exchange symbol ms r =
      str_eq r.exchange exchange && str_eq r.symbol symbol && r.funding_ms == ms

  unfoldable pub without : String → String → ℕ → List (Row Text) → List (Row Text)
  without exchange symbol ms [] = []
  without exchange symbol ms (r ∷ t) =
      let rest = without exchange symbol ms t in
      if has_key exchange symbol ms r then rest else r ∷ rest

  -- INSERT OR REPLACE
  unfoldable pub insert_or_replace : Row Text → List (Row Text) → List (Row Text)
  insert_or_replace r t = r ∷ without r.exchange r.symbol r.funding_ms t

  -- executemany, row by row
  unfoldable pub insert_all : List (Row Text) → List (Row Text) → List (Row Text)
  insert_all [] t = t
  insert_all (r ∷ rs) t = insert_all rs (insert_or_replace r t)

  -- WHERE exchange = ? AND symbol = ? AND funding_ms >= ? AND funding_ms <= ?
  unfoldable pub matches : String → String → ℕ → ℕ → Row Text → Bool
  matches exchange symbol lo hi r =
      str_eq r.exchange exchange
      && str_eq r.symbol symbol
      && leb lo r.funding_ms
      && leb r.funding_ms hi

  -- ORDER BY funding_ms ASC
  unfoldable pub insert_by_ms : Row Text → List (Row Text) → List (Row Text)
  insert_by_ms r [] = r ∷ []
  insert_by_ms r (x ∷ xs) =
      let rest = insert_by_ms r xs in if leb r.funding_ms x.funding_ms then r ∷ x ∷ xs else x ∷ rest

  unfoldable pub select : String → String → ℕ → ℕ → List (Row Text) → List (Row Text)
  select exchange symbol lo hi [] = []
  select exchange symbol lo hi (r ∷ t) =
      let rest = select exchange symbol lo hi t in
      if matches exchange symbol lo hi r then insert_by_ms r rest else rest

  -- DELETE FROM funding_rates WHERE symbol = ?
  unfoldable pub delete_symbol : String → List (Row Text) → List (Row Text)
  delete_symbol symbol [] = []
  delete_symbol symbol (r ∷ t) =
      let rest = delete_symbol symbol t in if str_eq r.symbol symbol then rest else r ∷ rest

  unfoldable pub remaining : Option String → List (Row Text) → List (Row Text)
  remaining none t = []
  remaining (some symbol) t = if str_eq symbol "" then [] else delete_symbol symbol t

  -- clear: the rows that stay, and the number of those deleted.
  unfoldable pub clear : Option String → List (Row Text) → List (Row Text) × ℕ
  clear symbol t = let rest = remaining symbol t in (rest, length t - length rest)

module _ {Text : Type 0} (str : Decimal → Text) (decimal : Text → Decimal) where
  -- The row of one event, with the clock's reading for `fetched_at`.
  unfoldable pub row_of : String → String → DateTime → FundingEvent → Result (Row Text)
  row_of exchange symbol now ev = to_ms ev.timestamp >>= λ ms. to_ms now >>= λ fetched. ok (record {
    exchange = exchange;
    symbol = symbol;
    funding_ms = ms;
    rate = str ev.rate;
    mark_price = str ev.mark_price;
    interval_h = ev.interval_hours;
    fetched_at = fetched;
  })

  -- `clock i` is the reading for the i-th event.
  unfoldable pub rows_of :
      String → String → (ℕ → DateTime) → ℕ → List FundingEvent → Result (List (Row Text))
  rows_of exchange symbol clock i [] = ok []
  rows_of exchange symbol clock i (ev ∷ evs) = row_of exchange symbol (clock i) ev >>= λ r.
      rows_of exchange symbol clock (suc i) evs >>= λ rs. ok (r ∷ rs)

  unfoldable pub put :
      String
      → String
      → (ℕ → DateTime)
      → List FundingEvent
      → List (Row Text)
      → Result (List (Row Text))
  put exchange symbol clock [] t = ok t
  put exchange symbol clock (ev ∷ evs) t =
      rows_of exchange symbol clock 0 (ev ∷ evs) >>= λ rs. ok (insert_all rs t)

  unfoldable pub event_of : String → Row Text → FundingEvent
  event_of symbol r = record {
    timestamp = from_ms r.funding_ms;
    symbol = symbol;
    rate = decimal r.rate;
    mark_price = decimal r.mark_price;
    interval_hours = r.interval_h;
  }

  unfoldable pub get :
      String → String → DateTime → DateTime → List (Row Text) → Result (List FundingEvent)
  get exchange symbol start end t = to_ms start >>= λ lo.
      to_ms end >>= λ hi. ok (map (event_of symbol) (select exchange symbol lo hi t))

-- timedelta(hours=h), in microseconds
abbrev pub hours_us : ℕ → ℕ
hours_us h = h * 3600000000

-- (timedelta(hours=h) * 3) // 2
abbrev pub tolerance : FundingEvent → ℕ
tolerance ev = hours_us ev.interval_hours * 3 / 2

unfoldable pub after_interval : FundingEvent → DateTime
after_interval ev = record {
  us = ev.timestamp.us + hours_us ev.interval_hours;
  aware = ev.timestamp.aware;
}

-- a - b > tol, for a difference that may be negative
abbrev pub exceeds : ℕ → ℕ → ℕ → Bool
exceeds a b tol = ltb (b + tol) a

unfoldable pub leading_gap : DateTime → FundingEvent → List (DateTime × DateTime)
leading_gap start first =
    if exceeds first.timestamp.us start.us (tolerance first)
    then (start, first.timestamp) ∷ []
    else []

unfoldable pub interior_gap : FundingEvent → FundingEvent → List (DateTime × DateTime)
interior_gap prev nxt =
    if exceeds nxt.timestamp.us prev.timestamp.us (tolerance prev)
    then (after_interval prev, nxt.timestamp) ∷ []
    else []

unfoldable pub trailing_gap : FundingEvent → DateTime → List (DateTime × DateTime)
trailing_gap last end =
    if exceeds end.us last.timestamp.us (tolerance last)
    then (after_interval last, end) ∷ []
    else []

-- The gaps behind an event: the interior ones, and the trailing one at the last event.
unfoldable pub gaps_after : FundingEvent → List FundingEvent → DateTime → List (DateTime × DateTime)
gaps_after last [] end = trailing_gap last end
gaps_after prev (nxt ∷ rest) end = interior_gap prev nxt ++ gaps_after nxt rest end

unfoldable pub gaps : List FundingEvent → DateTime → DateTime → List (DateTime × DateTime)
gaps [] start end = (start, end) ∷ []
gaps (first ∷ rest) start end = leading_gap start first ++ gaps_after first rest end

unfoldable pub missing_ranges :
    {Text : Type 0} (str : Decimal → Text) (decimal : Text → Decimal)
    → String
    → String
    → DateTime
    → DateTime
    → List (Row Text)
    → Result (List (DateTime × DateTime))
missing_ranges str decimal exchange symbol start end t =
    get str decimal exchange symbol start end t >>= λ cached. ok (gaps cached start end)
