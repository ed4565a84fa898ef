-- ===== src/Binance/FromEmpty.antt =====
-- fetch_funding_rates from an empty cache, against a server that holds the rates and the klines.
use funding_tool.Prelude.{ℕ, ◌<◌, ◌≡◌, refl, true, String, List, [], ◌∷◌, ◌++◌, take, All, arith}
use mathlib.Core.List.{append_assoc, append-nil}
use funding_tool.Errors.{Result, ok, err, ◌>>=◌}
use funding_tool.Decimal.{Decimal}
use funding_tool.Time.{DateTime, to_ms}
use funding_tool.Models.{FundingEvent}
use funding_tool.Cache.{Row, put, get, gaps, missing_ranges, select}
use funding_tool.Cache.Stored.{get-put}
use funding_tool.Paging.Complete.{
  window, Ascends, Ascends-window, All-of_window, fetch_pages-window,
}
use funding_tool.Binance.{RateRow, KlineRow, Api, get_interval_hours}
use funding_tool.Binance.Rates.{
  add_klines, merge_rows, merge, exchange_name, fetch_rate_pages, fetch_klines, store_rates,
  fill_gap, fill_gaps, finish, fetch_with, fetch_funding_rates,
}
use funding_tool.Binance.Fetch.{InWindow, add_klines-append, merge_rows-Fits, merge_rows-Rising}

abbrev pub rates_of : ℕ → ℕ → List RateRow → List RateRow
rates_of = window (λ r. r.funding_time)

abbrev pub klines_of : ℕ → ℕ → List KlineRow → List KlineRow
klines_of = window (λ k. k.open_time)

-- The server holds the rates and the klines of the symbol in strictly ascending order, and answers
-- a request with the first rows of the range, at most 1000 and 1500 of them.
pub record IsHonest (api : Api) (symbol : String) (h : ℕ) (rates : List RateRow)
    (klines : List KlineRow) : Type 0 where
  pub rates_ascend : Ascends (λ r. r.funding_time) rates
  pub klines_ascend : Ascends (λ k. k.open_time) klines
  pub rates_answer :
      (lo hi : ℕ) → api.funding_rate symbol lo hi ≡ ok (take 1000 (rates_of lo hi rates))
  pub klines_answer :
      (lo hi : ℕ) → api.mark_price_klines symbol h lo hi ≡ ok (take 1500 (klines_of lo hi klines))

module _ {api : Api} {symbol : String} {h : ℕ} {rates : List RateRow} {klines : List KlineRow}
    (honest : IsHonest api symbol h rates klines) (start end : DateTime) {lo hi : ℕ}
    (from : to_ms start ≡ ok lo) (to : to_ms end ≡ ok hi) where
  -- _fetch_rate_pages returns all rates of the window, each once and in order.
  pub fetch_rate_pages-window : fetch_rate_pages api symbol start end ≡ ok (rates_of lo hi rates)
  unfolding fetch_rate_pages
  fetch_rate_pages-window =
      rw (from, to)
        (fetch_pages-window (λ r. r.funding_time) 999 ◌++◌ (api.funding_rate symbol)
          (λ a. append-nil a) (λ a xs ys. append_assoc a xs ys) rates honest.rates_ascend
          honest.rates_answer [] lo hi)

  -- _fetch_klines returns the prices of all klines of the window, by their times.
  pub fetch_klines-window :
      fetch_klines api symbol start end h ≡ ok (add_klines [] (klines_of lo hi klines))
  unfolding fetch_klines
  fetch_klines-window =
      rw (from, to)
        (fetch_pages-window (λ k. k.open_time) 1499 add_klines (api.mark_price_klines symbol h)
          (λ a. unfold add_klines in refl) add_klines-append klines honest.klines_ascend
          honest.klines_answer [] lo hi)

  module _ {Text : Type 0} (str : Decimal → Text) (decimal : Text → Decimal)
      (exact : (d : Decimal) → decimal (str d) ≡ d) (clock : ℕ → DateTime)
      (clock_aware : (i : ℕ) → (clock i).aware ≡ true) (early : 1099511627776 < lo)
      (late : hi < 2147483648000) where
    -- What follows the fetched rates: klines, merge, put, and the final get.
    after_merge :
        (rs : List RateRow) (evs : List FundingEvent)
        → All (InWindow symbol lo hi early late) rs
        → Ascends (λ r. r.funding_time) rs
        → merge symbol rs (add_klines [] (klines_of lo hi klines)) h ≡ ok evs
        → (put str decimal exchange_name symbol clock evs []
            >>= get str decimal exchange_name symbol start end)
          ≡ ok evs
    unfolding merge
    after_merge rs evs w a e =
        get-put str decimal exact exchange_name symbol lo hi clock evs start end clock_aware from to
          (merge_rows-Fits symbol lo hi early late rs _ _ h evs w e)
          (merge_rows-Rising symbol lo hi early late rs _ _ h evs w a e)

    table_after : Result (List (Row Text)) → Result (Unit {0}) × List (Row Text)
    table_after (ok t) = (ok tt, t)
    table_after (err e) = (err e, [])

    -- The single gap of an empty cache, filled and read back.
    fill_and_read :
        (p : Result (List (Row Text))) {evs : List FundingEvent}
        → (p >>= get str decimal exchange_name symbol start end) ≡ ok evs
        → (finish str decimal api symbol start end (table_after p)).0 ≡ ok evs
    unfolding finish table_after
    fill_and_read (ok t) e = e
    fill_and_read (err x) e = cc

    one_gap :
        fill_gaps str decimal api symbol h clock ((start, end) ∷ []) []
        ≡ table_after (fill_gap str decimal api symbol h clock (start, end) [])
    unfolding fill_gaps table_after
    one_gap = ground arith

    read_empty : get str decimal exchange_name symbol start end [] ≡ ok []
    unfolding get select
    read_empty = rw (from, to)

    read_back :
        (rs : List RateRow)
        → All (InWindow symbol lo hi early late) rs
        → Ascends (λ r. r.funding_time) rs
        → (finish str decimal api symbol start end
            (table_after (store_rates str decimal api symbol h clock start end [] rs))).0
          ≡ merge symbol rs (add_klines [] (klines_of lo hi klines)) h
    unfolding store_rates
    read_back [] w a = unfold table_after finish merge merge_rows in read_empty
    read_back (r ∷ rs) w a =
        rw fetch_klines-window
          (merged (merge symbol (r ∷ rs) (add_klines [] (klines_of lo hi klines)) h) refl)
      where
        merged :
            (m : Result (List FundingEvent))
            → merge symbol (r ∷ rs) (add_klines [] (klines_of lo hi klines)) h ≡ m
            → (finish str decimal api symbol start end
                (table_after (m >>= λ evs. put str decimal exchange_name symbol clock evs []))).0
              ≡ m
        merged (ok evs) e = fill_and_read _ (after_merge (r ∷ rs) evs w a e)
        merged (err x) e = unfold table_after finish in refl

    whole_window :
        missing_ranges str decimal exchange_name symbol start end [] ≡ ok ((start, end) ∷ [])
    unfolding missing_ranges gaps
    whole_window = rw read_empty

    filled :
        fill_gap str decimal api symbol h clock (start, end) []
        ≡ store_rates str decimal api symbol h clock start end [] (rates_of lo hi rates)
    unfolding fill_gap
    filled = rw fetch_rate_pages-window

    -- From an empty cache, for a symbol whose interval is known, a server that is honest in the sense
    -- of `IsHonest`, a window between 2004-11-03 and 2038-01-19, aware readings of the clock, and
    -- texts of decimals that are read back as they were, fetch_funding_rates fetches all pages, merges them, stores the events and returns exactly the merge of all rates of the window
    -- with all klines of the window, or the error of that merge. Nothing is lost or reordered on
    -- the way through the pages and the cache.
    pub fetch_funding_rates-empty :
        (intervals : List (String × ℕ))
        → get_interval_hours api symbol intervals ≡ ok h
        → (fetch_funding_rates str decimal api symbol intervals clock start end []).0
          ≡ merge symbol (rates_of lo hi rates) (add_klines [] (klines_of lo hi klines)) h
    unfolding fetch_funding_rates fetch_with
    fetch_funding_rates-empty intervals known =
        rw (known, fetch_funding_rates)
          (rw (whole_window, fetch_with)
            (rw (one_gap, filled)
              (read_back (rates_of lo hi rates) (All-of_window (λ r. r.funding_time) lo hi rates)
                (Ascends-window (λ r. r.funding_time) lo hi rates honest.rates_ascend))))
