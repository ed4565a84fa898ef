-- ===== src/Binance/Fetch.antt =====
-- What the merge makes of the rates of a window: events at whole milliseconds that rise strictly.
use funding_tool.Prelude.{
  ℕ, ◌*◌, ◌≤◌, ◌<◌, ◌≡◌, refl, sym, ap, ◌∙◌, String, Option, List, [], ◌∷◌, ◌++◌, All, arith, subst,
}
use funding_tool.Errors.{ok, cons-eq-ok}
use funding_tool.Decimal.{Decimal}
use funding_tool.Time.{from_ms}
use funding_tool.Time.Roundtrip.{us-from_ms}
use funding_tool.Models.{FundingEvent}
use funding_tool.Cache.Stored.{Fits, Rising}
use funding_tool.Paging.Complete.{Ascends}
use funding_tool.Binance.{RateRow, KlineRow, dict_set}
use funding_tool.Binance.Rates.{add_klines, mark_for, merged_event, merge_rows}

pub add_klines-append :
    (d : List (ℕ × Decimal)) (xs ys : List KlineRow)
    → add_klines (add_klines d xs) ys ≡ add_klines d (xs ++ ys)
unfolding add_klines
add_klines-append d [] ys = refl
add_klines-append d (k ∷ xs) ys = add_klines-append (dict_set k.open_time k.open_price d) xs ys

merged_event_lem :
    (symbol : String) (h : ℕ) (r : RateRow) (mark : Option Decimal) {ev : FundingEvent}
    → merged_event symbol h r mark ≡ ok ev
    → (ev.timestamp ≡ from_ms r.funding_time) × (ev.symbol ≡ symbol)
unfolding merged_event
merged_event_lem symbol h r mark e = ground arith

merge_rows-cons :
    (symbol : String) (r : RateRow) (rs : List RateRow) (klines : List (ℕ × Decimal))
    (times : List ℕ) (h : ℕ) {evs : List FundingEvent}
    → merge_rows symbol (r ∷ rs) klines times h ≡ ok evs
    → (ev : FundingEvent) × (evs' : List FundingEvent) × (evs ≡ ev ∷ evs')
      × (ev.timestamp ≡ from_ms r.funding_time)
      × (ev.symbol ≡ symbol)
      × (merge_rows symbol rs klines times h ≡ ok evs')
unfolding merge_rows
merge_rows-cons symbol r rs klines times h e =
    let (ev, evs', e1, e2, e3) =
      cons-eq-ok (merged_event symbol h r (mark_for klines times (h * 3600000) r.funding_time))
        (merge_rows symbol rs klines times h) e in
    let (at, of') = merged_event_lem symbol h r _ e1 in (ev, evs', e3, at, of', e2)

module _ (symbol : String) (lo hi : ℕ) (early : 1099511627776 < lo)
    (late : hi < 2147483648000) where
  abbrev pub InWindow : RateRow → Type 0
  InWindow r = (lo ≤ r.funding_time) × (r.funding_time ≤ hi)

  us_of_event :
      (ev : FundingEvent) (r : RateRow)
      → ev.timestamp ≡ from_ms r.funding_time
      → InWindow r
      → ev.timestamp.us ≡ r.funding_time * 1000
  us_of_event ev r e w =
      ap (λ t. t.us) e ∙ ap (λ t. t.us) (us-from_ms r.funding_time (omega arith) (omega arith))

  -- The merged events stand at whole milliseconds of the window.
  pub merge_rows-Fits :
      (rs : List RateRow) (klines : List (ℕ × Decimal)) (times : List ℕ) (h : ℕ)
      (evs : List FundingEvent)
      → All InWindow rs
      → merge_rows symbol rs klines times h ≡ ok evs
      → All (Fits symbol lo hi) evs
  merge_rows-Fits [] klines times h [] w e = tt
  merge_rows-Fits [] klines times h (ev ∷ evs) w e = unfold merge_rows in cc
  merge_rows-Fits (r ∷ rs) klines times h evs w e =
      let (ev, evs', same, at, of', rest) = merge_rows-cons symbol r rs klines times h e in
      subst (All (Fits symbol lo hi)) (sym same) (
        record {
          ms = r.funding_time;
          time = at;
          early = omega arith;
          late = omega arith;
          above = w.0.0;
          below = w.0.1;
          symbol = of';
        },
        merge_rows-Fits rs klines times h evs' w.1 rest,
      )

  merge_rows_after :
      (t : ℕ) (rs : List RateRow) (klines : List (ℕ × Decimal)) (times : List ℕ) (h : ℕ)
      (evs : List FundingEvent)
      → All InWindow rs
      → All (λ x. t < x.funding_time) rs
      → merge_rows symbol rs klines times h ≡ ok evs
      → All (λ x. t * 1000 < x.timestamp.us) evs
  merge_rows_after t [] klines times h [] w a e = tt
  merge_rows_after t [] klines times h (ev ∷ evs) w a e = unfold merge_rows in cc
  merge_rows_after t (r ∷ rs) klines times h evs w a e =
      let (ev, evs', same, at, of', rest) = merge_rows-cons symbol r rs klines times h e in
      subst (All (λ x. t * 1000 < x.timestamp.us)) (sym same) (
        omega (arith, us_of_event ev r at w.0),
        merge_rows_after t rs klines times h evs' w.1 a.1 rest,
      )

  pub merge_rows-Rising :
      (rs : List RateRow) (klines : List (ℕ × Decimal)) (times : List ℕ) (h : ℕ)
      (evs : List FundingEvent)
      → All InWindow rs
      → Ascends (λ r. r.funding_time) rs
      → merge_rows symbol rs klines times h ≡ ok evs
      → Rising evs
  merge_rows-Rising [] klines times h [] w a e = tt
  merge_rows-Rising [] klines times h (ev ∷ evs) w a e = unfold merge_rows in cc
  merge_rows-Rising (r ∷ rs) klines times h evs w a e =
      let (ev, evs', same, at, of', rest) = merge_rows-cons symbol r rs klines times h e in
      subst Rising (sym same) (
        subst (λ (u : ℕ). All (λ x. u < x.timestamp.us) evs') (sym (us_of_event ev r at w.0))
            (merge_rows_after r.funding_time rs klines times h evs' w.1 a.0 rest),
        merge_rows-Rising rs klines times h evs' w.1 a.1 rest,
      )
