-- ===== src/Cache/Stored.antt =====
-- Events that are put into an empty cache come back from it.
use funding_tool.Prelude.{
  ℕ, suc, ◌*◌, ◌≤◌, ◌<◌, ◌≡◌, refl, sym, ap, ap₂, ◌∙◌, true, String, List, [], ◌∷◌, map, All, arith,
}
use funding_tool.Errors.{ok, ◌>>=◌}
use funding_tool.Decimal.{Decimal}
use funding_tool.Time.{DateTime, to_ms, from_ms, truncated_ms}
use funding_tool.Time.Roundtrip.{to_ms-from_ms, us-from_ms}
use funding_tool.Models.{FundingEvent}
use funding_tool.Cache.{Row, select, row_of, rows_of, put, event_of, get}
use funding_tool.Cache.Window.{IsAfter, IsAscending}
use funding_tool.Cache.Roundtrip.{IsOf, select-insert_all}

-- An event of the symbol whose time is a whole millisecond of the window.
pub record Fits (s : String) (lo hi : ℕ) (ev : FundingEvent) : Type 0 where
  pub ms : ℕ
  pub time : ev.timestamp ≡ from_ms ms
  pub early : 1099511627776 < ms
  pub late : ms < 2147483648000
  pub above : lo ≤ ms
  pub below : ms ≤ hi
  pub symbol : ev.symbol ≡ s

-- Strictly ascending times.
abbrev pub Rising : List FundingEvent → Type 0
Rising [] = Unit
Rising (ev ∷ evs) = All (λ x. ev.timestamp.us < x.timestamp.us) evs × Rising evs

pub to_ms_aware : (dt : DateTime) → dt.aware ≡ true → (ms : ℕ) × (to_ms dt ≡ ok ms)
unfolding to_ms
to_ms_aware dt h = (truncated_ms dt, rw h)

module _ {Text : Type 0} (str : Decimal → Text) (decimal : Text → Decimal)
    (exact : (d : Decimal) → decimal (str d) ≡ d) (e s : String) (lo hi : ℕ) where
  -- The row of an event: it stands for the event, at the event's time.
  abbrev Stands : FundingEvent → Row Text → Type 0
  Stands ev r =
      (event_of str decimal s r ≡ ev) × IsOf e s lo hi r × (ev.timestamp.us ≡ r.funding_ms * 1000)

  abbrev AllStand : List FundingEvent → List (Row Text) → Type 0
  AllStand [] [] = Unit
  AllStand (ev ∷ evs) (r ∷ rs) = Stands ev r × AllStand evs rs
  AllStand _ _ = ⊥

  row_of-Stands :
      (now : DateTime) (ev : FundingEvent)
      → now.aware ≡ true
      → Fits s lo hi ev
      → (r : Row Text) × (row_of str decimal e s now ev ≡ ok r) × Stands ev r
  unfolding row_of event_of
  row_of-Stands now ev h f =
      let (fetched, read) = to_ms_aware now h in
      let stored : to_ms ev.timestamp ≡ ok f.ms =
        ap to_ms f.time ∙ to_ms-from_ms f.ms f.early f.late in
      (
        record {
          exchange = e;
          symbol = s;
          funding_ms = f.ms;
          rate = str ev.rate;
          mark_price = str ev.mark_price;
          interval_h = ev.interval_hours;
          fetched_at = fetched;
        },
        rw (stored, read),
        (
          λ i. record {
            timestamp = sym f.time i;
            symbol = sym f.symbol i;
            rate = exact ev.rate i;
            mark_price = exact ev.mark_price i;
            interval_hours = ev.interval_hours;
          },
          (refl, refl, f.above, f.below),
          ap (λ t. t.us) f.time ∙ ap (λ t. t.us) (us-from_ms f.ms f.early f.late),
        ),
      )

  rows_of_stand :
      (clock : ℕ → DateTime) (i : ℕ) (evs : List FundingEvent)
      → ((i : ℕ) → (clock i).aware ≡ true)
      → All (Fits s lo hi) evs
      → (rs : List (Row Text)) × (rows_of str decimal e s clock i evs ≡ ok rs) × AllStand evs rs
  unfolding rows_of
  rows_of_stand clock i [] h f = ([], refl, tt)
  rows_of_stand clock i (ev ∷ evs) h f =
      let (r, er, sr) = row_of-Stands (clock i) ev (h i) f.0 in
      let (rs, ers, srs) = rows_of_stand clock (suc i) evs h f.1 in
      (r ∷ rs, rw (er, ers), (sr, srs))

  events_stand :
      (evs : List FundingEvent) (rs : List (Row Text))
      → AllStand evs rs
      → map (event_of str decimal s) rs ≡ evs
  events_stand [] [] h = refl
  events_stand [] (r ∷ rs) h = absurd h
  events_stand (ev ∷ evs) [] h = absurd h
  events_stand (ev ∷ evs) (r ∷ rs) h = ap₂ ◌∷◌ h.0.0 (events_stand evs rs h.1)

  rows-IsOf :
      (evs : List FundingEvent) (rs : List (Row Text)) → AllStand evs rs → All (IsOf e s lo hi) rs
  rows-IsOf [] [] h = tt
  rows-IsOf [] (r ∷ rs) h = absurd h
  rows-IsOf (ev ∷ evs) [] h = absurd h
  rows-IsOf (ev ∷ evs) (r ∷ rs) h = (h.0.1, rows-IsOf evs rs h.1)

  rows-IsAfter :
      (t ms : ℕ) (evs : List FundingEvent) (rs : List (Row Text))
      → t ≡ ms * 1000
      → AllStand evs rs
      → All (λ x. t < x.timestamp.us) evs
      → All (IsAfter ms) rs
  rows-IsAfter t ms [] [] q h a = tt
  rows-IsAfter t ms [] (r ∷ rs) q h a = absurd h
  rows-IsAfter t ms (ev ∷ evs) [] q h a = absurd h
  rows-IsAfter t ms (ev ∷ evs) (r ∷ rs) q h a = (omega arith, rows-IsAfter t ms evs rs q h.1 a.1)

  rows_ascend :
      (evs : List FundingEvent) (rs : List (Row Text))
      → AllStand evs rs
      → Rising evs
      → IsAscending rs
  rows_ascend [] [] h a = tt
  rows_ascend [] (r ∷ rs) h a = absurd h
  rows_ascend (ev ∷ evs) [] h a = absurd h
  rows_ascend (ev ∷ evs) (r ∷ rs) h a =
      (rows-IsAfter _ r.funding_ms evs rs h.0.2 h.1 a.0, rows_ascend evs rs h.1 a.1)

  -- Strictly rising events of one symbol, at whole milliseconds of the window between `start` and
  -- `end` that lie between 2004-11-03 and 2038-01-19, are put with aware readings of the clock into an
  -- empty cache without an error, and `get` then returns exactly these
  -- events in their order, if `decimal` reads back what `str` writes.
  pub get-put :
      (clock : ℕ → DateTime) (evs : List FundingEvent) (start end : DateTime)
      → ((i : ℕ) → (clock i).aware ≡ true)
      → to_ms start ≡ ok lo
      → to_ms end ≡ ok hi
      → All (Fits s lo hi) evs
      → Rising evs
      → (put str decimal e s clock evs [] >>= get str decimal e s start end) ≡ ok evs
  unfolding put get
  get-put clock [] start end h hs he f a = rw (hs, he) (unfold select in refl)
  get-put clock (ev ∷ evs) start end h hs he f a =
      let (rs, ers, st) = rows_of_stand clock 0 (ev ∷ evs) h f in
      rw (ers, hs, he)
        (ap (λ x. ok (map (event_of str decimal s) x))
            (select-insert_all e s lo hi rs (rows_ascend (ev ∷ evs) rs st a)
              (rows-IsOf (ev ∷ evs) rs st))
          ∙ ap ok (events_stand (ev ∷ evs) rs st))
