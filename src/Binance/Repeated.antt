-- ===== src/Binance/Repeated.antt =====
-- A request for funding rates that is repeated: it is answered from the cache.
use funding_tool.Prelude.{ℕ, ◌+◌, ◌≤◌, ◌≡◌, refl, subst, ap, inl, inr, String, List, [], ◌∷◌, arith}
use funding_tool.Errors.{Result, ok, err, Result-cases}
use funding_tool.Decimal.{Decimal}
use funding_tool.Time.{DateTime}
use funding_tool.Models.{FundingEvent}
use funding_tool.Cache.{
  Row, get, tolerance, leading_gap, interior_gap, trailing_gap, gaps_after, gaps, missing_ranges,
}
use funding_tool.Binance.{Api, get_interval_hours}
use funding_tool.Binance.Rates.{exchange_name, fill_gaps, finish, fetch_with, fetch_funding_rates}

-- No event of the list is farther than one and a half of its intervals from the next one, nor the
-- last one from the end.
abbrev pub IsDenseTo : DateTime → FundingEvent → List FundingEvent → Type 0
IsDenseTo end last [] = end.us ≤ last.timestamp.us + tolerance last
IsDenseTo end prev (nxt ∷ rest) =
    (nxt.timestamp.us ≤ prev.timestamp.us + tolerance prev) × IsDenseTo end nxt rest

-- There is an event, and no stretch of the window without one is longer.
abbrev pub IsDense : DateTime → DateTime → List FundingEvent → Type 0
IsDense start end [] = ⊥
IsDense start end (first ∷ rest) =
    (first.timestamp.us ≤ start.us + tolerance first) × IsDenseTo end first rest

gaps_after-IsDenseTo :
    (end : DateTime) (prev : FundingEvent) (rest : List FundingEvent)
    → IsDenseTo end prev rest
    → gaps_after prev rest end ≡ []
unfolding gaps_after interior_gap trailing_gap
gaps_after-IsDenseTo end last [] d = ground arith
gaps_after-IsDenseTo end prev (nxt ∷ rest) d = ground (arith, gaps_after-IsDenseTo end nxt rest d.1)

gaps-IsDense :
    (start end : DateTime) (evs : List FundingEvent)
    → IsDense start end evs
    → gaps evs start end ≡ []
unfolding gaps leading_gap
gaps-IsDense start end [] d = absurd d
gaps-IsDense start end (first ∷ rest) d = ground (arith, gaps_after-IsDenseTo end first rest d.1)

module _ {Text : Type 0} (str : Decimal → Text) (decimal : Text → Decimal) (symbol : String)
    (start end : DateTime) where
  -- What a call that succeeds returns is what the cache holds behind it.
  finish-get :
      (api : Api) (filled : Result (Unit {0}) × List (Row Text)) (evs : List FundingEvent)
      (t : List (Row Text))
      → finish str decimal api symbol start end filled ≡ (ok evs, t)
      → get str decimal exchange_name symbol start end t ≡ ok evs
  unfolding finish
  finish-get api (ok u, t') evs t e =
      subst (λ x. get str decimal exchange_name symbol start end x ≡ ok evs)
        (ap (λ (p : Result (List FundingEvent) × List (Row Text)). p.1) e)
        (ap (λ (p : Result (List FundingEvent) × List (Row Text)). p.0) e)
  finish-get api (err x, t') evs t e =
      let failed = ap (λ (p : Result (List FundingEvent) × List (Row Text)). p.0) e in cc

  fetch_with-get :
      (api : Api) (h : ℕ) (clock : ℕ → DateTime) (t : List (Row Text)) (evs : List FundingEvent)
      (t' : List (Row Text))
      → fetch_with str decimal api symbol h clock start end t ≡ (ok evs, t')
      → get str decimal exchange_name symbol start end t' ≡ ok evs
  fetch_with-get api h clock t evs t' e =
      elim (Result-cases (missing_ranges str decimal exchange_name symbol start end t)) [
        | inl (gs, found) ↦
            finish-get api (fill_gaps str decimal api symbol h clock gs t) evs t'
              (unfold fetch_with in rw (found, fetch_with) at e)
        | inr (x, failed) ↦
            finish-get api (err x, t) evs t'
              (unfold finish fetch_with in rw (failed, fetch_with) at e)
      ]

  fetch-get :
      (api : Api) (intervals : List (String × ℕ)) (clock : ℕ → DateTime) (t : List (Row Text))
      (evs : List FundingEvent) (t' : List (Row Text))
      → fetch_funding_rates str decimal api symbol intervals clock start end t ≡ (ok evs, t')
      → get str decimal exchange_name symbol start end t' ≡ ok evs
  unfolding fetch_funding_rates finish
  fetch-get api intervals clock t evs t' e =
      elim (Result-cases (get_interval_hours api symbol intervals)) [
        | inl (h, known) ↦
            fetch_with-get api h clock t evs t' (rw (known, fetch_funding_rates) at e)
        | inr (x, failed) ↦ finish-get api (err x, t) evs t' (rw (failed, fetch_funding_rates) at e)
      ]

  -- If a request returned events and left the cache, whatever the server and the cache were, and no
  -- stretch of the window without an event is longer than one and a half intervals, then the same
  -- request with any server, other readings of the clock, and any interval of the symbol that is
  -- known, returns the same events and leaves the cache as it is.
  pub fetch_funding_rates-repeated :
      (api api' : Api) (intervals intervals' : List (String × ℕ)) (clock clock' : ℕ → DateTime)
      (t : List (Row Text)) (evs : List FundingEvent) (t' : List (Row Text)) (h : ℕ)
      → fetch_funding_rates str decimal api symbol intervals clock start end t ≡ (ok evs, t')
      → IsDense start end evs
      → get_interval_hours api' symbol intervals' ≡ ok h
      → fetch_funding_rates str decimal api' symbol intervals' clock' start end t' ≡ (ok evs, t')
  unfolding fetch_funding_rates fetch_with
  fetch_funding_rates-repeated api api' intervals intervals' clock clock' t evs t' h e dense known =
      let held = fetch-get api intervals clock t evs t' e in
      let none_missing : missing_ranges str decimal exchange_name symbol start end t' ≡ ok [] =
        unfold missing_ranges in rw held (ap ok (gaps-IsDense start end evs dense)) in
      rw (known, fetch_funding_rates)
        (rw (none_missing, fetch_with) (unfold fill_gaps finish in rw held refl))
