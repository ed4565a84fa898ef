-- ===== src/Backtest/Totality.antt =====
-- A valid input over events with a price and an interval always has a result: no division fails.
use mathlib.Core.Path.{subst}
use funding_tool.Prelude.Int.{ℤ}
use funding_tool.Prelude.{
  ℕ, suc, ◌<◌, ◌+◌, sym, ◌*◌, ◌≡◌, ◌≢◌, refl, ap, true, false, Bool-cases, not, ◌&&◌, ◌==◌, inl,
  inr, Option, none, some, List, [], ◌∷◌, map, length, length-map, ◌∙◌, All, arith,
}
use funding_tool.Errors.{ok}
use funding_tool.Decimal.{
  Decimal, from_nat, mul, mean, exact_sum, lowest, signed_sum, aligned, is_positive,
}
use funding_tool.Decimal.Size.{div_lem, pow_pos}
use funding_tool.Models.{
  FundingEvent, SizeMode, base, quote, rate_only, BacktestInput, FundingPayment, BacktestResult,
}
use funding_tool.Backtest.Rows.{
  IsValid, validate-ok_iff, Returns, Returns-bind, IsUsable, AreModerate, Sized, Anything,
  required-Returns, div-Returns, RowsOf, payments_for-Returns, base_amounts-Returns,
}
use funding_tool.Backtest.{
  required, needs_size, average, totals, annualised, apr_for, summarise, run_backtest,
  seconds_per_year,
}

mul_nonzero : (n m : ℕ) → n ≢ 0 → 0 < m → n * m ≢ 0
mul_nonzero n m p q = grind arith

-- A mean of at least one number exists, and is zero only if the exact sum is.
mean-Returns :
    (n : ℕ) (xs : List Decimal)
    → n ≢ 0
    → Returns (λ x. (exact_sum (lowest xs) (false, 0) xs).1 ≢ 0 → x.coeff ≢ 0) (mean n xs)
unfolding mean
mean-Returns n xs h = div_lem _ _ (mul_nonzero n _ h (pow_pos _))

average-Returns : (xs : List Decimal) → Returns Anything (average xs)
unfolding average
average-Returns [] = (from_nat 0, refl, tt)
average-Returns (x ∷ xs) =
    let (m, e, _) = mean-Returns (suc (length xs)) (x ∷ xs) (omega arith) in (m, e, tt)

totals-Returns :
    (mode : SizeMode) (ps : List FundingPayment)
    → All IsUsable (map (λ p. p.event) ps)
    → Returns (λ ts. needs_size mode ≡ true → (t : Decimal) × (ts.0 ≡ some t)) (totals mode ps)
unfolding totals
totals-Returns rate_only ps u = ((none, none), refl, λ e. unfold needs_size in cc)
totals-Returns _ ps u =
    Returns-bind Anything _ _ _ (base_amounts-Returns ps u) λ xs _. (_, refl, λ _. (_, refl))

positive-ne-zero : (y : Decimal) → is_positive y ≡ true → y.coeff ≢ 0
unfolding is_positive
positive-ne-zero y h = ground arith

annualised-Returns : (t n y : Decimal) → Returns Anything (annualised t n y)
unfolding annualised
annualised-Returns t n y = elim (Bool-cases (not (n.coeff == 0) && is_positive y)) [
  | inl go ↦ rw go (
      Returns-bind Anything Anything _ _ (div-Returns t n (ground arith))
        λ q _. div-Returns q y (positive-ne-zero y (ground arith)))
  | inr stop ↦ rw stop (from_nat 0, refl, tt)
]

abbrev hours_of : List FundingPayment → List Decimal
hours_of = map (λ q. from_nat q.event.interval_hours)

sum_stays :
    (e : ℤ) (c : ℕ) (ps : List FundingPayment)
    → c ≢ 0
    → (exact_sum e (false, c) (hours_of ps)).1 ≢ 0
unfolding exact_sum signed_sum
sum_stays e c [] h = h
sum_stays e c (p ∷ ps) h =
    sum_stays e (c + aligned (from_nat p.event.interval_hours) e) ps (omega arith)

hours_nonzero :
    (e : ℤ) (p : FundingPayment) (ps : List FundingPayment)
    → p.event.interval_hours ≢ 0
    → (exact_sum e (false, 0) (hours_of (p ∷ ps))).1 ≢ 0
unfolding exact_sum signed_sum
hours_nonzero e p ps h = sum_stays e (0 + aligned (from_nat p.event.interval_hours) e) ps (
    let pr : aligned (from_nat p.event.interval_hours) e ≢ 0 =
      unfold aligned in mul_nonzero _ _ h (pow_pos _) in
    omega arith)

apr-Returns :
    (mode : SizeMode) (size : Option Decimal) (ps : List FundingPayment) (avg : Decimal)
    (total : Option Decimal) (years : Decimal)
    → Sized mode size
    → All IsUsable (map (λ p. p.event) ps)
    → (needs_size mode ≡ true → (t : Decimal) × (total ≡ some t))
    → Returns Anything (apr_for mode size ps avg total years)
unfolding apr_for needs_size required
apr-Returns mode size [] avg total years h u t = (from_nat 0, refl, tt)
apr-Returns rate_only size (p ∷ ps) avg total years h u t =
    let (m, e, nonzero) = mean-Returns (suc (length ps)) (hours_of (p ∷ ps)) (omega arith) in
    rw e (
      Returns-bind Anything Anything _ _ (div-Returns _ m (nonzero (hours_nonzero _ p ps u.0.1)))
        λ n _. (mul avg n, refl, tt))
apr-Returns base size (p ∷ ps) avg total years h u t =
    let (m, e, _) =
      mean-Returns (suc (length ps)) (map (λ q. q.notional_quote) (p ∷ ps)) (omega arith) in
    rw ((t refl).1, e) (annualised-Returns (t refl).0 m years)
apr-Returns quote size (p ∷ ps) avg total years h u t = rw ((t refl).1) (
    Returns-bind Anything Anything (required size) _ (required-Returns size (h refl))
      λ n _. annualised-Returns (t refl).0 n years)

-- The result repeats the input, and has one payment for each event, in order.
pub record Covers (inp : BacktestInput) (evs : List FundingEvent) (r : BacktestResult)
    : Type 0 where
  pub input : r.input ≡ inp
  pub events : map (λ p. p.event) r.payments ≡ evs
  pub count : r.event_count ≡ length evs

summarise-Returns :
    (inp : BacktestInput) (evs : List FundingEvent) (ps : List FundingPayment)
    → Sized inp.size_mode inp.size
    → All IsUsable evs
    → RowsOf evs ps
    → Returns (Covers inp evs) (summarise inp ps)
unfolding summarise
summarise-Returns inp evs ps h u e =
    let usable : All IsUsable (map (λ p. p.event) ps) = subst (All IsUsable) (sym e) u in
    Returns-bind Anything (Covers inp evs) _ _ (average-Returns _) λ avg _.
      Returns-bind _ (Covers inp evs) _ _ (totals-Returns inp.size_mode ps usable) λ ts t.
        Returns-bind Anything (Covers inp evs) _ _ (div-Returns _ seconds_per_year (omega arith))
          λ years _.
            Returns-bind Anything (Covers inp evs) _ _
              (apr-Returns inp.size_mode inp.size ps avg ts.0 years h usable t)
              λ apr _. (
                _,
                refl,
                record {
                  input = refl;
                  events = e;
                  count = sym (length-map ps (λ p. p.event)) ∙ ap length e;
                },
              )

-- On a valid input and events whose prices and intervals are not zero, with a size, rates and prices of
-- at most 1000 digits and exponents of at most 10000 either way, which keep decimal from its Overflow,
-- the backtest returns a result: no division in it fails. The result repeats the input, has exactly one payment for each
-- event, in the order of the events, and counts them.
pub run_backtest-Covers :
    (inp : BacktestInput) (evs : List FundingEvent)
    → IsValid inp
    → All IsUsable evs
    → AreModerate inp.size evs
    → (r : BacktestResult) × (run_backtest inp (ok evs) ≡ ok r) × Covers inp evs r
unfolding run_backtest
run_backtest-Covers inp evs v u moderate = rw ((validate-ok_iff inp).1 v) (
    Returns-bind (RowsOf evs) (Covers inp evs) _ _ (payments_for-Returns inp evs v.sized u)
      λ ps e. summarise-Returns inp evs ps v.sized u e)
