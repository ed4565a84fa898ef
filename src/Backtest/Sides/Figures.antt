-- ===== src/Backtest/Sides/Figures.antt =====
-- Every figure of the result on the two sides, and the law for the whole run.
use mathlib.Core.Path.{subst, ap₂}
use funding_tool.Prelude.{
  ◌≡◌, refl, suc, not, ◌&&◌, Bool-cases, ◌==◌, inl, inr, Option, List, length,
}
use funding_tool.Errors.{Result, ◌>>=◌, Both, both_ok, both_err, Both-bind, Both-refl}
use funding_tool.Decimal.{Decimal, from_nat, div, mean, is_positive}
use funding_tool.Decimal.Signs.{
  Negated, Negated-mul, Negated-sum_from, AllNegated, length_same, Both-div, Both-mean,
}
use funding_tool.Models.{
  FundingEvent, long, short, SizeMode, base, quote, rate_only, BacktestInput, FundingPayment,
}
use funding_tool.Backtest.Sides.{
  AllMirrored, nil, cons, NegatedOption, neither, each, MirroredResult, with_side, Negated-zero,
  payments_for_mirror, length_mirror, rates_mirror, payments_mirror, hours_mirror, notionals_mirror,
  base_amounts_mirror,
}
use funding_tool.Backtest.{
  elapsed_seconds, seconds_per_year, validate, required, payments_for, average, totals, annualised,
  apr_for, summarise, run_backtest,
}

average_mirror : {xs ys : List Decimal} → AllNegated xs ys → Both Negated (average xs) (average ys)
unfolding average
average_mirror AllNegated.none = both_ok Negated-zero
average_mirror (AllNegated.more {xs = xs} {ys = ys} h hs) =
    rw (length_same hs) (Both-mean (suc (length ys)) (AllNegated.more h hs))

abbrev MirroredTotals : Option Decimal × Option Decimal → Option Decimal × Option Decimal → Type 0
MirroredTotals p q = NegatedOption p.0 q.0 × NegatedOption p.1 q.1

totals_mirror :
    (mode : SizeMode) {ps qs : List FundingPayment}
    → AllMirrored ps qs
    → Both MirroredTotals (totals mode ps) (totals mode qs)
unfolding totals
totals_mirror rate_only ms = both_ok (neither, neither)
totals_mirror _ ms = Both-bind MirroredTotals _ _ (base_amounts_mirror ms) λ xs ys hs. both_ok (
  each (Negated-sum_from _ _ Negated-zero (payments_mirror ms)),
  each (Negated-sum_from _ _ Negated-zero hs),
)

annualised_mirror :
    (x y notional years : Decimal)
    → Negated x y
    → Both Negated (annualised x notional years) (annualised y notional years)
unfolding annualised
annualised_mirror x y notional years h =
    elim (Bool-cases (not (notional.coeff == 0) && is_positive years)) [
      | inl t ↦ rw t (Both-bind Negated _ _ (Both-div x y notional h) λ a b k. Both-div a b years k)
      | inr f ↦ rw f (both_ok Negated-zero)
    ]

required_mirror :
    {t u : Option Decimal} → NegatedOption t u → Both Negated (required t) (required u)
unfolding required
required_mirror neither = both_err _
required_mirror (each h) = both_ok h

-- The average of values that do not depend on the side.
same_bind :
    {A : Type 0} {m n : Result A} (f g : A → Result Decimal)
    → m ≡ n
    → ((a : A) → Both Negated (f a) (g a))
    → Both Negated (m >>= f) (n >>= g)
same_bind {m = m} {n = n} f g e h =
    Both-bind Negated f g (subst (λ k. Both (λ a b. a ≡ b) m k) e (Both-refl m))
      λ a b same. subst (λ c. Both Negated (f a) (g c)) same (h a)

apr_mirror :
    (mode : SizeMode) (size : Option Decimal) (years : Decimal) {x y : Decimal}
    {t u : Option Decimal} {ps qs : List FundingPayment}
    → AllMirrored ps qs
    → Negated x y
    → NegatedOption t u
    → Both Negated (apr_for mode size ps x t years) (apr_for mode size qs y u years)
unfolding apr_for
apr_mirror mode size years nil h k = both_ok Negated-zero
apr_mirror rate_only size years {x} {y} (cons m ms) h k =
    same_bind _ _ (ap₂ mean (length_mirror (cons m ms)) (hours_mirror (cons m ms)))
      λ hours. same_bind _ _ refl λ n. both_ok (Negated-mul x y n h)
apr_mirror base size years (cons m ms) h k = Both-bind Negated _ _ (required_mirror k) λ a b neg.
    same_bind _ _ (ap₂ mean (length_mirror (cons m ms)) (notionals_mirror (cons m ms)))
      λ notional. annualised_mirror a b notional years neg
apr_mirror quote size years (cons m ms) h k =
    Both-bind Negated _ _ (required_mirror k)
      λ a b neg. same_bind _ _ refl λ notional. annualised_mirror a b notional years neg

summarise_mirror :
    (inp : BacktestInput) {ps qs : List FundingPayment}
    → AllMirrored ps qs
    → Both MirroredResult (summarise (with_side inp long) ps) (summarise (with_side inp short) qs)
unfolding summarise
summarise_mirror inp {ps} {qs} ms =
    Both-bind MirroredResult _ _ (average_mirror (rates_mirror ms)) λ x y avg.
      Both-bind MirroredResult _ _ (totals_mirror inp.size_mode ms) λ t u total.
        Both-bind MirroredResult _ _
          (Both-refl (div (elapsed_seconds inp.start inp.end) seconds_per_year))
          λ a b same.
            Both-bind MirroredResult _ _
              (subst
                (λ c.
                  Both Negated (apr_for inp.size_mode inp.size ps x t.0 a)
                    (apr_for inp.size_mode inp.size qs y u.0 c))
                same (apr_mirror inp.size_mode inp.size a ms avg total.0))
              λ v w apr. both_ok (record {
                payments = ms;
                total_quote = total.0;
                total_base = total.1;
                cumulative =
                    Negated-mul _ _ (from_nat 100)
                      (Negated-sum_from _ _ Negated-zero (rates_mirror ms));
                apr = apr;
                avg_rate = avg;
                event_count = length_mirror ms;
              })

-- With the same window, size and events, LONG and SHORT fail alike, or both succeed: then the
-- payments, the totals, the cumulative and average rates and the APR of the one are the negatives
-- of the other's, and the quantities, the notionals and the number of events agree.
pub run_backtest_sides :
    (inp : BacktestInput) (fetch : Result (List FundingEvent))
    → Both MirroredResult
        (run_backtest (with_side inp long) fetch)
        (run_backtest (with_side inp short) fetch)
unfolding run_backtest validate
run_backtest_sides inp fetch = Both-bind MirroredResult _ _ (Both-refl (validate inp)) λ _ _ _.
    Both-bind MirroredResult _ _ (Both-refl fetch) λ evs evs' same.
      subst
        (λ es.
          Both MirroredResult
            (payments_for (with_side inp long) evs >>= summarise (with_side inp long))
            (payments_for (with_side inp short) es >>= summarise (with_side inp short)))
        same
        (Both-bind MirroredResult _ _ (payments_for_mirror inp evs)
          λ ps qs ms. summarise_mirror inp ms)
