-- ===== src/Backtest/Sides.antt =====
-- The two sides of a position: what LONG pays SHORT receives, in every figure of the result.
pub mod Figures
use funding_tool.Prelude.{
  ℕ, ◌≡◌, refl, ap, suc, not, ◌&&◌, Bool-cases, ◌==◌, Option, none, some, List, [], ◌∷◌, map,
  length, arith,
}
use funding_tool.Errors.{
  Error, Result, ok, err, ◌>>=◌, ◌>>◌, Both, both_ok, both_err, Both-bind, Both-refl,
}
use funding_tool.Decimal.{Decimal, from_nat, mul, div, mean, sum_from}
use funding_tool.Decimal.Signs.{
  Negated, Negated-mul, Negated-sum_from, AllNegated, length_same, Both-div, Both-mean,
}
use funding_tool.Models.{
  FundingEvent, Side, long, short, SizeMode, base, quote, rate_only, BacktestInput, FundingPayment,
  BacktestResult,
}
use funding_tool.Backtest.{
  side_sign, validate, required, quantity_for_event, payment_row, payment_rows, payments_for,
  signed_rate, average, base_amounts, totals, annualised, apr_for, summarise, run_backtest,
}

-- The same question for another side.
abbrev pub with_side : BacktestInput → Side → BacktestInput
with_side inp s = record inp { side = s }

pub Negated-side_sign : Negated (side_sign long) (side_sign short)
unfolding side_sign
Negated-side_sign = ground arith

pub Negated-zero : Negated (from_nat 0) (from_nat 0)
Negated-zero = ground arith

-- One event's payment on the two sides.
pub record Mirrored (p q : FundingPayment) : Type 0 where
  pub event : p.event ≡ q.event
  pub quantity : p.quantity_base ≡ q.quantity_base
  pub notional : p.notional_quote ≡ q.notional_quote
  pub payment : Negated p.payment_quote q.payment_quote

pub data AllMirrored : List FundingPayment → List FundingPayment → Type 0 where
  nil : AllMirrored [] []
  cons :
      {p q : FundingPayment} {ps qs : List FundingPayment}
      → Mirrored p q
      → AllMirrored ps qs
      → AllMirrored (p ∷ ps) (q ∷ qs)

pub data NegatedOption : Option Decimal → Option Decimal → Type 0 where
  neither : NegatedOption none none
  each : {x y : Decimal} → Negated x y → NegatedOption (some x) (some y)

pub record MirroredResult (r s : BacktestResult) : Type 0 where
  pub payments : AllMirrored r.payments s.payments
  pub total_quote : NegatedOption r.total_quote s.total_quote
  pub total_base : NegatedOption r.total_base s.total_base
  pub cumulative : Negated r.cumulative_rate_pct s.cumulative_rate_pct
  pub apr : Negated r.apr s.apr
  pub avg_rate : Negated r.avg_rate s.avg_rate
  pub event_count : r.event_count ≡ s.event_count

pub mul_mirror : (x y : Decimal) {z w : Decimal} → Negated x y → z ≡ w → Negated (mul x z) (mul y w)
mul_mirror x y {z} {w} h same = rw same (Negated-mul x y w h)

pub payment_row_mirror :
    (a b : Decimal) (ev : FundingEvent)
    → a ≡ b
    → Mirrored (payment_row long a ev) (payment_row short b ev)
unfolding payment_row
payment_row_mirror a b ev same = record {
  event = refl;
  quantity = same;
  notional = ap (λ x. mul x ev.mark_price) same;
  payment =
      Negated-mul _ _ ev.rate
        (Negated-mul _ _ ev.mark_price (mul_mirror _ _ Negated-side_sign same));
}

pub payment_rows_mirror :
    (inp : BacktestInput) (entry : FundingEvent) (evs : List FundingEvent)
    → Both AllMirrored
        (payment_rows (with_side inp long) entry evs)
        (payment_rows (with_side inp short) entry evs)
unfolding payment_rows
payment_rows_mirror inp entry [] = both_ok nil
payment_rows_mirror inp entry (ev ∷ evs) =
    Both-bind AllMirrored _ _ (Both-refl (quantity_for_event inp.size_mode inp.size entry))
      λ a b same.
        Both-bind AllMirrored _ _ (payment_rows_mirror inp entry evs)
          λ ps qs rest. both_ok (cons (payment_row_mirror a b ev same) rest)

pub payments_for_mirror :
    (inp : BacktestInput) (evs : List FundingEvent)
    → Both AllMirrored
        (payments_for (with_side inp long) evs)
        (payments_for (with_side inp short) evs)
unfolding payments_for
payments_for_mirror inp [] = both_ok nil
payments_for_mirror inp (ev ∷ evs) = payment_rows_mirror inp ev (ev ∷ evs)

pub length_mirror : {ps qs : List FundingPayment} → AllMirrored ps qs → length ps ≡ length qs
length_mirror nil = refl
length_mirror (cons m ms) = ap suc (length_mirror ms)

pub rates_mirror :
    {ps qs : List FundingPayment}
    → AllMirrored ps qs
    → AllNegated (map (signed_rate long) ps) (map (signed_rate short) qs)
unfolding signed_rate
rates_mirror nil = AllNegated.none
rates_mirror (cons m ms) =
    AllNegated.more (mul_mirror _ _ Negated-side_sign (ap (λ e. e.rate) m.event)) (rates_mirror ms)

pub payments_mirror :
    {ps qs : List FundingPayment}
    → AllMirrored ps qs
    → AllNegated (map (λ p. p.payment_quote) ps) (map (λ p. p.payment_quote) qs)
payments_mirror nil = AllNegated.none
payments_mirror (cons m ms) = AllNegated.more m.payment (payments_mirror ms)

pub hours_mirror :
    {ps qs : List FundingPayment}
    → AllMirrored ps qs
    → map (λ q. from_nat q.event.interval_hours) ps ≡ map (λ q. from_nat q.event.interval_hours) qs
hours_mirror nil = refl
hours_mirror (cons m ms) = cc (ap (λ e. from_nat e.interval_hours) m.event, hours_mirror ms)

pub notionals_mirror :
    {ps qs : List FundingPayment}
    → AllMirrored ps qs
    → map (λ q. q.notional_quote) ps ≡ map (λ q. q.notional_quote) qs
notionals_mirror nil = refl
notionals_mirror (cons m ms) = cc (m.notional, notionals_mirror ms)

pub div_mirror :
    (x y : Decimal) {z w : Decimal} → Negated x y → z ≡ w → Both Negated (div x z) (div y w)
div_mirror x y {z} {w} h same = rw same (Both-div x y w h)

pub base_amounts_mirror :
    {ps qs : List FundingPayment}
    → AllMirrored ps qs
    → Both AllNegated (base_amounts ps) (base_amounts qs)
unfolding base_amounts
base_amounts_mirror nil = both_ok AllNegated.none
base_amounts_mirror (cons m ms) =
    Both-bind AllNegated _ _ (div_mirror _ _ m.payment (ap (λ e. e.mark_price) m.event)) λ x y h.
      Both-bind AllNegated _ _ (base_amounts_mirror ms) λ xs ys hs. both_ok (AllNegated.more h hs)
