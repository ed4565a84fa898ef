-- ===== src/Backtest.antt =====
-- core/backtest.py: the hypothetical P&L of a position over the funding events of a window.
pub mod Sides
pub mod Rows
pub mod Totality
use funding_tool.Prelude.{
  ℕ, ◌-◌, Bool, true, false, not, ◌&&◌, ltb, ◌==◌, if◌then◌else◌, Option, none, some, List, [], ◌∷◌,
  map, length,
}
use funding_tool.Prelude.Int.{pos, negsuc}
use funding_tool.Errors.{Result, ok, err, validation_error, assertion_error, ◌>>=◌, ◌>>◌}
use funding_tool.Decimal.{Decimal, from_nat, mul, div, mean, sum_from, is_positive, strip}
use funding_tool.Time.{DateTime}
use funding_tool.Models.{
  FundingEvent, Side, long, short, SizeMode, base, quote, rate_only, BacktestInput, FundingPayment,
  BacktestResult,
}

-- 365.25 * 86400
abbrev seconds_per_year : Decimal
seconds_per_year = from_nat 31557600

-- Decimal(side_sign)
unfoldable pub side_sign : Side → Decimal
side_sign long = record { neg = true; coeff = 1; exp = pos 0 }
side_sign short = from_nat 1

-- inp.size is None or inp.size <= 0
unfoldable pub size_missing : Option Decimal → Bool
size_missing none = true
size_missing (some d) = not (is_positive d)

unfoldable pub needs_size : SizeMode → Bool
needs_size base = true
needs_size quote = true
needs_size rate_only = false

unfoldable pub validate : BacktestInput → Result (Unit {0})
validate inp =
    if not (inp.start.aware && inp.end.aware)
    then err validation_error
    else if not (ltb inp.start.us inp.end.us)
    then err validation_error
    else if needs_size inp.size_mode && size_missing inp.size
    then err validation_error
    else ok tt

-- A size of None that is used in arithmetic is a TypeError, which validation keeps out.
unfoldable pub required : Option Decimal → Result Decimal
required none = err assertion_error
required (some d) = ok d

-- events[0] is there: the quantity is computed for an event of the list.
unfoldable pub quantity_for_event : SizeMode → Option Decimal → FundingEvent → Result Decimal
quantity_for_event base size entry = required size
quantity_for_event quote size entry = required size >>= λ d. div d entry.mark_price
quantity_for_event rate_only size entry = ok (from_nat 1)

-- One event's contribution, at a quantity.
unfoldable pub payment_row : Side → Decimal → FundingEvent → FundingPayment
payment_row side qty ev = record {
  event = ev;
  quantity_base = qty;
  notional_quote = mul qty ev.mark_price;
  payment_quote = mul (mul (mul (side_sign side) qty) ev.mark_price) ev.rate;
}

-- The loop over the events, with the first one at hand.
unfoldable pub payment_rows :
    BacktestInput → FundingEvent → List FundingEvent → Result (List FundingPayment)
payment_rows inp entry [] = ok []
payment_rows inp entry (ev ∷ evs) = quantity_for_event inp.size_mode inp.size entry >>= λ qty.
    payment_rows inp entry evs >>= λ rest. ok (payment_row inp.side qty ev ∷ rest)

unfoldable pub payments_for : BacktestInput → List FundingEvent → Result (List FundingPayment)
payments_for inp [] = ok []
payments_for inp (ev ∷ evs) = payment_rows inp ev (ev ∷ evs)

unfoldable pub signed_rate : Side → FundingPayment → Decimal
signed_rate side p = mul (side_sign side) p.event.rate

-- The average of the signed rates; 0 without events.
unfoldable pub average : List Decimal → Result Decimal
average [] = ok (from_nat 0)
average (x ∷ xs) = mean (length (x ∷ xs)) (x ∷ xs)

-- The payments in units of the base asset, each at its own mark price.
unfoldable pub base_amounts : List FundingPayment → Result (List Decimal)
base_amounts [] = ok []
base_amounts (p ∷ ps) =
    div p.payment_quote p.event.mark_price >>= λ x. base_amounts ps >>= λ xs. ok (x ∷ xs)

unfoldable pub totals : SizeMode → List FundingPayment → Result (Option Decimal × Option Decimal)
totals rate_only ps = ok (none, none)
totals _ ps = base_amounts ps >>= λ xs.
    ok (
      some (sum_from (from_nat 0) (map (λ p. p.payment_quote) ps)),
      some (sum_from (from_nat 0) xs),
    )

-- Decimal(str((end - start).total_seconds())): the shortest text of the seconds has at least one
-- digit behind the point.
unfoldable pub elapsed_seconds : DateTime → DateTime → Decimal
elapsed_seconds start end =
    let (c, k) = strip 5 (end.us - start.us) in
    record { neg = false; coeff = c; exp = negsuc (5 - k) }

-- total_quote / avg_notional / elapsed_years, guarded
unfoldable pub annualised : Decimal → Decimal → Decimal → Result Decimal
annualised total avg_notional years =
    if not (avg_notional.coeff == 0) && is_positive years
    then (div total avg_notional >>= λ q. div q years)
    else ok (from_nat 0)

unfoldable pub apr_for :
    SizeMode
    → Option Decimal
    → List FundingPayment
    → Decimal
    → Option Decimal
    → Decimal
    → Result Decimal
apr_for mode size [] avg_rate total years = ok (from_nat 0)
apr_for rate_only size (p ∷ ps) avg_rate total years =
    mean (length (p ∷ ps)) (map (λ q. from_nat q.event.interval_hours) (p ∷ ps)) >>= λ hours.
    div (mul (from_nat 24) (record { neg = false; coeff = 36525; exp = negsuc 1 })) hours >>= λ n.
    ok (mul avg_rate n)
apr_for base size (p ∷ ps) avg_rate total years = required total >>= λ t.
    mean (length (p ∷ ps)) (map (λ q. q.notional_quote) (p ∷ ps)) >>= λ avg_notional.
    annualised t avg_notional years
apr_for quote size (p ∷ ps) avg_rate total years =
    required total >>= λ t. required size >>= λ avg_notional. annualised t avg_notional years

-- What run_backtest computes from the events.
unfoldable pub summarise : BacktestInput → List FundingPayment → Result BacktestResult
summarise inp payments =
    let rates = map (signed_rate inp.side) payments in
    average rates >>= λ avg_rate. totals inp.size_mode payments >>= λ ts.
    div (elapsed_seconds inp.start inp.end) seconds_per_year >>= λ years.
    apr_for inp.size_mode inp.size payments avg_rate ts.0 years >>= λ apr. ok (record {
      input = inp;
      payments = payments;
      total_quote = ts.0;
      total_base = ts.1;
      cumulative_rate_pct = mul (sum_from (from_nat 0) rates) (from_nat 100);
      apr = apr;
      event_count = length payments;
      avg_rate = avg_rate;
    })

-- `fetch` is exchange.fetch_funding_rates at the symbol and window of the input.
unfoldable pub run_backtest : BacktestInput → Result (List FundingEvent) → Result BacktestResult
run_backtest inp fetch =
    validate inp >> (fetch >>= λ events. payments_for inp events >>= λ ps. summarise inp ps)
