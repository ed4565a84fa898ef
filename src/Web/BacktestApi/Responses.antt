-- ===== src/Web/BacktestApi/Responses.antt =====
-- What a backtest that is asked for in time and range is answered.
use funding_tool.Prelude.{◌+◌, ◌≤◌, ◌≡◌, refl, sym, ap, ◌∙◌, List, map, length, All, [], ◌∷◌}
use funding_tool.Errors.{ok}
use funding_tool.Decimal.{Decimal}
use funding_tool.Time.{DateTime}
use funding_tool.Models.{FundingEvent, FundingPayment, BacktestResult}
use funding_tool.Backtest.{run_backtest}
use funding_tool.Backtest.Rows.{IsValid, IsUsable, AreModerate}
use funding_tool.Backtest.Totality.{run_backtest-Covers}
use funding_tool.Web.{returned, and_then, answered}
use funding_tool.Web.Ranges.{days_us, check_range_iff}
use funding_tool.Web.BacktestApi.{
  BacktestRequest, FundingPaymentOut, funding_payment_out, to_backtest_response, input_of,
  awaited_backtest, backtest_answer, backtest,
}

-- What an event and a line of the answer have in common.
abbrev pub of_event : FundingEvent → DateTime × Decimal × Decimal
of_event e = (e.timestamp, e.rate, e.mark_price)

abbrev pub of_line : FundingPaymentOut → DateTime × Decimal × Decimal
of_line p = (p.timestamp, p.rate, p.mark_price)

lines-events :
    (ps : List FundingPayment)
    → map of_line (map funding_payment_out ps) ≡ map of_event (map (λ p. p.event) ps)
unfolding funding_payment_out
lines-events [] = refl
lines-events (p ∷ ps) = ap (◌∷◌ (of_event p.event)) (lines-events ps)

-- A valid request of at most 730 days over events whose prices and intervals are not zero, with
-- moderate numbers, is
-- answered with the result of run_backtest, in percent where the answer is, and with one line for
-- each event, in their order, with its time, rate and price.
pub backtest-returned :
    (body : BacktestRequest) (evs : List FundingEvent)
    → IsValid (input_of body)
    → body.end.us ≤ body.start.us + days_us 730
    → All IsUsable evs
    → AreModerate body.size evs
    → (r : BacktestResult) × (run_backtest (input_of body) (ok evs) ≡ ok r)
      × (backtest body (answered (ok evs)) ≡ returned (to_backtest_response r))
      × ((to_backtest_response r).event_count ≡ length evs)
      × (map of_line (to_backtest_response r).payments ≡ map of_event evs)
unfolding backtest and_then awaited_backtest backtest_answer to_backtest_response input_of
backtest-returned body evs v near u moderate =
    let (r, e, c) = run_backtest-Covers (input_of body) evs v u moderate in
    let near' = (check_range_iff 730 body.start body.end).1 (v.aware.0 ∙ sym v.aware.1, near) in
    (
      r,
      e,
      rw (near', backtest) (rw e refl),
      c.count,
      lines-events r.payments ∙ ap (map of_event) c.events,
    )
