-- ===== src/Web/BacktestApi.antt =====
-- web/routes/backtest.py, with the models of its answer in web/models.py.
pub mod Fetched
pub mod Responses
use funding_tool.Prelude.{ℕ, String, Option, none, List, map}
use funding_tool.Errors.{Result, ok, err}
use funding_tool.Decimal.{Decimal, from_nat, mul}
use funding_tool.Time.{DateTime}
use funding_tool.Models.{
  FundingEvent, Side, SizeMode, BacktestInput, FundingPayment, BacktestResult,
}
use funding_tool.Backtest.{validate, run_backtest}
use funding_tool.WebErrors.{WebCode}
use funding_tool.Web.{
  http, raised, coded, Handled, returned, failed, and_then, Awaited, timed_out, answered,
}
use funding_tool.Web.Ranges.{check_range}

pub record BacktestRequest : Type 0 where
  pub symbol : String
  pub side : Side
  pub start : DateTime
  pub end : DateTime
  pub size_mode : SizeMode
  pub size : Option Decimal

pub record FundingPaymentOut : Type 0 where
  pub timestamp : DateTime
  pub rate : Decimal
  pub mark_price : Decimal
  pub quantity_base : Decimal
  pub notional_quote : Decimal
  pub payment_quote : Decimal

pub record BacktestResponse : Type 0 where
  pub event_count : ℕ
  pub total_quote : Option Decimal
  pub total_base : Option Decimal
  pub cumulative_rate_pct : Decimal
  pub avg_rate_pct : Decimal
  pub annualized_pct : Decimal
  pub payments : List FundingPaymentOut

unfoldable pub funding_payment_out : FundingPayment → FundingPaymentOut
funding_payment_out p = record {
  timestamp = p.event.timestamp;
  rate = p.event.rate;
  mark_price = p.event.mark_price;
  quantity_base = p.quantity_base;
  notional_quote = p.notional_quote;
  payment_quote = p.payment_quote;
}

unfoldable pub to_backtest_response : BacktestResult → BacktestResponse
to_backtest_response r = record {
  event_count = r.event_count;
  total_quote = r.total_quote;
  total_base = r.total_base;
  cumulative_rate_pct = r.cumulative_rate_pct;
  avg_rate_pct = mul r.avg_rate (from_nat 100);
  annualized_pct = mul r.apr (from_nat 100);
  payments = map funding_payment_out r.payments;
}

unfoldable pub input_of : BacktestRequest → BacktestInput
input_of body = record {
  symbol = body.symbol;
  side = body.side;
  start = body.start;
  end = body.end;
  size_mode = body.size_mode;
  size = body.size;
}

-- run_backtest under wait_for: what it awaits is the fetch, which follows the validation.
unfoldable pub awaited_backtest :
    BacktestInput → Awaited (List FundingEvent) → Awaited BacktestResult
awaited_backtest inp (answered fetch) = answered (run_backtest inp fetch)
awaited_backtest inp timed_out = elim (validate inp) [ err e ↦ answered (err e) | ok u ↦ timed_out ]

unfoldable pub backtest_answer : Awaited BacktestResult → Handled BacktestResponse
backtest_answer timed_out = failed (http 502 (coded WebCode.network_error none))
backtest_answer (answered (err e)) = failed (raised e)
backtest_answer (answered (ok result)) = returned (to_backtest_response result)

unfoldable pub backtest : BacktestRequest → Awaited (List FundingEvent) → Handled BacktestResponse
backtest body fetch =
    and_then (check_range 730 body.start body.end)
      λ u. backtest_answer (awaited_backtest (input_of body) fetch)
