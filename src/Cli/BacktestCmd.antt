-- ===== src/Cli/BacktestCmd.antt =====
-- cli/backtest_cmd.py: a backtest from the texts of the command line. `upper` is str.upper, and
-- `decimal` reads a finite number, where the text is one; the texts of NaN and of infinities are left
-- out.
pub mod Accepted
use funding_tool.Prelude.{ℕ, str_eq, if◌then◌else◌, String, Option, none, some, List}
use funding_tool.Errors.{Result, ok, err, ◌>>=◌, ◌>>◌}
use funding_tool.Decimal.{Decimal}
use funding_tool.Models.{
  FundingEvent, Side, long, short, SizeMode, base, quote, rate_only, BacktestInput, BacktestResult,
}
use funding_tool.Time.{DateTime}
use funding_tool.Time.Parse.{Parsers, parse_user_datetime}
use funding_tool.Backtest.{run_backtest}
use funding_tool.Cli.{Ended, done, usage_error, ended_with, next}
use funding_tool.Cli.HistoryCmd.{get_exchange}

pub record BacktestOptions : Type 0 where
  pub symbol : String
  pub side : String
  pub start : String
  pub size_mode : String
  pub end : String
  pub size : Option String
  pub exchange : String

unfoldable pub side_of : String → Ended Side
side_of side_u =
    if str_eq side_u "LONG"
    then done long
    else if str_eq side_u "SHORT"
    then done short
    else usage_error

unfoldable pub mode_of : String → Ended SizeMode
mode_of mode_u =
    if str_eq mode_u "BASE"
    then done base
    else if str_eq mode_u "QUOTE"
    then done quote
    else if str_eq mode_u "RATE_ONLY"
    then done rate_only
    else usage_error

-- Decimal(size), with its exceptions caught
unfoldable pub number : Option Decimal → Ended (Option Decimal)
number none = usage_error
number (some d) = done (some d)

unfoldable pub given_size : (String → Option Decimal) → Option String → Ended (Option Decimal)
given_size decimal none = usage_error
given_size decimal (some s) = number (decimal s)

unfoldable pub size_of :
    (String → Option Decimal) → SizeMode → Option String → Ended (Option Decimal)
size_of decimal rate_only size = done none
size_of decimal base size = given_size decimal size
size_of decimal quote size = given_size decimal size

unfoldable pub input_from :
    (String → String)
    → BacktestOptions
    → Side
    → SizeMode
    → Option Decimal
    → DateTime
    → DateTime
    → BacktestInput
input_from upper o side mode size start end = record {
  symbol = upper o.symbol;
  side = side;
  start = start;
  end = end;
  size_mode = mode;
  size = size;
}

-- `fetch` is what the exchange answers to fetch_funding_rates for the symbol and window of an input.
unfoldable pub backtest_command :
    Parsers
    → ℕ
    → ℕ
    → (String → String)
    → (String → Option Decimal)
    → (BacktestInput → Result (List FundingEvent))
    → BacktestOptions
    → Ended BacktestResult
backtest_command p start_clock end_clock upper decimal fetch o =
    next (side_of (upper o.side)) λ side. next (mode_of (upper o.size_mode)) λ mode.
      next (size_of decimal mode o.size) λ size. ended_with (
        parse_user_datetime p start_clock o.start >>= λ start.
        parse_user_datetime p end_clock o.end >>= λ end.
        get_exchange o.exchange
        >> run_backtest (input_from upper o side mode size start end)
            (fetch (input_from upper o side mode size start end)))
