-- ===== src/Cli/BacktestCmd/Accepted.antt =====
-- What the command prints for options that it accepts.
use funding_tool.Prelude.{ℕ, ◌<◌, ◌≡◌, true, false, String, Option, none, some, List}
use funding_tool.Errors.{Result, ok}
use funding_tool.Decimal.{Decimal}
use funding_tool.Models.{
  FundingEvent, Side, long, short, SizeMode, base, quote, rate_only, BacktestInput,
}
use funding_tool.Time.{DateTime}
use funding_tool.Time.Parse.{Parsers, parse_user_datetime}
use funding_tool.Backtest.{needs_size, size_missing}
use funding_tool.Cli.BacktestCmd.{BacktestOptions}

-- The texts of the options.
abbrev side_name : Side → String
side_name long = "LONG"
side_name short = "SHORT"

abbrev mode_name : SizeMode → String
mode_name base = "BASE"
mode_name quote = "QUOTE"
mode_name rate_only = "RATE_ONLY"

-- A size is read where the mode uses one, and otherwise not looked at.
abbrev pub IsSize : (String → Option Decimal) → SizeMode → Option String → Option Decimal → Type 0
IsSize decimal rate_only given size = size ≡ none
IsSize decimal _ given size =
    (s : String) × (d : Decimal) × (given ≡ some s) × (decimal s ≡ some d) × (size ≡ some d)

module _ (p : Parsers) (start_clock end_clock : ℕ) (upper : String → String)
    (decimal : String → Option Decimal) (fetch : BacktestInput → Result (List FundingEvent))
    (o : BacktestOptions) where
  -- The options name this side, mode, size and window, and a backtest that is valid.
  pub record StandFor (side : Side) (mode : SizeMode) (size : Option Decimal) (start end : DateTime)
      : Type 0 where
    pub side_known : upper o.side ≡ side_name side
    pub mode_known : upper o.size_mode ≡ mode_name mode
    pub size_read : IsSize decimal mode o.size size
    pub start_read : parse_user_datetime p start_clock o.start ≡ ok start
    pub end_read : parse_user_datetime p end_clock o.end ≡ ok end
    pub ordered : start.us < end.us
    pub positive : needs_size mode ≡ true → size_missing size ≡ false
    pub exchange_known : o.exchange ≡ "binance_usdm"
