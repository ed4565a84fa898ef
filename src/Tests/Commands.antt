-- ===== src/Tests/Commands.antt =====
-- The commands of the command line, and the lines of the audit log.
use funding_tool.Prelude.{
  ℕ, length, eq_iff, ◌≡◌, ◌≢◌, ◌⊎◌, refl, true, false, str_eq, if◌then◌else◌, String, Option, none,
  some, List, [], ◌∷◌, arith,
}
use funding_tool.Errors.{Error, Result, ok, err, value_error}
use funding_tool.Decimal.{Decimal, from_nat}
use funding_tool.Models.{ApiCredentials, PermissionReport, BacktestInput, FundingEvent}
use funding_tool.Time.{DateTime}
use funding_tool.Time.Parse.{Parsers}
use funding_tool.Cache.{Row}
use funding_tool.Cache.Stats.{
  stats, groups, add_row, in_group, with_row, is_before, group_of, stat_of,
}
use funding_tool.Cli.CacheCmd.{cache_info, cache_clear, rows_for, cache_clear-counts}
use funding_tool.Cli.{done}
use funding_tool.Cli.AccountCmd.{AddOptions, Typed, credentials_of, account_add}
use funding_tool.Cli.AccountCmd.Outcomes.{IsLeft}
use funding_tool.Cli.AccountCmd.Safety.{IsStored, account_add-IsStored}
use funding_tool.Cli.HistoryCmd.{HistoryOptions, Environment}
use funding_tool.Cli.BacktestCmd.{BacktestOptions}
use funding_tool.Audit.{Entry, Scalar, text, flag, scalar, success, log}
use funding_tool.Audit.Lines.{find, HasKeys, IsLine, IsRefused, log-IsLine}
use funding_tool.Tests.Stores.{keyring, empty}
use funding_tool.Tests.Rates.{two_events}

abbrev options : AddOptions
options = record {
  name = "main";
  api_key = some "abcdef12";
  api_secret = none;
  exchange = "binance_usdm";
  skip_verify = false;
}

abbrev typed : Typed
typed = record {
  api_key = "";
  api_secret = "secret34";
  confirm = false;
  created_at = "2026-01-01";
  verified_at = "2026-01-01";
}

abbrev verify : ApiCredentials → Result PermissionReport
verify c = ok (record {
  read_ok = true;
  trading_enabled = none;
  withdrawals_enabled = none;
  spot_trading_enabled = none;
})

account_add-IsStored_example :
    (((account_add keyring options typed verify empty).0 ≡ done tt)
      × IsStored keyring options typed verify empty
          (account_add keyring options typed verify empty).1)
    ⊎ (((account_add keyring options typed verify empty).0 ≢ done tt)
        × ((x : Error) × IsLeft keyring options.name
              (credentials_of options typed)
              empty
              x
              (account_add keyring options typed verify empty).1))
account_add-IsStored_example =
    account_add-IsStored keyring options typed verify empty (λ k service username value x e. cc)

abbrev history_options : HistoryOptions
history_options = record {
  start = "2026-01-01";
  end = "now";
  account = none;
  api_key = none;
  api_secret = none;
  symbol = none;
  exchange = "binance_usdm";
}

abbrev half_set : Environment
half_set = record { key = some "abcdef12"; secret = none }

abbrev parsers : Parsers
parsers = record {
  strip = λ s. s;
  lower = λ s. s;
  strptime = λ s. if str_eq s "2026-01-01" then some 1767225600000000 else none;
  fromisoformat = λ s. none;
}

abbrev upper : String → String
upper s = s

abbrev decimal : String → Option Decimal
decimal s = if str_eq s "1" then some (from_nat 1) else none

abbrev fetch : BacktestInput → Result (List FundingEvent)
fetch inp = ok two_events

abbrev backtest_options : BacktestOptions
backtest_options = record {
  symbol = "BTCUSDT";
  side = "LONG";
  start = "2026-01-01";
  size_mode = "BASE";
  end = "now";
  size = some "1";
  exchange = "binance_usdm";
}

abbrev first_day : DateTime
first_day = record { us = 1767225600000000; aware = true }

abbrev today : DateTime
today = record { us = 1767312000000000; aware = true }

abbrev entry : Entry
entry = record {
  action = "login";
  ip = "10.0.0.1";
  user = some "admin";
  result = success;
  target = none;
  error_code = none;
  error_id = none;
  extras = ("days", scalar (text "7")) ∷ ("cached", scalar (flag true)) ∷ [];
}

log-IsLine_example :
    ((line : List (String × Scalar)) × (log "2026-01-01" entry ≡ ok line)
      × IsLine "2026-01-01" entry line)
    ⊎ ((log "2026-01-01" entry ≡ err value_error) × IsRefused entry.extras)
unfolding HasKeys find
log-IsLine_example = log-IsLine "2026-01-01" entry (refl, (refl, tt))

abbrev cached_row : String → ℕ → Row Decimal
cached_row symbol ms = record {
  exchange = "binance_usdm";
  symbol = symbol;
  funding_ms = ms;
  rate = from_nat 1;
  mark_price = from_nat 2;
  interval_h = 8;
  fetched_at = 0;
}

abbrev cached_rows : List (Row Decimal)
cached_rows =
    cached_row "ETHUSDT" 1767225600000
    ∷ cached_row "BTCUSDT" 1767225600000
    ∷ cached_row "ETHUSDT" 1767254400000
    ∷ []

abbrev iso_date : DateTime → String
iso_date dt = ""

two_lines : length (cache_info iso_date cached_rows).0 ≡ 2
unfolding cache_info stats groups add_row in_group with_row is_before group_of stat_of
two_lines = refl

cache_clear-counts_example :
    ((cache_info iso_date cached_rows).1 ≡ 3)
    × (cache_clear upper none cached_rows ≡ ([], (cache_info iso_date cached_rows).1))
    × ((cache_clear upper (some "ETHUSDT") cached_rows).1
        ≡ rows_for "ETHUSDT" (cache_info iso_date cached_rows).0)
cache_clear-counts_example =
    cache_clear-counts iso_date upper "ETHUSDT" cached_rows
      (λ e. ground (arith, eq_iff "ETHUSDT" "", e)) (λ e. ground (arith, eq_iff "ETHUSDT" "", e))
