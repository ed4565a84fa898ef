-- ===== src/Cli.antt =====
-- The command line: how a command ends, and main of cli/__main__.py. What is
-- printed of accounts and of the cache is left out.
pub mod AccountCmd
pub mod BacktestCmd
pub mod CacheCmd
pub mod HistoryCmd
pub mod Json
pub mod Output
pub mod Reports
pub mod Tables
use funding_tool.Prelude.{ℕ, Bool, true, false, if◌then◌else◌}
use funding_tool.Errors.{Error, Result, ok, err}

-- A value, typer.Exit(1), typer.BadParameter, or another exception.
pub data Ended (A : Type 0) : Type 0 where
  done : A → Ended A
  exited usage_error : Ended A
  raised : Error → Ended A

unfoldable pub ended_with : {A : Type 0} → Result A → Ended A
ended_with (ok a) = done a
ended_with (err e) = raised e

unfoldable pub next : {A B : Type 0} → Ended A → (A → Ended B) → Ended B
next (done a) f = f a
next exited f = exited
next usage_error f = usage_error
next (raised e) f = raised e

-- The subclasses of FundingToolError.
unfoldable pub is_funding_tool_error : Error → Bool
is_funding_tool_error Error.validation_error = true
is_funding_tool_error Error.unknown_symbol_error = true
is_funding_tool_error Error.authentication_error = true
is_funding_tool_error Error.missing_credentials_error = true
is_funding_tool_error Error.rate_limit_error = true
is_funding_tool_error Error.exchange_error = true
is_funding_tool_error Error.network_error = true
is_funding_tool_error Error.cache_corruption_error = true
is_funding_tool_error Error.config_error = true
is_funding_tool_error Error.plaintext_fallback_required = true
is_funding_tool_error _ = false

-- What main leaves: an exit code, or an exception that it does not catch.
pub data Left : Type 0 where
  exit_code : ℕ → Left
  uncaught : Error → Left

unfoldable pub main : {A : Type 0} → Ended A → Left
main (done a) = exit_code 0
main exited = exit_code 1
main usage_error = exit_code 2
main (raised e) = if is_funding_tool_error e then exit_code 1 else uncaught e
