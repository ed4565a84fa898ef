-- ===== src/Lib.antt =====
-- Verification of funding-tool, a tool that backtests funding payments of perpetual futures and
-- aggregates the funding history of an account. Paths are from the repository's root.
--
-- The parts, and the files that model them:
--   Errors: src/funding_tool/core/errors.py. Exceptions are values, and code that may raise returns
--     a Result. Messages are left out.
--   Decimal, Rounding: decimal.Decimal of Python in its default context, with 28 digits and ties to
--     even, without limits on the exponent. Decimal/Format is format(d, "f"), also with places and a
--     sign. Text has the texts of numbers.
--   Time: to_ms and from_ms of src/funding_tool/infra/time_util.py. Instants are microseconds since
--     the epoch, and the conversions go through doubles with a 53-bit mantissa, as in Python.
--   Models: src/funding_tool/core/models.py.
--   Backtest: src/funding_tool/core/backtest.py, run_backtest with its parts; the events, or the
--     error, of the exchange are its argument.
--   Cache: src/funding_tool/core/cache.py. The table funding_rates is the list of its rows; put,
--     get, missing_ranges and clear are functions of it, and Cache/Stats is stats. `str` and
--     `decimal`, the text of a decimal and its reading, are parameters.
--   Paging, Binance: src/funding_tool/core/exchanges/binance_usdm.py. The answers of the server are
--     the fields of Api. Binance/Rates is fetch_funding_rates with its parts, and Binance/Funding is
--     fetch_funding_income. fetch_funding_rates takes the cache's table and returns the one after it;
--     Binance/Repeated is about a request that is repeated.
--   Http: src/funding_tool/infra/http.py, get_json with its retries. The network is a function from
--     the number of the request to what came back, and the pauses are listed.
--   Auth: src/funding_tool/web/auth.py, the lockout of AuthVerifier. The entries are a list, the
--     oldest first; the test of the password against the hash is a parameter.
--   Binance/Permissions: verify_credentials of binance_usdm.py.
--   Accounts: src/funding_tool/core/account_store.py, with resolve_credentials in Accounts/Resolve.
--     The index of accounts is an association list, and the keyring a record of three operations on a
--     state of any type. Accounts/Files is _load and _save: the file of the index and its temporary
--     file, with YAML as a parameter.
--   Regex, Log: src/funding_tool/infra/log.py, the scrubber of messages, its filter and get_logger.
--     Texts are lists of code points, and the patterns are matched with backtracking as in re.
--   Binance/Signing: the texts of the signed requests of binance_usdm.py and sign_query of
--     _binance_sign.py; HMAC-SHA256 and the clock are arguments.
--   History: src/funding_tool/core/account.py, run_account_history; the name of a month is a
--     parameter.
--   WebErrors: src/funding_tool/web/errors.py, map_core_exception and safe_field.
--   Tasks: src/funding_tool/web/tasks.py. The manager is its status in memory and its files; a
--     restart keeps the files.
--   Vault: src/funding_tool/web/secret_store.py. The tables are lists, and AES-GCM is a parameter.
--     Vault/Listing is list_accounts.
--   Csrf: src/funding_tool/web/csrf.py, CsrfGuard and its verify on tokens of ASCII; urlparse is a
--     parameter.
--   Audit: src/funding_tool/web/audit.py, AuditLogger.log up to the writing of the line.
--   Web: src/funding_tool/web/dependencies.py and the exception handlers of
--     src/funding_tool/web/main.py; an answer is a value or an error with its status and code.
--     Web/Startup: web/config.py, and lifespan of web/main.py without its log, its cache and its
--     folders.
--     Web/AccountsApi, Web/HistoryApi, Web/BacktestApi, Web/Symbols: the files accounts.py,
--     history.py, backtest.py and meta.py of src/funding_tool/web/routes, with the models of
--     web/models.py. Web/Guards has extract_client_ip of web/auth.py and puts a handler behind its
--     dependencies; Web/BacktestApi/Fetched composes the route with run_backtest, the pages and the
--     cache. What the exchange answers, the clock and the random texts are arguments, and what
--     pydantic writes and reads of a payload is a parameter.
--   Cli: src/funding_tool/cli, the commands of account_cmd.py, history_cmd.py, backtest_cmd.py and
--     cache_cmd.py, the exit code of __main__.py and the CSV rows of output.py, whose tables
--     are Cli/Tables and whose JSON, as a tree, is Cli/Json. Cli/Reports is what the commands of
--     backtests and histories write of their results. Time/Parse is parse_user_datetime, over the
--     parsers of the standard library.
--   Tests: the theorems at concrete inputs.
--
-- Loops without a bound in the code run on fuel: fetch_pages gets one round more than the window has
-- milliseconds, since each page but the last moves the cursor; _iter_income_pages two more, since it
-- asks once behind the end of the window, and any number of further rounds, which a server needs that
-- answers with items behind it; the loop over the 7-day windows one more than the range has
-- microseconds. Running out is the error fuel_exhausted.
--
-- Not modelled: what the commands of accounts and of the cache print, the texts of messages, the
-- checks that pydantic makes of the fields but for those of a new account, the route that issues a
-- CSRF token, the handlers of logs, the files of the tables of the secret store and of the cache, and the frontend.
-- Concurrent calls of one object are not modelled: a call runs to its end. Decimals have no limit on
-- the exponent: Overflow and subnormal numbers are left out, and theorems that promise the result of a
-- backtest ask for moderate numbers.
mod Prelude
pub mod Errors
pub mod Rounding
pub mod Decimal
pub mod Time
pub mod Models
pub mod Backtest
pub mod Cache
pub mod Http
pub mod Audit
pub mod Auth
pub mod Accounts
pub mod History
pub mod Log
pub mod Regex
pub mod WebErrors
pub mod Web
pub mod Tasks
pub mod Text
pub mod Vault
pub mod Cli
pub mod Csrf
pub mod Paging
pub mod Binance
mod Tests
