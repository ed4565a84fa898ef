-- ===== src/Cli/HistoryCmd.antt =====
-- cli/history_cmd.py: the history of an account, and which credentials it is fetched with.
use funding_tool.Prelude.{
  ◌≡◌, ◌≢◌, ℕ, Bool, true, false, not, ◌&&◌, ◌||◌, str_eq, if◌then◌else◌, String, Option, none,
  some, List, arith,
}
use funding_tool.Errors.{
  Result, ok, err, config_error, missing_credentials_error, validation_error, ◌>>=◌, ◌>>◌,
}
use funding_tool.Models.{ApiCredentials, IncomeRecord, HistoryResult}
use funding_tool.Time.{DateTime}
use funding_tool.Time.Parse.{Parsers, parse_user_datetime}
use funding_tool.History.{run_account_history}
use funding_tool.Accounts.{Keyring, Store}
use funding_tool.Accounts.Resolve.{given, text_of, pair_or, named_or, resolve_credentials}
use funding_tool.Cli.{Ended, ended_with}

pub record HistoryOptions : Type 0 where
  pub start : String
  pub end : String
  pub account : Option String
  pub api_key : Option String
  pub api_secret : Option String
  pub symbol : Option String
  pub exchange : String

-- BINANCE_API_KEY and BINANCE_API_SECRET
pub record Environment : Type 0 where
  pub key : Option String
  pub secret : Option String

unfoldable pub is_none : Option String → Bool
is_none none = true
is_none (some s) = false

-- Whether the credentials are asked for.
unfoldable pub prompts : HistoryOptions → Environment → Option String → Bool
prompts o env default =
    not (given o.api_key || given o.api_secret)
    && not (given env.key && given env.secret)
    && is_none o.account
    && is_none default

-- get_exchange, of an exchange that is known
unfoldable pub get_exchange : String → Result (Unit {0})
get_exchange name = if str_eq name "binance_usdm" then ok tt else err validation_error

-- symbol.upper() if symbol else None
unfoldable pub upper_symbol : (String → String) → Option String → Option String
upper_symbol upper symbol = if given symbol then some (upper (text_of symbol)) else none

module _ {K : Type 0} (kr : Keyring K) where
  -- `typed` is what is entered when the credentials are asked for.
  unfoldable pub choose_credentials :
      HistoryOptions → Environment → ApiCredentials → Store K → Result ApiCredentials
  choose_credentials o env typed st =
      let resolved =
        resolve_credentials kr st o.api_key o.api_secret env.key env.secret o.account in
      if prompts o env st.default then ok typed else resolved

  -- `fetch` is what the exchange answers to fetch_funding_income for these credentials, range and
  -- symbol.
  unfoldable pub history_command :
      Parsers
      → ℕ
      → ℕ
      → (DateTime → String)
      → (String → String)
      → (ApiCredentials → DateTime → DateTime → Option String → Result (List IncomeRecord))
      → HistoryOptions
      → Environment
      → ApiCredentials
      → Store K
      → Ended HistoryResult
  history_command p start_clock end_clock month_of upper fetch o env typed st = ended_with (
      choose_credentials o env typed st >>= λ creds.
      parse_user_datetime p start_clock o.start >>= λ start.
      parse_user_datetime p end_clock o.end >>= λ end.
      get_exchange o.exchange
      >> run_account_history month_of start end
          (fetch creds start end (upper_symbol upper o.symbol)))

  -- Where the credentials are asked for, resolve_credentials would have found none: it would have
  -- failed with a MissingCredentialsError if neither of the two variables of the environment is set,
  -- and with a ConfigError if one of them is.
  pub prompts-resolve_credentials :
      (o : HistoryOptions) (env : Environment) (st : Store K)
      → prompts o env st.default ≡ true
      → let resolved =
          resolve_credentials kr st o.api_key o.api_secret env.key env.secret o.account in
        (given env.key ≡ given env.secret → resolved ≡ err missing_credentials_error)
        × (given env.key ≢ given env.secret → resolved ≡ err config_error)
  unfolding prompts resolve_credentials pair_or named_or is_none given
  prompts-resolve_credentials o env st h = (λ e. ground arith, λ e. ground arith)
