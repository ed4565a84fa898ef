-- ===== src/Accounts/Resolve.antt =====
-- resolve_credentials of core/account_store.py: the sources of credentials in their order.
use funding_tool.Prelude.{Bool, false, not, str_eq, if◌then◌else◌, String, Option, none, some}
use funding_tool.Errors.{Result, ok, err, config_error, missing_credentials_error}
use funding_tool.Models.{ApiCredentials}
use funding_tool.Accounts.{Keyring, Store, get_credentials}

-- bool(x) of an optional text
unfoldable pub given : Option String → Bool
given none = false
given (some s) = not (str_eq s "")

unfoldable pub text_of : Option String → String
text_of none = ""
text_of (some s) = s

-- A key and a secret from one source: a half of them is an error, and without both the next source
-- is asked.
unfoldable pub pair_or :
    Option String → Option String → Result ApiCredentials → Result ApiCredentials
pair_or key secret next =
    if given key
    then if given secret
      then ok (record { api_key = text_of key; api_secret = text_of secret; passphrase = none })
      else err config_error
    else if given secret
    then err config_error
    else next

-- The credentials of a name, where one is given.
unfoldable pub named_or :
    (String → Result ApiCredentials) → Option String → Result ApiCredentials → Result ApiCredentials
named_or lookup name next = if given name then lookup (text_of name) else next

-- `env_key` and `env_secret` are BINANCE_API_KEY and BINANCE_API_SECRET.
unfoldable pub resolve_credentials :
    {K : Type 0}
    → Keyring K
    → Store K
    → Option String
    → Option String
    → Option String
    → Option String
    → Option String
    → Result ApiCredentials
resolve_credentials kr st cli_key cli_secret env_key env_secret account_name =
    let lookup : String → Result ApiCredentials = λ name. get_credentials kr name st in
    pair_or cli_key cli_secret (
      pair_or env_key env_secret
        (named_or lookup account_name (named_or lookup st.default (err missing_credentials_error))))
