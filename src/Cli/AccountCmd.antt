-- ===== src/Cli/AccountCmd.antt =====
-- cli/account_cmd.py: the commands on accounts. `verify` is what the exchange answers to credentials,
-- and `confirm` the answer to the question whether to store them in plain text.
pub mod Outcomes
pub mod Safety
use funding_tool.Prelude.{
  Bool, true, false, str_eq, if◌then◌else◌, String, Option, none, some, List, [], ◌∷◌, ◌++◌,
}
use funding_tool.Errors.{Error, Result, ok, err, ◌>>=◌}
use funding_tool.Models.{ApiCredentials, PermissionReport}
use funding_tool.Accounts.{Keyring, Account, Store, add, remove, set_default, get_credentials}
use funding_tool.Accounts.Resolve.{given, text_of}
use funding_tool.Cli.{Ended, done, exited, raised, ended_with}

pub data Warning : Type 0 where
  trading_warning withdrawals_danger spot_trading_warning : Warning

-- bool(x) of a flag that may not be known
unfoldable pub is_set : Option Bool → Bool
is_set none = false
is_set (some b) = b

-- _warn_about_permissions
unfoldable pub warnings : PermissionReport → List Warning
warnings r =
    (if is_set r.trading_enabled then trading_warning ∷ [] else [])
    ++ (if is_set r.withdrawals_enabled then withdrawals_danger ∷ [] else [])
    ++ (if is_set r.spot_trading_enabled then spot_trading_warning ∷ [] else [])

-- An option, or what is typed when it is asked for.
unfoldable pub or_prompt : Option String → String → String
or_prompt o typed = if given o then text_of o else typed

pub record AddOptions : Type 0 where
  pub name : String
  pub api_key : Option String
  pub api_secret : Option String
  pub exchange : String
  pub skip_verify : Bool

-- What is typed, and the texts of the clock's readings.
pub record Typed : Type 0 where
  pub api_key : String
  pub api_secret : String
  pub confirm : Bool
  pub created_at : String
  pub verified_at : String

unfoldable pub credentials_of : AddOptions → Typed → ApiCredentials
credentials_of o t = record {
  api_key = or_prompt o.api_key t.api_key;
  api_secret = or_prompt o.api_secret t.api_secret;
  passphrase = none;
}

-- `verified`, and the warnings that are printed.
unfoldable pub reported : Result PermissionReport → Ended (Bool × List Warning)
reported (err e) = exited
reported (ok report) = done (report.read_ok, warnings report)

unfoldable pub checked :
    Bool → (ApiCredentials → Result PermissionReport) → ApiCredentials → Ended (Bool × List Warning)
checked skip_verify verify creds =
    let live = reported (verify creds) in if skip_verify then done (false, []) else live

-- The time of the verification, if there was one.
unfoldable pub verified_at : Bool → String → Option String
verified_at verified now = if verified then some now else none

unfoldable pub is_fallback : Error → Bool
is_fallback Error.plaintext_fallback_required = true
is_fallback e = false

module _ {K : Type 0} (kr : Keyring K) where
  -- How a store.add ends, and how a change of the store does, or its exception with the store as it
  -- was.
  unfoldable pub ended_add : Result (Unit {0}) × Store K → Ended (Unit {0}) × Store K
  ended_add (ok u, st) = (done tt, st)
  ended_add (err e, st) = (raised e, st)

  unfoldable pub saved : Result (Store K) → Store K → Ended (Unit {0}) × Store K
  saved (ok st') st = (done tt, st')
  saved (err e) st = (raised e, st)

  -- except PlaintextFallbackRequired, around the first store.add; `again` is the second one.
  unfoldable pub stored :
      Bool
      → Result (Unit {0}) × Store K
      → (Store K → Result (Unit {0}) × Store K)
      → Ended (Unit {0}) × Store K
  stored confirm (ok u, st) again = (done tt, st)
  stored confirm (err e, st) again =
      let answer = ended_add (again st) in
      if is_fallback e then (if confirm then answer else (exited, st)) else (raised e, st)

  unfoldable pub account_add :
      AddOptions
      → Typed
      → (ApiCredentials → Result PermissionReport)
      → Store K
      → Ended (Unit {0}) × Store K
  account_add o t verify st =
      let creds = credentials_of o t in
      elim (checked o.skip_verify verify creds) [
        | done (verified, printed) ↦
            let at = verified_at verified t.verified_at in
            stored t.confirm (add kr o.name o.exchange creds t.created_at at false st)
              (add kr o.name o.exchange creds t.created_at at true)
        | exited ↦ (exited, st)
        | Ended.usage_error ↦ (Ended.usage_error, st)
        | raised e ↦ (raised e, st)
      ]

  unfoldable pub account_remove : String → Store K → Ended (Unit {0}) × Store K
  account_remove name st = saved (remove kr name st) st

  unfoldable pub account_use : String → Store K → Ended (Unit {0}) × Store K
  account_use name st = saved (set_default name st) st

  unfoldable pub tested : Result PermissionReport → Ended (Unit {0})
  tested (ok report) = done tt
  tested (err e) = exited

  unfoldable pub account_test :
      String → (ApiCredentials → Result PermissionReport) → Store K → Ended (Unit {0})
  account_test name verify st = elim (get_credentials kr name st) [
    | err e ↦ raised e
    | ok creds ↦ tested (verify creds)
  ]

-- A line of account_list: the marker of the default, and the account.
pub record AccountLine : Type 0 where
  pub marker : String
  pub name : String
  pub exchange : String
  pub created : String
  pub verified : String

-- `date` is strftime("%Y-%m-%d") of the datetime that a text in ISO format stands for, with the
-- ValueError of any other text.
unfoldable pub verified_text : (String → Result String) → Option String → Result String
verified_text date at = if given at then date (text_of at) else ok "-"

unfoldable pub marker_of : Option String → String → String
marker_of none name = ""
marker_of (some d) name = if str_eq name d then "*" else ""

unfoldable pub account_line :
    (String → Result String) → Option String → String × Account → Result AccountLine
account_line date default (name, a) = date a.created_at >>= λ created.
    verified_text date a.permissions_verified_at >>= λ verified. ok (record {
      marker = marker_of default name;
      name = name;
      exchange = a.exchange;
      created = created;
      verified = verified;
    })

unfoldable pub account_lines :
    (String → Result String) → Option String → List (String × Account) → Result (List AccountLine)
account_lines date default [] = ok []
account_lines date default (a ∷ as') =
    account_line date default a >>= λ l. account_lines date default as' >>= λ ls. ok (l ∷ ls)

unfoldable pub account_list :
    {K : Type 0} → (String → Result String) → Store K → Ended (List AccountLine)
account_list date st = ended_with (account_lines date st.default st.accounts)
