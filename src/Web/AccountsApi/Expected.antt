-- ===== src/Web/AccountsApi/Expected.antt =====
-- The accounts of the web application against what a client expects of them: a finite map from
-- names to accounts, without rows, order, nonces or ciphertexts.
use funding_tool.Prelude.{
  Bool, true, false, str_eq, if◌then◌else◌, String, Option, none, some, List, [], ◌∷◌,
}
use mathlib.Core.Option.{map as map_option}
use funding_tool.Errors.{Result, ok, err, key_error, ◌>>=◌}
use funding_tool.Models.{ApiCredentials, PermissionReport}
use funding_tool.Vault.{take_text, Cipher, Keys, VaultRow, Tables, find_row, unseal, credentials_in}
use funding_tool.WebErrors.{WebCode}
use funding_tool.Web.{Awaited, Handled, returned, failed, Response, coded, http, respond, Failure}
use funding_tool.Web.AccountsApi.{
  AccountCreateRequest, AccountPermissions, AccountOut, map_permission_report, verified,
  delete_account, create_account,
}

-- A request that changes the accounts, with what the exchange, the clock and the source of nonces
-- give meanwhile.
pub data AccountRequest (Nonce : Type 0) : Type 0 where
  create :
      AccountCreateRequest
      → Awaited PermissionReport
      → String
      → String
      → Nonce
      → AccountRequest Nonce
  remove : String → AccountRequest Nonce

-- The answers with a body, and those without one.
pub data AccountAnswer : Type 0 where
  account : Response AccountOut → AccountAnswer
  removal : Response (Unit {0}) → AccountAnswer

-- What a client knows of an account.
pub record Account : Type 0 where
  pub label : String
  pub created_at : String
  pub key_first6 : String
  pub permissions : AccountPermissions
  pub secret : Result ApiCredentials

unfoldable pub out_of : String → Account → AccountOut
out_of name a = record {
  name = name;
  label = a.label;
  created_at = a.created_at;
  key_first6 = a.key_first6;
  permissions = a.permissions;
}

unfoldable pub secret_of : Option Account → Result ApiCredentials
secret_of none = err key_error
secret_of (some a) = a.secret

-- The map of the client after an account is set or removed.
unfoldable pub assign :
    String → Option Account → (String → Option Account) → String → Option Account
assign name a f j = if str_eq name j then a else f j

unfoldable pub new_account : AccountCreateRequest → PermissionReport → String → Account
new_account p report now = record {
  label = p.label;
  created_at = now;
  key_first6 = take_text 6 p.api_key;
  permissions = map_permission_report report;
  secret = ok (record { api_key = p.api_key; api_secret = p.api_secret; passphrase = none });
}

abbrev pub conflict : Failure
conflict = http 409 (coded WebCode.validation_error (some "account_name"))

abbrev pub missing : Failure
missing = http 404 (coded WebCode.validation_error (some "account_name"))

unfoldable pub expect_new :
    Bool
    → AccountCreateRequest
    → PermissionReport
    → String
    → (String → Option Account)
    → Handled AccountOut × (String → Option Account)
expect_new true p report now f = (failed conflict, f)
expect_new false p report now f = elim (f p.name) [
  | some _ ↦ (failed conflict, f)
  | none ↦ (
    returned (out_of p.name (new_account p report now)),
    assign p.name (some (new_account p report now)) f,
  )
]

-- What a client expects of a request on the map.
unfoldable pub expect :
    {Nonce : Type 0}
    → (String → Bool)
    → AccountRequest Nonce
    → (String → Option Account)
    → AccountAnswer × (String → Option Account)
expect blank (create p v now checked_at nonce) f = elim (verified v) [
  | failed e ↦ (account (respond (failed e)), f)
  | returned report ↦
      let (answer, f') = expect_new (blank p.name) p report now f in (account (respond answer), f')
]
expect blank (remove name) f = elim (f name) [
  | none ↦ (removal (respond (failed missing)), f)
  | some _ ↦ (removal (respond (returned tt)), assign name none f)
]

unfoldable pub expect_all :
    {Nonce : Type 0}
    → (String → Bool)
    → List (AccountRequest Nonce)
    → (String → Option Account)
    → List AccountAnswer × (String → Option Account)
expect_all blank [] f = ([], f)
expect_all blank (r ∷ rs) f =
    let (answer, f') = expect blank r f in
    let (answers, last) = expect_all blank rs f' in (answer ∷ answers, last)

module _ {Key Nonce Code : Type 0} (cipher : Cipher Key Nonce Code) (keys : Keys Key)
    (blank : String → Bool) where
  -- The handlers, on the tables.
  unfoldable pub handle :
      AccountRequest Nonce → Tables Nonce Code → AccountAnswer × Tables Nonce Code
  handle (create p v now checked_at nonce) t =
      let (answer, t') = create_account cipher keys blank p v now checked_at nonce t in
      (account (respond answer), t')
  handle (remove name) t =
      let (answer, t') = delete_account name t in (removal (respond answer), t')

  unfoldable pub handle_all :
      List (AccountRequest Nonce) → Tables Nonce Code → List AccountAnswer × Tables Nonce Code
  handle_all [] t = ([], t)
  handle_all (r ∷ rs) t =
      let (answer, t') = handle r t in
      let (answers, last) = handle_all rs t' in (answer ∷ answers, last)

  unfoldable pub account_of : VaultRow Nonce Code → Account
  account_of r = record {
    label = r.label;
    created_at = r.created_at;
    key_first6 = r.key_first6;
    permissions = record { read = r.perm_read; trade = r.perm_trade; withdraw = r.perm_withdraw };
    secret = unseal cipher keys r.contents >>= credentials_in cipher keys;
  }

  -- The map that the tables stand for.
  unfoldable pub view : Tables Nonce Code → String → Option Account
  view t j = map_option account_of (find_row j t.accounts)
