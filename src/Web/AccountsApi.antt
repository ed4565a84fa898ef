-- ===== src/Web/AccountsApi.antt =====
-- web/routes/accounts.py, with map_permission_report of web/models.py: the accounts of the web
-- application, and their verification at the exchange.
pub mod Expected
pub mod Fields
pub mod Creates
pub mod Refines
use funding_tool.Prelude.{
  ℕ, Bool, str_eq, if◌then◌else◌, String, Option, none, some, List, [], ◌∷◌, map,
}
use funding_tool.Errors.{Error, Result, ok, err}
use funding_tool.Models.{ApiCredentials, PermissionReport}
use funding_tool.Vault.{Cipher, Keys, Tables, add_account, update_permissions}
use funding_tool.Vault
use funding_tool.Vault.Listing.{AccountRecord}
use funding_tool.Vault.Listing
use funding_tool.WebErrors.{WebCode}
use funding_tool.Web.{
  Awaited, timed_out, answered, Failure, http, raised, coded, Handled, returned, failed,
}

pub record AccountCreateRequest : Type 0 where
  pub name : String
  pub label : String
  pub api_key : String
  pub api_secret : String

pub record AccountPermissions : Type 0 where
  pub read : Option Bool
  pub trade : Option Bool
  pub withdraw : Option Bool

pub record AccountOut : Type 0 where
  pub name : String
  pub label : String
  pub created_at : String
  pub key_first6 : String
  pub permissions : AccountPermissions

unfoldable pub map_permission_report : PermissionReport → AccountPermissions
map_permission_report r = record {
  read = some r.read_ok;
  trade = r.trading_enabled;
  withdraw = r.withdrawals_enabled;
}

-- _record_to_out
unfoldable pub record_to_out : AccountRecord → AccountOut
record_to_out r = record {
  name = r.name;
  label = r.label;
  created_at = r.created_at;
  key_first6 = r.key_first6;
  permissions = record { read = r.perm_read; trade = r.perm_trade; withdraw = r.perm_withdraw };
}

-- What follows verify_credentials.
unfoldable pub verified : Awaited PermissionReport → Handled PermissionReport
verified timed_out = failed (http 502 (coded WebCode.network_error none))
verified (answered (ok report)) = returned report
verified (answered (err Error.network_error)) = failed (http 502 (coded WebCode.network_error none))
verified (answered (err e)) = failed (raised e)

-- except ValueError, around add_account
unfoldable pub add_failure : Error → Failure
add_failure Error.value_error = http 409 (coded WebCode.validation_error (some "account_name"))
add_failure e = raised e

-- except KeyError, around delete_account
unfoldable pub delete_failure : Error → Failure
delete_failure Error.key_error = http 404 (coded WebCode.validation_error (some "account_name"))
delete_failure e = raised e

-- next(r for r in records if r.name == name)
unfoldable pub find_record : String → List AccountRecord → Option AccountRecord
find_record name [] = none
find_record name (r ∷ rs) = if str_eq r.name name then some r else find_record name rs

unfoldable pub created : Option AccountRecord → Handled AccountOut
created none = failed (http 500 (coded WebCode.server_error none))
created (some r) = returned (record_to_out r)

unfoldable pub list_accounts : {Nonce Code : Type 0} → Tables Nonce Code → List AccountOut
list_accounts t = map record_to_out (Listing.list_accounts t)

unfoldable pub delete_account :
    {Nonce Code : Type 0} → String → Tables Nonce Code → Handled (Unit {0}) × Tables Nonce Code
delete_account name t = elim (Vault.delete_account name t) [
  | ok t' ↦ (returned tt, t')
  | err e ↦ (failed (delete_failure e), t)
]

unfoldable pub credentials_of : AccountCreateRequest → ApiCredentials
credentials_of payload = record {
  api_key = payload.api_key;
  api_secret = payload.api_secret;
  passphrase = none;
}

module _ {Key Nonce Code : Type 0} (cipher : Cipher Key Nonce Code) (keys : Keys Key) where
  -- After the row is stored: the permissions are written back, and the answer is read from the list.
  unfoldable pub write_back :
      AccountCreateRequest
      → PermissionReport
      → String
      → Tables Nonce Code
      → Handled AccountOut × Tables Nonce Code
  write_back payload report checked_at t =
      let p = map_permission_report report in
      let t' = update_permissions payload.name p.read p.trade p.withdraw checked_at t in
      (created (find_record payload.name (Listing.list_accounts t')), t')

  -- The account is stored after its credentials are verified.
  unfoldable pub persist :
      (String → Bool)
      → AccountCreateRequest
      → PermissionReport
      → String
      → String
      → Nonce
      → Tables Nonce Code
      → Handled AccountOut × Tables Nonce Code
  persist blank payload report now checked_at nonce t =
      elim (add_account cipher keys blank payload.name payload.label (credentials_of payload) now
        nonce t) [
          | err e ↦ (failed (add_failure e), t)
          | ok t' ↦ write_back payload report checked_at t'
        ]

  unfoldable pub create_account :
      (String → Bool)
      → AccountCreateRequest
      → Awaited PermissionReport
      → String
      → String
      → Nonce
      → Tables Nonce Code
      → Handled AccountOut × Tables Nonce Code
  create_account blank payload v now checked_at nonce t = elim (verified v) [
    | failed f ↦ (failed f, t)
    | returned report ↦ persist blank payload report now checked_at nonce t
  ]
