-- ===== src/Tests/WebRoutes.antt =====
-- The handlers of the web application, its start, and the dependencies of its routes.
use funding_tool.Prelude.{
  ℕ, ◌==◌, ◌≡◌, refl, true, false, str_eq, if◌then◌else◌, String, Option, none, some, List, [], ◌∷◌,
  arith,
}
use funding_tool.Errors.{ok, err, network_error, runtime_error}
use funding_tool.Models.{PermissionReport}
use funding_tool.Vault.{Cipher, Plaintext, canary_text, Tables, seal, find_row, get_credentials}
use funding_tool.Vault.Access.{IsCipher}
use funding_tool.Vault.Unique.{HasUniqueNames}
use funding_tool.Csrf
use funding_tool.Auth.{
  check_password_hash, not_basic, decoded, verify, user, find, or_fresh, accepts, both_ok,
  partition,
}
use funding_tool.Auth.Expiry.{Waits, nothing, own, IsDue, verify-Waits}
use funding_tool.Web.{answered}
use funding_tool.Web.AccountsApi.{AccountCreateRequest}
use funding_tool.Web.AccountsApi.Fields.{
  fields_ok, has_length, len, matches_name, all_name_chars, is_name_char,
}
use funding_tool.Web.AccountsApi.Expected.{
  AccountRequest, create, remove, handle_all, expect_all, view, secret_of,
}
use funding_tool.Web.AccountsApi.Refines.{handle_all_refines}
use funding_tool.Web.Startup.{App, Settings, configured, guards, startup}
use funding_tool.Web.Startup
use funding_tool.Web.Startup.Canary.{startup-fresh, startup-other_key}
use funding_tool.Tests.Stores.{cipher, cipher-IsCipher, keys, one_row}
use funding_tool.Tests.Access.{config, checks, locked_table}

abbrev payload : AccountCreateRequest
payload = record { name = "other"; label = "second"; api_key = "abcdef12"; api_secret = "secret34" }

payload_fields : fields_ok payload ≡ true
unfolding fields_ok has_length len matches_name all_name_chars is_name_char
payload_fields = refl

-- A name with a slash is refused.
slash_refused : fields_ok (record payload { name = "a/b" }) ≡ false
unfolding fields_ok has_length len matches_name all_name_chars is_name_char
slash_refused = refl

abbrev report : PermissionReport
report = record {
  read_ok = true;
  trading_enabled = some false;
  withdrawals_enabled = none;
  spot_trading_enabled = none;
}

abbrev requests : List (AccountRequest ℕ)
requests =
    create payload (answered (err network_error)) "2026-01-02" "2026-01-02" 6
    ∷ create payload (answered (ok report)) "2026-01-02" "2026-01-02" 7
    ∷ create payload (answered (ok report)) "2026-01-03" "2026-01-03" 8
    ∷ remove "main"
    ∷ remove "main"
    ∷ []

handle_all_refines_example :
    let (answers, t') = handle_all cipher keys (str_eq "") requests one_row in
    let (expected, left) = expect_all (str_eq "") requests (view cipher keys (str_eq "") one_row) in
    HasUniqueNames t'.accounts
    × (answers ≡ expected)
    × (view cipher keys (str_eq "") t' ≡ left)
    × ((name : String) → get_credentials cipher keys name t' ≡ secret_of (left name))
unfolding HasUniqueNames find_row
handle_all_refines_example =
    handle_all_refines cipher cipher-IsCipher keys (str_eq "") requests one_row (refl, tt)

-- A cipher that knows the key of a text.
abbrev tagged : Cipher ℕ ℕ (ℕ × Plaintext)
tagged = record {
  encrypt = λ k n p. (k, p);
  decrypt = λ k n c. if k == c.0 then ok c.1 else err runtime_error;
}

tagged-IsCipher : IsCipher tagged
tagged-IsCipher = record { decrypt_encrypt = λ k n p. ground arith }

abbrev env : String → Option String
env name =
    if str_eq name "FUNDING_PUBLIC_ORIGIN"
    then some "https://example.org/"
    else if str_eq name "FUNDING_AUTH_PASSWORD_HASH"
    then some "$2b$12$abc"
    else some "x"

abbrev parse_url : String → Option Csrf.Url
parse_url s = some (record { scheme = "https"; netloc = "example.org"; path = "" })

abbrev read_first : String → String → Option ℕ
read_first dir name = if str_eq name "master_key" then some 11 else none

abbrev read_rotated : String → String → Option ℕ
read_rotated dir name = if str_eq name "master_key" then some 22 else some 11

abbrev settings : Settings
settings = record {
  public_origin = "https://example.org";
  auth_user = "x";
  auth_password_hash = "$2b$12$abc";
  db_path = "x";
  audit_log_path = "x";
  tasks_dir = "x";
  bind_host = "127.0.0.1";
  bind_port = 8001;
}

abbrev size : ℕ → ℕ
size k = 32

abbrev first_app : App size
first_app = record { settings = settings; keys = record { master = 11; prev = none; active = 1 } }

abbrev rotated_app : App size
rotated_app = record {
  settings = settings;
  keys = record { master = 22; prev = some 11; active = 1 };
}

abbrev no_rows : Tables ℕ (ℕ × Plaintext)
no_rows = record { accounts = []; canary = none }

first_configured : configured size env read_first ≡ ok first_app
unfolding configured Startup.load_settings Startup.required Startup.load_master_key
    Startup.set_variable Startup.active_key Startup.prev_key Startup.sized Csrf.rstrip_slash
    Csrf.guard_for Csrf.starts_with
first_configured = refl

first_guards : guards parse_url settings ≡ ok tt
unfolding guards check_password_hash Csrf.csrf_guard Csrf.starts_with Csrf.rstrip_slash
    Csrf.guard_for
first_guards = refl

rotated_configured : configured size env read_rotated ≡ ok rotated_app
unfolding configured Startup.load_settings Startup.required Startup.load_master_key
    Startup.set_variable Startup.active_key Startup.prev_key Startup.sized Csrf.rstrip_slash
    Csrf.guard_for Csrf.starts_with
rotated_configured = refl

startup-fresh_example :
    let t' = record no_rows { canary = some (seal tagged first_app.keys 5 canary_text) } in
    (startup size tagged parse_url env read_first 5 no_rows ≡ (ok first_app, t'))
    × (startup size tagged parse_url env read_first 6 t' ≡ (ok first_app, t'))
startup-fresh_example =
    startup-fresh size tagged tagged-IsCipher parse_url env read_first first_app no_rows
      first_configured first_guards refl 5 6

startup-other_key_example :
    let t' = (startup size tagged parse_url env read_first 5 no_rows).1 in
    startup size tagged parse_url env read_rotated 6 t' ≡ (err runtime_error, t')
startup-other_key_example =
    startup-other_key size tagged tagged-IsCipher parse_url env env read_first read_rotated
      first_app rotated_app no_rows runtime_error first_configured rotated_configured refl 5 6 refl

waited :
    Waits checks config "10.0.0.1" locked_table
      (verify checks config "10.0.0.1" not_basic 300 301 locked_table).1
unfolding or_fresh find
waited = own locked_table locked_table not_basic 300 301 (nothing locked_table) (omega arith)

verify-Waits_example :
    (verify checks config "10.0.0.1"
      (decoded "admin:secret")
      400
      401
      (verify checks config "10.0.0.1" not_basic 300 301 locked_table).1).0
    ≡ user "admin"
unfolding IsDue accepts both_ok partition
verify-Waits_example =
    verify-Waits checks config "10.0.0.1" 400 locked_table
      (verify checks config "10.0.0.1" not_basic 300 301 locked_table).1 (decoded "admin:secret")
      400 401 ((λ e. omega arith), tt) waited (omega arith) refl
