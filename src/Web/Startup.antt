-- ===== src/Web/Startup.antt =====
-- The start of the web application: web/config.py, and _load_master_key_from_credentials and
-- lifespan of web/main.py. `env` is os.environ, `read` gives the bytes of a file that exists, and
-- `size` their number; `parse` is urlparse.
pub mod Canary
use Prim.Native.Char.{code}
use funding_tool.Prelude.{
  ℕ, Bool, true, false, not, ◌&&◌, ◌==◌, str_eq, if◌then◌else◌, String, Option, none, some,
}
use funding_tool.Errors.{Result, ok, err, key_error, value_error, runtime_error, ◌>>=◌, ◌>>◌}
use funding_tool.Auth.{check_password_hash}
use funding_tool.Csrf.{Url, csrf_guard, starts_with, rstrip_slash}
use funding_tool.Vault.{Cipher, Keys, Tables, init_schema, verify_canary}

pub record Settings : Type 0 where
  pub public_origin : String
  pub auth_user : String
  pub auth_password_hash : String
  pub db_path : String
  pub audit_log_path : String
  pub tasks_dir : String
  pub bind_host : String
  pub bind_port : ℕ

-- _required
unfoldable pub required : (String → Option String) → String → Result String
required env name = elim (env name) [ none ↦ err key_error | some v ↦ ok v ]

unfoldable pub load_settings : (String → Option String) → Result Settings
load_settings env = required env "FUNDING_PUBLIC_ORIGIN" >>= λ public_origin.
    if not (starts_with "https://" public_origin)
    then err value_error
    else (required env "FUNDING_AUTH_USER" >>= λ auth_user.
        required env "FUNDING_AUTH_PASSWORD_HASH" >>= λ auth_password_hash.
        required env "FUNDING_DB_PATH" >>= λ db_path.
        required env "FUNDING_AUDIT_LOG_PATH" >>= λ audit_log_path.
        required env "FUNDING_TASKS_DIR" >>= λ tasks_dir. ok (record {
          public_origin = rstrip_slash public_origin;
          auth_user = auth_user;
          auth_password_hash = auth_password_hash;
          db_path = db_path;
          audit_log_path = audit_log_path;
          tasks_dir = tasks_dir;
          bind_host = "127.0.0.1";
          bind_port = 8001;
        }))

-- The verifier of passwords and the guard of the settings are made.
unfoldable pub guards : (String → Option Url) → Settings → Result (Unit {0})
guards parse settings =
    check_password_hash settings.auth_password_hash
    >> (csrf_guard parse settings.public_origin >>= λ guard. ok tt)

-- The value of a variable that is set and not empty.
unfoldable pub set_variable : Option String → Result String
set_variable none = err runtime_error
set_variable (some v) = if str_eq v "" then err runtime_error else ok v

module _ {Key : Type 0} (size : Key → ℕ) where
  -- A key of 32 bytes.
  unfoldable pub sized : Key → Result Key
  sized k = if size k == 32 then ok k else err runtime_error

  unfoldable pub active_key : Option Key → Result Key
  active_key none = err runtime_error
  active_key (some k) = sized k

  unfoldable pub prev_key : Option Key → Result (Option Key)
  prev_key none = ok none
  prev_key (some k) = sized k >>= λ k'. ok (some k')

  -- The keys, as SecretStore keeps them: the active one is version 1.
  unfoldable pub load_master_key :
      (String → Option String) → (String → String → Option Key) → Result (Keys Key)
  load_master_key env read = set_variable (env "CREDENTIALS_DIRECTORY") >>= λ dir.
      active_key (read dir "master_key") >>= λ active.
      prev_key (read dir "master_key_prev") >>= λ prev.
      ok (record { master = active; prev = prev; active = 1 })

  -- What the application runs with.
  pub record App : Type 0 where
    pub settings : Settings
    pub keys : Keys Key

  -- What is found before the database is opened.
  unfoldable pub configured : (String → Option String) → (String → String → Option Key) → Result App
  configured env read = load_settings env >>= λ settings.
      load_master_key env read >>= λ keys. ok (record { settings = settings; keys = keys })

  module _ {Nonce Code : Type 0} (cipher : Cipher Key Nonce Code)
      (parse : String → Option Url) where
    -- The schema stays when the canary, the hash of the password or the public origin is refused.
    unfoldable pub opened : Nonce → App → Tables Nonce Code → Result App × Tables Nonce Code
    opened nonce app t =
        let t' = init_schema cipher app.keys nonce t in
        ((verify_canary cipher app.keys t' >> (guards parse app.settings >> ok app)), t')

    -- lifespan, up to its yield, with the files of the audit log, the cache and the tasks left out
    unfoldable pub startup :
        (String → Option String)
        → (String → String → Option Key)
        → Nonce
        → Tables Nonce Code
        → Result App × Tables Nonce Code
    startup env read nonce t = elim (configured env read) [
      | err e ↦ (err e, t)
      | ok app ↦ opened nonce app t
    ]
