-- ===== src/Accounts.antt =====
-- core/account_store.py: the accounts of the command line. The keyring is a backend of any kind with
-- three operations that may raise; its state is of any type `K`. What `_save` writes is the data
-- that the store holds, so the file is not modelled; an operation that raises saves nothing. A call of
-- the keyring that raises leaves it as it was; add has the keyring in its result where it raises.
pub mod Refs
pub mod Credentials
pub mod Files
pub mod Default
pub mod Resolve
use Prim.Native.Char.{Char, code}
use funding_tool.Prelude.{
  Bool, true, false, not, ◌&&◌, ◌||◌, ◌==◌, str_eq, if◌then◌else◌, String, Option, none, some, List,
  [], ◌∷◌, ◌++◌,
}
use funding_tool.Errors.{
  Result, ok, err, config_error, missing_credentials_error, plaintext_fallback_required,
  assertion_error, ◌>>=◌,
}
use funding_tool.Models.{ApiCredentials}

-- KeyringBackend
pub record Keyring (K : Type 0) : Type 0 where
  pub get_password : K → String → String → Result (Option String)
  pub set_password : K → String → String → String → Result K
  pub delete_password : K → String → String → Result K

-- api_key_ref and secret_ref, or api_key and api_secret of the plaintext fallback.
pub data Secrets : Type 0 where
  refs plain : String → String → Secrets

pub record Account : Type 0 where
  pub exchange : String
  pub created_at : String
  pub permissions_verified_at : Option String
  pub secrets : Secrets

-- self._data, and the state of the keyring.
pub record Store (K : Type 0) : Type 0 where
  pub default : Option String
  pub accounts : List (String × Account)
  pub keyring : K

unfoldable pub append : String → String → String
append String.[] t = t
append (String.◌∷◌ c s) t = String.◌∷◌ c (append s t)

abbrev pub is_colon : Char → Bool
is_colon c = code c == b':'

unfoldable pub has_colon : String → Bool
has_colon String.[] = false
has_colon (String.◌∷◌ c s) = is_colon c || has_colon s

-- body.rpartition(":"): what stands before the last colon, and behind it.
unfoldable pub rpartition : String → String × String
rpartition String.[] = ("", "")
rpartition (String.◌∷◌ c s) =
    let (before, behind) = rpartition s in
    if has_colon s
    then (String.◌∷◌ c before, behind)
    else if is_colon c
    then ("", s)
    else ("", String.◌∷◌ c s)

-- f"{_SERVICE_PREFIX}/{name}"
unfoldable pub service_of : String → String
service_of name = append "funding-tool/" name

unfoldable pub keyring_ref : String → String → String
keyring_ref name kind = append "keyring:" (append (service_of name) (append ":" kind))

-- The text behind a prefix.
unfoldable pub strip_prefix : String → String → Option String
strip_prefix String.[] s = some s
strip_prefix (String.◌∷◌ c p) String.[] = none
strip_prefix (String.◌∷◌ c p) (String.◌∷◌ d s) =
    let rest = strip_prefix p s in if code c == code d then rest else none

unfoldable pub parsed : Option String → Result (String × String)
parsed none = err assertion_error
parsed (some body) = ok (rpartition body)

unfoldable pub keyring_parse : String → Result (String × String)
keyring_parse ref = parsed (strip_prefix "keyring:" ref)

unfoldable pub find : String → List (String × Account) → Option Account
find name [] = none
find name ((n, a) ∷ as') = if str_eq n name then some a else find name as'

unfoldable pub without : String → List (String × Account) → List (String × Account)
without name [] = []
without name ((n, a) ∷ as') =
    let rest = without name as' in if str_eq n name then rest else (n, a) ∷ rest

unfoldable pub succeeds : {A : Type 0} → Result A → Bool
succeeds (ok a) = true
succeeds (err e) = false

-- contextlib.suppress(Exception)
unfoldable pub suppress : {K : Type 0} → K → Result K → K
suppress k (ok k') = k'
suppress k (err e) = k

-- The default after an account is added, and after one is removed.
unfoldable pub default_with : String → Option String → Option String
default_with name none = some name
default_with name (some d) = some d

unfoldable pub first_name : List (String × Account) → Option String
first_name [] = none
first_name ((n, a) ∷ as') = some n

unfoldable pub default_without : String → Option String → List (String × Account) → Option String
default_without name none remaining = none
default_without name (some d) remaining = if str_eq d name then first_name remaining else some d

unfoldable pub set_default : {K : Type 0} → String → Store K → Result (Store K)
set_default name st = elim (find name st.accounts) [
  | none ↦ err config_error
  | some a ↦ ok (record st { default = some name })
]

module _ {K : Type 0} (kr : Keyring K) where
  unfoldable pub keyring_available : K → Bool
  keyring_available k = succeeds (kr.get_password k "funding-tool" "__probe__")

  -- Behind the second set_password, and behind the first one.
  unfoldable pub after_secret : String → K → Result K → Result Secrets × K
  after_secret name k1 (ok k2) =
      (ok (refs (keyring_ref name "key") (keyring_ref name "secret")), k2)
  after_secret name k1 (err e) = (err e, k1)

  unfoldable pub after_key : String → ApiCredentials → K → Result K → Result Secrets × K
  after_key name c k (ok k1) =
      after_secret name k1 (kr.set_password k1 (service_of name) "secret" c.api_secret)
  after_key name c k (err e) = (err e, k)

  -- What an account keeps of its credentials, and the keyring behind it.
  unfoldable pub secrets_for : String → ApiCredentials → Bool → K → Result Secrets × K
  secrets_for name c allow_plaintext k =
      if keyring_available k
      then after_key name c k (kr.set_password k (service_of name) "key" c.api_key)
      else if not allow_plaintext
      then (err plaintext_fallback_required, k)
      else (ok (plain c.api_key c.api_secret), k)

  -- The store with a new account, once its secrets are kept.
  unfoldable pub entered :
      String → (Secrets → Account) → Store K → Result Secrets × K → Result (Unit {0}) × Store K
  entered name entry st (ok s, k) = (
    ok tt,
    record {
      default = default_with name st.default;
      accounts = st.accounts ++ (name, entry s) ∷ [];
      keyring = k;
    },
  )
  entered name entry st (err e, k) = (err e, record st { keyring = k })

  -- `created_at` and `verified_at` are the texts of the clock's readings.
  unfoldable pub add :
      String
      → String
      → ApiCredentials
      → String
      → Option String
      → Bool
      → Store K
      → Result (Unit {0}) × Store K
  add name exchange c created_at verified_at allow_plaintext st = elim (find name st.accounts) [
    | some a ↦ (err config_error, st)
    | none ↦
        entered name
          (λ s. record {
            exchange = exchange;
            created_at = created_at;
            permissions_verified_at = verified_at;
            secrets = s;
          })
          st (secrets_for name c allow_plaintext st.keyring)
  ]

  -- One reference of a removed account: an empty one is skipped.
  unfoldable pub delete_ref : String → K → Result K
  delete_ref ref k =
      if str_eq ref ""
      then ok k
      else (keyring_parse ref >>= λ r. ok (suppress k (kr.delete_password k r.0 r.1)))

  unfoldable pub delete_secrets : Secrets → K → Result K
  delete_secrets (plain key secret) k = ok k
  delete_secrets (refs key secret) k = delete_ref key k >>= λ k1. delete_ref secret k1

  unfoldable pub remove : String → Store K → Result (Store K)
  remove name st = elim (find name st.accounts) [
    | none ↦ err config_error
    | some a ↦
        let rest = without name st.accounts in
        delete_secrets a.secrets st.keyring >>= λ k.
        ok (record { default = default_without name st.default rest; accounts = rest; keyring = k })
  ]

  -- Both passwords, if neither is missing or empty.
  unfoldable pub both_present : Option String → Option String → Result ApiCredentials
  both_present (some key) (some secret) =
      if str_eq key "" || str_eq secret ""
      then err missing_credentials_error
      else ok (record { api_key = key; api_secret = secret; passphrase = none })
  both_present _ _ = err missing_credentials_error

  unfoldable pub read_secrets : K → Secrets → Result ApiCredentials
  read_secrets k (plain key secret) =
      ok (record { api_key = key; api_secret = secret; passphrase = none })
  read_secrets k (refs key secret) = keyring_parse key >>= λ a. keyring_parse secret >>= λ b.
      kr.get_password k a.0 a.1 >>= λ api_key.
      kr.get_password k b.0 b.1 >>= λ api_secret. both_present api_key api_secret

  unfoldable pub get_credentials : String → Store K → Result ApiCredentials
  get_credentials name st = elim (find name st.accounts) [
    | none ↦ err config_error
    | some a ↦ read_secrets st.keyring a.secrets
  ]
