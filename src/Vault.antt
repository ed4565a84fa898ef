-- ===== src/Vault.antt =====
-- web/secret_store.py: the encrypted credentials of the web application. AES-GCM is a pair of
-- operations on keys, nonces and texts of any types; a decryption may raise. The two tables of the
-- database are a list of rows, and the canary if it is there. A plaintext is the canary's or the
-- credentials that its JSON gives back. `blank` is the test `not name.strip()`.
pub mod Access
pub mod Listing
pub mod Unique
use funding_tool.Prelude.{
  zero, ℕ, suc, ◌+◌, Bool, true, false, ◌==◌, str_eq, if◌then◌else◌, String, Option, none, some,
  List, [], ◌∷◌, ◌++◌,
}
use funding_tool.Errors.{Result, ok, err, key_error, value_error, runtime_error, ◌>>=◌}
use funding_tool.Models.{ApiCredentials}

pub data Plaintext : Type 0 where
  canary_text : Plaintext
  credentials : ApiCredentials → Plaintext

-- AESGCM.encrypt and AESGCM.decrypt
pub record Cipher (Key Nonce Code : Type 0) : Type 0 where
  pub encrypt : Key → Nonce → Plaintext → Code
  pub decrypt : Key → Nonce → Code → Result Plaintext

-- What the constructor keeps: the active key with its version, and the one before it.
pub record Keys (Key : Type 0) : Type 0 where
  pub master : Key
  pub prev : Option Key
  pub active : ℕ

-- Key version, nonce and ciphertext of a row.
pub record Sealed (Nonce Code : Type 0) : Type 0 where
  pub key_version : ℕ
  pub nonce : Nonce
  pub ciphertext : Code

pub record VaultRow (Nonce Code : Type 0) : Type 0 where
  pub name : String
  pub label : String
  pub created_at : String
  pub key_first6 : String
  pub contents : Sealed Nonce Code
  pub perm_read : Option Bool
  pub perm_trade : Option Bool
  pub perm_withdraw : Option Bool
  pub perm_checked_at : Option String

pub record Tables (Nonce Code : Type 0) : Type 0 where
  pub accounts : List (VaultRow Nonce Code)
  pub canary : Option (Sealed Nonce Code)

-- s[:n]
unfoldable pub take_text : ℕ → String → String
take_text zero s = ""
take_text (suc n) String.[] = ""
take_text (suc n) (String.◌∷◌ c s) = String.◌∷◌ c (take_text n s)

-- self._keys[version]
unfoldable pub key_of : {Key : Type 0} → Keys Key → ℕ → Option Key
key_of keys version =
    if version == keys.active
    then some keys.master
    else if suc version == keys.active
    then keys.prev
    else none

module _ {Nonce Code : Type 0} where
  unfoldable pub find_row : String → List (VaultRow Nonce Code) → Option (VaultRow Nonce Code)
  find_row name [] = none
  find_row name (r ∷ rs) = if str_eq r.name name then some r else find_row name rs

  -- DELETE FROM accounts WHERE name=?
  unfoldable pub delete_row : String → List (VaultRow Nonce Code) → List (VaultRow Nonce Code)
  delete_row name [] = []
  delete_row name (r ∷ rs) =
      let rest = delete_row name rs in if str_eq r.name name then rest else r ∷ rest

  -- UPDATE accounts SET ... WHERE name=?
  unfoldable pub update_rows :
      String
      → Option Bool
      → Option Bool
      → Option Bool
      → String
      → List (VaultRow Nonce Code)
      → List (VaultRow Nonce Code)
  update_rows name read trade withdraw now [] = []
  update_rows name read trade withdraw now (r ∷ rs) =
      let rest = update_rows name read trade withdraw now rs in
      if str_eq r.name name
      then record r {
        perm_read = read;
        perm_trade = trade;
        perm_withdraw = withdraw;
        perm_checked_at = some now;
      }
        ∷ rest
      else r ∷ rest

  unfoldable pub update_permissions :
      String
      → Option Bool
      → Option Bool
      → Option Bool
      → String
      → Tables Nonce Code
      → Tables Nonce Code
  update_permissions name read trade withdraw now t = record t {
    accounts = update_rows name read trade withdraw now t.accounts;
  }

  unfoldable pub delete_account : String → Tables Nonce Code → Result (Tables Nonce Code)
  delete_account name t = elim (find_row name t.accounts) [
    | none ↦ err key_error
    | some r ↦ ok (record t { accounts = delete_row name t.accounts })
  ]

module _ {Key Nonce Code : Type 0} (cipher : Cipher Key Nonce Code) (keys : Keys Key) where
  unfoldable pub seal : Nonce → Plaintext → Sealed Nonce Code
  seal nonce text = record {
    key_version = keys.active;
    nonce = nonce;
    ciphertext = cipher.encrypt keys.master nonce text;
  }

  unfoldable pub open_with : Option Key → Sealed Nonce Code → Result Plaintext
  open_with none s = err runtime_error
  open_with (some k) s = cipher.decrypt k s.nonce s.ciphertext

  -- _decrypt
  unfoldable pub unseal : Sealed Nonce Code → Result Plaintext
  unseal s = open_with (key_of keys s.key_version) s

  -- The canary that init_schema leaves.
  unfoldable pub canary_or : Nonce → Option (Sealed Nonce Code) → Sealed Nonce Code
  canary_or nonce none = seal nonce canary_text
  canary_or nonce (some s) = s

  unfoldable pub init_schema : Nonce → Tables Nonce Code → Tables Nonce Code
  init_schema nonce t = record t { canary = some (canary_or nonce t.canary) }

  unfoldable pub check_canary : Plaintext → Result (Unit {0})
  check_canary canary_text = ok tt
  check_canary (credentials c) = err runtime_error

  unfoldable pub verify_canary : Tables Nonce Code → Result (Unit {0})
  verify_canary t = elim t.canary [ none ↦ err runtime_error | some s ↦ unseal s >>= check_canary ]

  -- The row that INSERT INTO accounts stores.
  unfoldable pub new_row : String → String → ApiCredentials → String → Nonce → VaultRow Nonce Code
  new_row name label creds now nonce = record {
    name = name;
    label = label;
    created_at = now;
    key_first6 = take_text 6 creds.api_key;
    contents = seal nonce (credentials creds);
    perm_read = none;
    perm_trade = none;
    perm_withdraw = none;
    perm_checked_at = none;
  }

  unfoldable pub add_account :
      (String → Bool)
      → String
      → String
      → ApiCredentials
      → String
      → Nonce
      → Tables Nonce Code
      → Result (Tables Nonce Code)
  add_account blank name label creds now nonce t =
      if blank name then err value_error else elim (find_row name t.accounts) [
        | some r ↦ err value_error
        | none ↦ ok (record t { accounts = t.accounts ++ new_row name label creds now nonce ∷ [] })
      ]

  -- json.loads of the canary raises a ValueError.
  unfoldable pub credentials_in : Plaintext → Result ApiCredentials
  credentials_in canary_text = err value_error
  credentials_in (credentials c) = ok c

  unfoldable pub get_credentials : String → Tables Nonce Code → Result ApiCredentials
  get_credentials name t = elim (find_row name t.accounts) [
    | none ↦ err key_error
    | some r ↦ unseal r.contents >>= credentials_in
  ]
