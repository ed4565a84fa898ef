-- ===== src/Cli/AccountCmd/Outcomes.antt =====
-- How store.add may end, and what account add makes of it.
use funding_tool.Prelude.{
  ◌≡◌, ◌≢◌, ◌⊎◌, inl, inr, refl, Bool, true, false, Bool-cases, Option-cases, eq_iff, String,
  Option, none, some, arith,
}
use funding_tool.Errors.{Error, Result, ok, err, config_error, plaintext_fallback_required}
use funding_tool.Models.{ApiCredentials}
use funding_tool.Accounts.{
  Keyring, Account, Secrets, plain, Store, find, keyring_available, after_secret, after_key,
  secrets_for, entered, add, service_of,
}
use funding_tool.Accounts.Default.{find-append}
use funding_tool.Cli.{Ended, done}
use funding_tool.Cli.AccountCmd.{ended_add, stored, is_fallback}

pub data IsPlain : Secrets → Type 0 where
  in_clear : (key secret : String) → IsPlain (plain key secret)

module _ {K : Type 0} (kr : Keyring K) where
  -- What `add` does where it succeeds.
  pub record IsAdded (name : String) (at : Option String) (allow_plaintext : Bool)
      (st st' : Store K) : Type 0 where
    pub absent : find name st.accounts ≡ none
    pub account : Account
    pub there : find name st'.accounts ≡ some account
    pub time : account.permissions_verified_at ≡ at
    pub secrecy :
        IsPlain account.secrets
        → (keyring_available kr st.keyring ≡ false) × (allow_plaintext ≡ true)

  -- What an add that raises leaves behind: the store as it was, or, if the keyring took the key and
  -- raised on the secret, the same accounts and default with the key in the keyring.
  pub data IsLeft (name : String) (c : ApiCredentials) (st : Store K)
      : Error → Store K → Type 0 where
    as_before : (x : Error) → IsLeft name c st x st
    key_kept :
        (k1 : K) (x : Error)
        → kr.set_password st.keyring (service_of name) "key" c.api_key ≡ ok k1
        → kr.set_password k1 (service_of name) "secret" c.api_secret ≡ err x
        → IsLeft name c st x (record st { keyring = k1 })

  -- The keyring does not raise the exception of the store.
  abbrev pub RaisesItsOwn : Type 0
  RaisesItsOwn =
      (k : K) (service username value : String) (x : Error)
      → kr.set_password k service username value ≡ err x
      → is_fallback x ≡ false

  -- How an add may end.
  abbrev pub Outcome :
      String
      → ApiCredentials
      → Option String
      → Bool
      → Store K
      → Result (Unit {0}) × Store K
      → Type 0
  Outcome name c at allow_plaintext st (ok u, st') = IsAdded name at allow_plaintext st st'
  Outcome name c at allow_plaintext st (err x, st') = IsLeft name c st x st'

  -- How its secrets may be kept: plain text only without a keyring, and only if that is allowed.
  abbrev Kept : String → ApiCredentials → Bool → Store K → Result Secrets × K → Type 0
  Kept name c allow_plaintext st (ok s, k') =
      IsPlain s → (keyring_available kr st.keyring ≡ false) × (allow_plaintext ≡ true)
  Kept name c allow_plaintext st (err x, k') = IsLeft name c st x (record st { keyring = k' })

  after_secret-Kept :
      (name : String) (c : ApiCredentials) (allow_plaintext : Bool) (st : Store K) (k1 : K)
      (m : Result K)
      → kr.set_password st.keyring (service_of name) "key" c.api_key ≡ ok k1
      → kr.set_password k1 (service_of name) "secret" c.api_secret ≡ m
      → Kept name c allow_plaintext st (after_secret kr name k1 m)
  unfolding after_secret
  after_secret-Kept name c allow_plaintext st k1 (ok k2) e f = λ p. elim p [ ]
  after_secret-Kept name c allow_plaintext st k1 (err x) e f = key_kept k1 x e f

  after_key-Kept :
      (name : String) (c : ApiCredentials) (allow_plaintext : Bool) (st : Store K) (m : Result K)
      → kr.set_password st.keyring (service_of name) "key" c.api_key ≡ m
      → Kept name c allow_plaintext st (after_key kr name c st.keyring m)
  unfolding after_key
  after_key-Kept name c allow_plaintext st (ok k1) e =
      after_secret-Kept name c allow_plaintext st k1 _ e refl
  after_key-Kept name c allow_plaintext st (err x) e = as_before x

  secrets_for-Kept :
      (name : String) (c : ApiCredentials) (allow_plaintext : Bool) (st : Store K)
      → Kept name c allow_plaintext st (secrets_for kr name c allow_plaintext st.keyring)
  unfolding secrets_for
  secrets_for-Kept name c allow_plaintext st = elim (Bool-cases (keyring_available kr st.keyring)) [
    | inl there ↦ rw there (after_key-Kept name c allow_plaintext st _ refl)
    | inr gone ↦ elim (Bool-cases allow_plaintext) [
      | inl allowed ↦ rw (gone, allowed) (λ p. (gone, refl))
      | inr forbidden ↦ rw (gone, forbidden) (as_before plaintext_fallback_required)
    ]
  ]

  entered-Outcome :
      (name exchange : String) (c : ApiCredentials) (created_at : String) (at : Option String)
      (allow_plaintext : Bool) (st : Store K) (r : Result Secrets × K)
      → find name st.accounts ≡ none
      → Kept name c allow_plaintext st r
      → let entry : Secrets → Account = λ s. record {
        exchange = exchange;
        created_at = created_at;
        permissions_verified_at = at;
        secrets = s;
      } in
        Outcome name c at allow_plaintext st (entered kr name entry st r)
  unfolding entered
  entered-Outcome name exchange c created_at at allow_plaintext st (ok s, k) gone h = record {
    absent = gone;
    account = record {
      exchange = exchange;
      created_at = created_at;
      permissions_verified_at = at;
      secrets = s;
    };
    there = ground (
      arith,
      find-append name name
          (record {
            exchange = exchange;
            created_at = created_at;
            permissions_verified_at = at;
            secrets = s;
          })
          st.accounts,
      gone,
      eq_iff name name,
    );
    time = refl;
    secrecy = h;
  }
  entered-Outcome name exchange c created_at at allow_plaintext st (err x, k) gone h = h

  pub add-Outcome :
      (name exchange : String) (c : ApiCredentials) (created_at : String) (at : Option String)
      (allow_plaintext : Bool) (st : Store K)
      → Outcome name c at allow_plaintext st
          (add kr name exchange c created_at at allow_plaintext st)
  unfolding add
  add-Outcome name exchange c created_at at allow_plaintext st =
      elim (Option-cases (find name st.accounts)) [
        | inr (a, there) ↦ rw (there, add) (as_before config_error)
        | inl gone ↦
            rw (gone, add)
              (entered-Outcome name exchange c created_at at allow_plaintext st _ gone
                (secrets_for-Kept name c allow_plaintext st))
      ]

  -- How a command that may store an account ends: it has stored it, or it has not and says so.
  abbrev pub IsSettled :
      String → ApiCredentials → (Store K → Type 0) → Store K → Ended (Unit {0}) × Store K → Type 0
  IsSettled name c P st r =
      ((r.0 ≡ done tt) × P r.1) ⊎ ((r.0 ≢ done tt) × ((x : Error) × IsLeft name c st x r.1))

  ended_add-IsSettled :
      (name : String) (c : ApiCredentials) (at : Option String) (allow_plaintext : Bool)
      (st : Store K) (r : Result (Unit {0}) × Store K) (P : Store K → Type 0)
      → Outcome name c at allow_plaintext st r
      → ((st' : Store K) → IsAdded name at allow_plaintext st st' → P st')
      → IsSettled name c P st (ended_add kr r)
  unfolding ended_add
  ended_add-IsSettled name c at allow_plaintext st (ok u, st') P h f = inl (refl, f st' h)
  ended_add-IsSettled name c at allow_plaintext st (err x, st') P h f = inr (λ e. cc, (x, h))

  -- The exception of the store leaves it as it was.
  fallback-left :
      (name : String) (c : ApiCredentials) (st st' : Store K) (x : Error)
      → RaisesItsOwn
      → IsLeft name c st x st'
      → is_fallback x ≡ true
      → st' ≡ st
  fallback-left name c st _ _ own (as_before x) e = refl
  fallback-left name c st _ _ own (key_kept k1 x _ f) e =
      absurd (ground (arith, e, own k1 (service_of name) "secret" c.api_secret x f))

  pub stored-IsSettled :
      (name : String) (c : ApiCredentials) (at : Option String) (confirm : Bool) (st : Store K)
      (first : Result (Unit {0}) × Store K) (again : Store K → Result (Unit {0}) × Store K)
      (P : Store K → Type 0)
      → RaisesItsOwn
      → Outcome name c at false st first
      → Outcome name c at true st (again st)
      → ((st' : Store K) → IsAdded name at false st st' → P st')
      → (confirm ≡ true → (st' : Store K) → IsAdded name at true st st' → P st')
      → IsSettled name c P st (stored kr confirm first again)
  unfolding stored
  stored-IsSettled name c at confirm st (ok u, st') again P own h k f g = inl (refl, f st' h)
  stored-IsSettled name c at confirm st (err x, st') again P own h k f g =
      elim (Bool-cases (is_fallback x)) [
        | inr other ↦ rw other (inr (λ e. cc, (x, h)))
        | inl fallback ↦
            let same = fallback-left name c st st' x own h fallback in
            elim (Bool-cases confirm) [
              | inl agreed ↦
                  rw (fallback, agreed, same)
                    (ended_add-IsSettled name c at true st (again st) P k (g agreed))
              | inr refused ↦ rw (fallback, refused) (inr (λ e. cc, (x, h)))
            ]
      ]
