-- ===== src/Accounts/Credentials.antt =====
-- The credentials of an account come back from the store that it was added to.
use funding_tool.Prelude.{
  ◌≡◌, ◌⊎◌, refl, ◌∙◌, Bool, true, false, Bool-cases, inl, inr, ◌&&◌, if◌then◌else◌, str_eq, eq_iff,
  String, Option, none, some, List, [], ◌∷◌, ◌++◌, arith,
}
use funding_tool.Errors.{ok}
use funding_tool.Models.{ApiCredentials}
use funding_tool.Accounts.{
  Keyring, Account, Secrets, refs, plain, Store, find, service_of, keyring_ref, keyring_available,
  has_colon, after_key, after_secret, secrets_for, entered, add, read_secrets, both_present,
  get_credentials, succeeds,
}
use funding_tool.Accounts.Refs.{keyring_parse-keyring_ref}
use funding_tool.Accounts.Default.{find-append}

-- A backend that stores: a password that is set is read back, and other passwords stay;
-- setting one does not raise while the backend answers.
pub record IsKeyring {K : Type 0} (kr : Keyring K) : Type 0 where
  pub get_set :
      (k : K) (service username value s u : String) {k' : K}
      → kr.set_password k service username value ≡ ok k'
      → kr.get_password k' s u
        ≡ (if str_eq service s && str_eq username u then ok (some value) else kr.get_password k s u)
  pub set_ok :
      (k : K) (service username value : String)
      → keyring_available kr k ≡ true
      → (k' : K) × (kr.set_password k service username value ≡ ok k')

eq_self : (s : String) → str_eq s s ≡ true
eq_self s = ground (arith, eq_iff s s)

module _ {K : Type 0} (kr : Keyring K) (is : IsKeyring kr) where
  both_present_full :
      (key secret : String)
      → str_eq key "" ≡ false
      → str_eq secret "" ≡ false
      → both_present kr (some key) (some secret)
        ≡ ok (record { api_key = key; api_secret = secret; passphrase = none })
  unfolding both_present
  both_present_full key secret h k = rw (h, k) refl

  -- What is kept of non-empty credentials is there, and is read back.
  abbrev Keeps : String → ApiCredentials → Bool → K → Type 0
  Keeps name c allow k =
      (s : Secrets) × (k' : K) × (secrets_for kr name c allow k ≡ (ok s, k'))
      × (read_secrets kr k' s
          ≡ ok (record { api_key = c.api_key; api_secret = c.api_secret; passphrase = none }))

  stays_available :
      (k : K) (service username value : String) {k' : K}
      → kr.set_password k service username value ≡ ok k'
      → keyring_available kr k ≡ true
      → keyring_available kr k' ≡ true
  unfolding keyring_available succeeds
  stays_available k service username value h a =
      elim (Bool-cases (str_eq service "funding-tool" && str_eq username "__probe__")) [
        | inl same ↦
            rw (is.get_set k service username value "funding-tool" "__probe__" h, same) refl
        | inr other ↦ rw (is.get_set k service username value "funding-tool" "__probe__" h, other) a
      ]

  keyring-Keeps :
      (name : String) (c : ApiCredentials) (allow : Bool) (k : K)
      → str_eq c.api_key "" ≡ false
      → str_eq c.api_secret "" ≡ false
      → keyring_available kr k ≡ true
      → Keeps name c allow k
  unfolding secrets_for after_key after_secret read_secrets
  keyring-Keeps name c allow k hk hs a =
      let service = service_of name in
      let (k1, e1) = is.set_ok k service "key" c.api_key a in
      let (k2, e2) =
        is.set_ok k1 service "secret" c.api_secret
          (stays_available k service "key" c.api_key e1 a) in
      let key : kr.get_password k2 service "key" ≡ ok (some c.api_key) =
        is.get_set k1 service "secret" c.api_secret service "key" e2
        ∙ rw (eq_self service)
            (is.get_set k service "key" c.api_key service "key" e1 ∙ rw (eq_self service) refl) in
      let secret : kr.get_password k2 service "secret" ≡ ok (some c.api_secret) =
        is.get_set k1 service "secret" c.api_secret service "secret" e2
        ∙ rw (eq_self service) refl in
      (
        refs (keyring_ref name "key") (keyring_ref name "secret"),
        k2,
        rw (a, e1, e2) refl,
        rw
            (
              keyring_parse-keyring_ref name "key" (unfold has_colon in refl),
              keyring_parse-keyring_ref name "secret" (unfold has_colon in refl),
              key,
              secret,
            )
            (both_present_full c.api_key c.api_secret hk hs),
      )

  plain-Keeps :
      (name : String) (c : ApiCredentials) (k : K)
      → keyring_available kr k ≡ false
      → Keeps name c true k
  unfolding secrets_for read_secrets
  plain-Keeps name c k a = (plain c.api_key c.api_secret, k, rw a refl, refl)

  find_added :
      (name : String) (a : Account) (as' : List (String × Account))
      → find name as' ≡ none
      → find name (as' ++ (name, a) ∷ []) ≡ some a
  find_added name a as' h = find-append name name a as' ∙ rw (h, eq_self name) refl

  -- A new account with a key and a secret that are not empty is added, and its key and secret are
  -- then what get_credentials returns: through the keyring if there is a backend that stores, and
  -- in plain text if there is none and the caller allows it.
  pub get_credentials-add :
      (name exchange : String) (c : ApiCredentials) (created_at : String)
      (verified_at : Option String) (allow_plaintext : Bool) (st : Store K)
      → find name st.accounts ≡ none
      → str_eq c.api_key "" ≡ false
      → str_eq c.api_secret "" ≡ false
      → (keyring_available kr st.keyring ≡ true) ⊎ (allow_plaintext ≡ true)
      → let (answer, st') = add kr name exchange c created_at verified_at allow_plaintext st in
        (answer ≡ ok tt)
        × (get_credentials kr name st'
            ≡ ok (record { api_key = c.api_key; api_secret = c.api_secret; passphrase = none }))
  unfolding add entered get_credentials
  get_credentials-add name exchange c created_at verified_at allow_plaintext st new hk hs way =
      let (s, k, stored, read) : Keeps name c allow_plaintext st.keyring =
        elim (Bool-cases (keyring_available kr st.keyring)) [
          | inl a ↦ keyring-Keeps name c allow_plaintext st.keyring hk hs a
          | inr a ↦ elim way [
            | inl b ↦ absurd (ground arith)
            | inr allowed ↦ rw allowed (plain-Keeps name c st.keyring a)
          ]
        ] in
      rw (new, add) (rw stored (refl, rw (find_added name _ st.accounts new, get_credentials) read))
