-- ===== src/Vault/Access.antt =====
-- What get_credentials returns after each change of the accounts, and after a rotation of the key.
use funding_tool.Prelude.{
  suc, ◌≡◌, inl, inr, refl, sym, ap, ◌∙◌, Bool, true, false, Bool-cases, Option-cases, ◌==◌, str_eq,
  eq_iff, if◌then◌else◌, String, Option, none, some, List, [], ◌∷◌, ◌++◌, arith,
}
use funding_tool.Errors.{Result, ok, err, key_error, ◌>>=◌}
use funding_tool.Models.{ApiCredentials}
use funding_tool.Vault.{
  new_row, Plaintext, credentials, Cipher, Keys, VaultRow, Tables, key_of, find_row, delete_row,
  delete_account, seal, open_with, unseal, add_account, credentials_in, get_credentials,
}

-- Decryption with the key and the nonce of the encryption gives the text back.
pub record IsCipher {Key Nonce Code : Type 0} (cipher : Cipher Key Nonce Code) : Type 0 where
  pub decrypt_encrypt :
      (k : Key) (n : Nonce) (p : Plaintext) → cipher.decrypt k n (cipher.encrypt k n p) ≡ ok p

module _ {Nonce Code : Type 0} where
  pub find_row-append :
      (j : String) (r : VaultRow Nonce Code) (rs : List (VaultRow Nonce Code))
      → find_row j (rs ++ r ∷ []) ≡ (elim (find_row j rs) [
        | some x ↦ some x
        | none ↦ if str_eq r.name j then some r else none
      ])
  unfolding find_row
  find_row-append j r [] = ground arith
  find_row-append j r (x ∷ rs) = ground (arith, find_row-append j r rs)

  pub find_row-delete_row :
      (name j : String) (rs : List (VaultRow Nonce Code))
      → find_row j (delete_row name rs) ≡ (if str_eq name j then none else find_row j rs)
  unfolding find_row delete_row
  find_row-delete_row name j [] = ground arith
  find_row-delete_row name j (r ∷ rs) =
      ground
        (arith, find_row-delete_row name j rs, eq_iff r.name name, eq_iff r.name j, eq_iff name j)

module _ {Key Nonce Code : Type 0} (cipher : Cipher Key Nonce Code) (is : IsCipher cipher)
    (keys : Keys Key) where
  pub unseal-seal : (n : Nonce) (p : Plaintext) → unseal cipher keys (seal cipher keys n p) ≡ ok p
  unfolding unseal seal open_with key_of
  unseal-seal n p =
      let active : (keys.active == keys.active) ≡ true = ground arith in
      rw active (is.decrypt_encrypt keys.master n p)

  from_row : Option (VaultRow Nonce Code) → Result ApiCredentials
  from_row none = err key_error
  from_row (some r) = unseal cipher keys r.contents >>= credentials_in cipher keys

  get_credentials-from_row :
      (name : String) (t : Tables Nonce Code)
      → get_credentials cipher keys name t ≡ from_row (find_row name t.accounts)
  unfolding get_credentials from_row
  get_credentials-from_row name t = elim (Option-cases (find_row name t.accounts)) [
    | inl gone ↦ rw (gone, get_credentials) refl
    | inr (r, there) ↦ rw (there, get_credentials) refl
  ]

  same_row :
      (j : String) (t t' : Tables Nonce Code)
      → find_row j t'.accounts ≡ find_row j t.accounts
      → get_credentials cipher keys j t' ≡ get_credentials cipher keys j t
  same_row j t t' e =
      get_credentials-from_row j t' ∙ ap from_row e ∙ sym (get_credentials-from_row j t)

  -- With a cipher that decrypts what it encrypts, a new account whose name is not blank is added, and its credentials, the passphrase included, are
  -- then read back; what is read for every other name stays.
  pub get_credentials-add_account :
      (blank : String → Bool) (name label : String) (creds : ApiCredentials) (now : String)
      (nonce : Nonce) (t : Tables Nonce Code)
      → blank name ≡ false
      → find_row name t.accounts ≡ none
      → (t' : Tables Nonce Code) × (add_account cipher keys blank name label creds now nonce t
          ≡ ok t')
        × ((j : String)
            → get_credentials cipher keys j t'
              ≡ (if str_eq name j then ok creds else get_credentials cipher keys j t))
  unfolding add_account new_row
  get_credentials-add_account blank name label creds now nonce t b new =
      let r = new_row cipher keys name label creds now nonce in
      let t' : Tables Nonce Code = record t { accounts = t.accounts ++ r ∷ [] } in
      (
        t',
        rw (b, new) refl,
        λ j.
            let found = find_row-append j r t.accounts in
            elim (Bool-cases (str_eq name j)) [
              | inl same ↦
                  let row : find_row j t'.accounts ≡ some r =
                    ground (arith, found, new, same, eq_iff name j) in
                  rw same (
                    get_credentials-from_row j t'
                    ∙ ap from_row row
                    ∙ (unfold from_row credentials_in in
                        rw (unseal-seal nonce (credentials creds)) refl))
              | inr other ↦ rw other (same_row j t t' (ground (arith, found, other)))
            ],
      )

  -- An account that is there is deleted, its credentials are then gone, and those of every other name
  -- stay.
  pub get_credentials-delete_account :
      (name : String) (t : Tables Nonce Code) (r : VaultRow Nonce Code)
      → find_row name t.accounts ≡ some r
      → (t' : Tables Nonce Code) × (delete_account name t ≡ ok t')
        × ((j : String)
            → get_credentials cipher keys j t'
              ≡ (if str_eq name j then err key_error else get_credentials cipher keys j t))
  unfolding delete_account from_row
  get_credentials-delete_account name t r there =
      let t' : Tables Nonce Code = record t { accounts = delete_row name t.accounts } in
      (
        t',
        rw (there, delete_account) refl,
        λ j.
            let found = find_row-delete_row name j t.accounts in
            elim (Bool-cases (str_eq name j)) [
              | inl same ↦
                  rw same
                    (get_credentials-from_row j t' ∙ ap from_row {y = none} (found ∙ rw same refl))
              | inr other ↦ rw other (same_row j t t' (found ∙ rw other refl))
            ],
      )

  -- A store that is opened with a new master key under the next version, active + 1, and with the old
  -- one as the previous key, still reads every account that was written under the old key. The start of
  -- the program does not open it so: it always gives the active key the version 1.
  pub get_credentials-rotated :
      (k : Key) (j : String) (t : Tables Nonce Code) (r : VaultRow Nonce Code)
      → find_row j t.accounts ≡ some r
      → r.contents.key_version ≡ keys.active
      → get_credentials cipher
          (record { master = k; prev = some keys.master; active = suc keys.active })
          j
          t
        ≡ get_credentials cipher keys j t
  unfolding get_credentials unseal key_of credentials_in open_with
  get_credentials-rotated k j t r there version =
      let next : (r.contents.key_version == suc keys.active) ≡ false = ground arith in
      let before : (suc r.contents.key_version == suc keys.active) ≡ true = ground arith in
      let now : (r.contents.key_version == keys.active) ≡ true = ground arith in
      rw (there, get_credentials) (rw (next, before, now, key_of) refl)
