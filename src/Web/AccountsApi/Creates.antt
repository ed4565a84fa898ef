-- ===== src/Web/AccountsApi/Creates.antt =====
-- A new account in the tables, and what is then read of it.
use funding_tool.Prelude.{
  ◌≡◌, inl, inr, refl, ap, ◌∙◌, Bool, true, false, Bool-cases, str_eq, eq_iff, if◌then◌else◌,
  String, Option, none, some, List, [], ◌∷◌, ◌++◌, map, arith,
}
use mathlib.Core.Path.{fun_ext}
use mathlib.Core.Option.{map as map_option}
use funding_tool.Models.{PermissionReport}
use funding_tool.Vault.{
  take_text, Plaintext, credentials, Cipher, Keys, VaultRow, Tables, find_row, update_rows,
  delete_row, seal, unseal, add_account, credentials_in, get_credentials, new_row,
}
use funding_tool.Vault
use funding_tool.Vault.Access.{IsCipher, find_row-append, unseal-seal}
use funding_tool.Vault.Listing.{AccountRecord, record_of, by_created}
use funding_tool.Vault.Listing
use funding_tool.Vault.Unique.{
  HasUniqueNames, permitted, append-HasUniqueNames, find_row-update_rows,
  update_rows-HasUniqueNames, find_row-by_created,
}
use funding_tool.Web.{returned}
use funding_tool.Web.AccountsApi.{
  AccountCreateRequest, map_permission_report, record_to_out, find_record, created, credentials_of,
  write_back,
}
use funding_tool.Web.AccountsApi.Expected.{
  Account, out_of, assign, new_account, expect_new, account_of, view,
}

module _ {Nonce Code : Type 0} where
  find_record-map :
      (j : String) (rs : List (VaultRow Nonce Code))
      → find_record j (map record_of rs) ≡ map_option record_of (find_row j rs)
  unfolding find_record find_row record_of
  find_record-map j [] = refl
  find_record-map j (r ∷ rs) = ground (arith, find_record-map j rs)

  find_record-list_accounts :
      (j : String) (t : Tables Nonce Code)
      → HasUniqueNames t.accounts
      → find_record j (Listing.list_accounts t) ≡ map_option record_of (find_row j t.accounts)
  unfolding Listing.list_accounts
  find_record-list_accounts j t h =
      find_record-map j (by_created t.accounts)
      ∙ ap (map_option record_of) (find_row-by_created j t.accounts h)

  -- The rows after one is added and its permissions are written.
  find_row-written :
      (r : VaultRow Nonce Code) (read trade withdraw : Option Bool) (now : String)
      (rs : List (VaultRow Nonce Code)) (j : String)
      → find_row r.name rs ≡ none
      → find_row j (update_rows r.name read trade withdraw now (rs ++ r ∷ []))
        ≡ (if str_eq r.name j then some (permitted read trade withdraw now r) else find_row j rs)
  find_row-written r read trade withdraw now rs j new = ground (
    arith,
    find_row-update_rows r.name j read trade withdraw now (rs ++ r ∷ []),
    find_row-append j r rs,
    new,
    eq_iff r.name j,
  )

module _ {Key Nonce Code : Type 0} (cipher : Cipher Key Nonce Code) (is : IsCipher cipher)
    (keys : Keys Key) (blank : String → Bool) where
  -- Tables and map stand for each other, and the answers are the same.
  unfoldable pub Agrees :
      {A : Type 0} → A × Tables Nonce Code → A × (String → Option Account) → Type 0
  Agrees c e = HasUniqueNames c.1.accounts × (c.0 ≡ e.0) × (view cipher keys blank c.1 ≡ e.1)

  module _ (p : AccountCreateRequest) (report : PermissionReport) (now checked_at : String)
      (nonce : Nonce) (t : Tables Nonce Code) (h : HasUniqueNames t.accounts) where
    unfoldable pub row : VaultRow Nonce Code
    row = new_row cipher keys p.name p.label (credentials_of p) now nonce

    unfoldable checked_row : VaultRow Nonce Code
    checked_row =
        let m = map_permission_report report in permitted m.read m.trade m.withdraw checked_at row

    account-checked_row : account_of cipher keys blank checked_row ≡ new_account p report now
    unfolding account_of checked_row row new_row permitted new_account credentials_of credentials_in
    account-checked_row =
        rw (unseal-seal cipher is keys nonce (credentials (credentials_of p))) refl

    unfoldable written : Tables Nonce Code
    written =
        let m = map_permission_report report in
        Vault.update_permissions p.name m.read m.trade m.withdraw checked_at
          (record t { accounts = t.accounts ++ row ∷ [] })

    written-HasUniqueNames : find_row p.name t.accounts ≡ none → HasUniqueNames written.accounts
    unfolding written Vault.update_permissions row new_row
    written-HasUniqueNames new =
        update_rows-HasUniqueNames p.name _ _ _ checked_at (t.accounts ++ row ∷ [])
          (append-HasUniqueNames t.accounts row new h)

    find_row-in-written :
        find_row p.name t.accounts ≡ none
        → (j : String)
        → find_row j written.accounts
          ≡ (if str_eq p.name j then some checked_row else find_row j t.accounts)
    unfolding written Vault.update_permissions row new_row checked_row
    find_row-in-written new j = find_row-written row _ _ _ checked_at t.accounts j new

    view-in-written :
        find_row p.name t.accounts ≡ none
        → view cipher keys blank written
          ≡ assign p.name (some (new_account p report now)) (view cipher keys blank t)
    unfolding view assign
    view-in-written new = fun_ext λ j.
        ap (map_option (account_of cipher keys blank)) (find_row-in-written new j)
        ∙ (elim (Bool-cases (str_eq p.name j)) [
          | inl same ↦ rw same (ap some account-checked_row)
          | inr other ↦ rw other refl
        ])

    created-written :
        find_row p.name t.accounts ≡ none
        → created (find_record p.name (Listing.list_accounts written))
          ≡ returned (out_of p.name (new_account p report now))
    unfolding created record_to_out record_of out_of new_account permitted row new_row checked_row
        map_permission_report credentials_of
    created-written new =
        let found = find_row-in-written new p.name in
        let same : str_eq p.name p.name ≡ true = ground (arith, eq_iff p.name p.name) in
        ap created (find_record-list_accounts p.name written (written-HasUniqueNames new))
        ∙ ap (λ o. created (map_option record_of o)) {y = some checked_row} (found ∙ rw same refl)

    pub write_back-Agrees :
        find_row p.name t.accounts ≡ none
        → Agrees
            (write_back cipher keys p report checked_at
              (record t { accounts = t.accounts ++ row ∷ [] }))
            (expect_new false p report now (view cipher keys blank t))
    unfolding Agrees write_back expect_new view written Vault.update_permissions
    write_back-Agrees new =
        let none_there : view cipher keys blank t p.name ≡ none =
          unfold view in ap (map_option (account_of cipher keys blank)) new in
        rw (none_there, expect_new)
          (written-HasUniqueNames new, created-written new, view-in-written new)
