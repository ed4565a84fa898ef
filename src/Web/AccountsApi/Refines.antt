-- ===== src/Web/AccountsApi/Refines.antt =====
-- The handlers of the accounts answer, request by request, as the map of Expected does.
use funding_tool.Prelude.{
  ◌≡◌, inl, inr, refl, ap, ap₂, ◌∙◌, Bool, false, Bool-cases, Option-cases, str_eq, String, Option,
  none, some, List, [], ◌∷◌, ◌++◌,
}
use mathlib.Core.Path.{fun_ext}
use mathlib.Core.Option.{map as map_option}
use funding_tool.Errors.{ok, err, value_error}
use funding_tool.Models.{PermissionReport}
use funding_tool.Vault.{
  take_text, Plaintext, credentials, Cipher, Keys, VaultRow, Tables, find_row, update_rows,
  delete_row, seal, unseal, add_account, credentials_in, get_credentials, new_row,
}
use funding_tool.Vault
use funding_tool.Vault.Access.{IsCipher, find_row-delete_row}
use funding_tool.Vault.Unique.{HasUniqueNames, delete_row-HasUniqueNames}
use funding_tool.Web.{Awaited, failed, respond, Handled-cases}
use funding_tool.Web.AccountsApi.{
  AccountCreateRequest, verified, add_failure, delete_failure, delete_account, create_account,
  credentials_of, persist,
}
use funding_tool.Web.AccountsApi.Expected.{
  AccountRequest, create, remove, account, Account, secret_of, assign, conflict, expect_new, expect,
  expect_all, handle, handle_all, account_of, view,
}
use funding_tool.Web.AccountsApi.Creates.{Agrees, row, write_back-Agrees}

module _ {Key Nonce Code : Type 0} (cipher : Cipher Key Nonce Code) (is : IsCipher cipher)
    (keys : Keys Key) (blank : String → Bool) where
  -- The table refuses a name that is blank or there.
  refused-Agrees :
      (p : AccountCreateRequest) (report : PermissionReport) (now checked_at : String)
      (nonce : Nonce) (t : Tables Nonce Code)
      → HasUniqueNames t.accounts
      → add_account cipher keys blank p.name p.label (credentials_of p) now nonce t
        ≡ err value_error
      → Agrees cipher is keys blank
          (persist cipher keys blank p report now checked_at nonce t)
          (failed conflict, view cipher keys blank t)
  unfolding Agrees persist add_failure
  refused-Agrees p report now checked_at nonce t h e = rw (e, persist) (h, refl, refl)

  new-Agrees :
      (p : AccountCreateRequest) (report : PermissionReport) (now checked_at : String)
      (nonce : Nonce) (t : Tables Nonce Code)
      → HasUniqueNames t.accounts
      → blank p.name ≡ false
      → find_row p.name t.accounts ≡ none
      → Agrees cipher is keys blank
          (persist cipher keys blank p report now checked_at nonce t)
          (expect_new false p report now (view cipher keys blank t))
  unfolding persist row
  new-Agrees p report now checked_at nonce t h b new =
      let stored : add_account cipher keys blank p.name p.label (credentials_of p) now nonce t
          ≡ ok (record t {
            accounts =
                t.accounts ++ row cipher is keys blank p report now checked_at nonce t h ∷ [];
          }) =
        unfold add_account in rw b (rw new refl) in
      rw (stored, persist)
        (write_back-Agrees cipher is keys blank p report now checked_at nonce t h new)

  persist-Agrees :
      (p : AccountCreateRequest) (report : PermissionReport) (now checked_at : String)
      (nonce : Nonce) (t : Tables Nonce Code)
      → HasUniqueNames t.accounts
      → Agrees cipher is keys blank
          (persist cipher keys blank p report now checked_at nonce t)
          (expect_new (blank p.name) p report now (view cipher keys blank t))
  persist-Agrees p report now checked_at nonce t h = elim (Bool-cases (blank p.name)) [
    | inl b ↦ rw b (
        unfold expect_new in
        refused-Agrees p report now checked_at nonce t h (unfold add_account in rw b refl))
    | inr b ↦ elim (Option-cases (find_row p.name t.accounts)) [
      | inl new ↦ rw b (new-Agrees p report now checked_at nonce t h b new)
      | inr (r, there) ↦
          let viewed : view cipher keys blank t p.name ≡ some (account_of cipher keys blank r) =
            unfold view in rw there refl in
          let expected : expect_new false p report now (view cipher keys blank t)
              ≡ (failed conflict, view cipher keys blank t) =
            unfold expect_new in rw (viewed, expect_new) refl in
          rw (b, expected)
            (refused-Agrees p report now checked_at nonce t h
              (unfold add_account in rw b (rw there refl)))
    ]
  ]

  remove-Agrees :
      (name : String) (t : Tables Nonce Code)
      → HasUniqueNames t.accounts
      → Agrees cipher is keys blank
          (handle cipher keys blank (remove name) t)
          (expect {Nonce = Nonce} blank (remove name) (view cipher keys blank t))
  unfolding Agrees handle expect view delete_account Vault.delete_account delete_failure
  remove-Agrees name t h = elim (Option-cases (find_row name t.accounts)) [
    | inl gone ↦
        rw (gone, expect, handle, delete_account, Vault.delete_account, view) (h, refl, refl)
    | inr (r, there) ↦
        rw (there, expect, handle, delete_account, Vault.delete_account, view)
          (
            delete_row-HasUniqueNames name t.accounts h,
            refl,
            fun_ext λ j.
                ap (map_option (account_of cipher keys blank))
                  (find_row-delete_row name j t.accounts)
                ∙ (unfold assign in
                    elim (Bool-cases (str_eq name j)) [
                      | inl same ↦ rw same refl
                      | inr other ↦ rw other refl
                    ]),
          )
  ]

  answered-Agrees :
      {A B : Type 0} (f : A → B) (m : A × Tables Nonce Code) (n : A × (String → Option Account))
      → Agrees cipher is keys blank m n
      → Agrees cipher is keys blank (f m.0, m.1) (f n.0, n.1)
  unfolding Agrees
  answered-Agrees f m n (h, e, v) = (h, ap f e, v)

  create-Agrees :
      (p : AccountCreateRequest) (v : Awaited PermissionReport) (now checked_at : String)
      (nonce : Nonce) (t : Tables Nonce Code)
      → HasUniqueNames t.accounts
      → Agrees cipher is keys blank
          (handle cipher keys blank (create p v now checked_at nonce) t)
          (expect blank (create p v now checked_at nonce) (view cipher keys blank t))
  unfolding handle expect create_account
  create-Agrees p v now checked_at nonce t h = elim (Handled-cases (verified v)) [
    | inl (report, e) ↦
        rw (e, handle, create_account, expect)
          (answered-Agrees (λ m. account (respond m)) _ _
            (persist-Agrees p report now checked_at nonce t h))
    | inr (f, e) ↦ rw (e, handle, create_account, expect) (unfold Agrees in (h, refl, refl))
  ]

  handle-Agrees :
      (r : AccountRequest Nonce) (t : Tables Nonce Code)
      → HasUniqueNames t.accounts
      → Agrees cipher is keys blank
          (handle cipher keys blank r t)
          (expect blank r (view cipher keys blank t))
  handle-Agrees (create p v now checked_at nonce) t h = create-Agrees p v now checked_at nonce t h
  handle-Agrees (remove name) t h = remove-Agrees name t h

  handle_all-Agrees :
      (rs : List (AccountRequest Nonce)) (t : Tables Nonce Code)
      → HasUniqueNames t.accounts
      → Agrees cipher is keys blank
          (handle_all cipher keys blank rs t)
          (expect_all blank rs (view cipher keys blank t))
  unfolding handle_all expect_all Agrees
  handle_all-Agrees [] t h = (h, refl, refl)
  handle_all-Agrees (r ∷ rs) t h =
      let (h', answer, seen) = handle-Agrees r t h in
      let (last, answers, left) = handle_all-Agrees rs (handle cipher keys blank r t).1 h' in
      (
        last,
        ap₂ ◌∷◌ answer (answers ∙ ap (λ f. (expect_all blank rs f).0) seen),
        left ∙ ap (λ f. (expect_all blank rs f).1) seen,
      )

  get_credentials-view :
      (name : String) (t : Tables Nonce Code)
      → get_credentials cipher keys name t ≡ secret_of (view cipher keys blank t name)
  unfolding view get_credentials secret_of account_of
  get_credentials-view name t = elim (Option-cases (find_row name t.accounts)) [
    | inl gone ↦ rw (gone, get_credentials) refl
    | inr (r, there) ↦ rw (there, get_credentials) refl
  ]

  -- With a cipher that decrypts what it encrypts, and from rows whose names differ: the handlers
  -- answer any sequence of requests to create and delete accounts as the map that the tables stand
  -- for does, conflicts, missing names and failed verifications included; the names still differ
  -- then, the tables stand for the map that is left, and the credentials read by name are those of
  -- the map.
  pub handle_all_refines :
      (rs : List (AccountRequest Nonce)) (t : Tables Nonce Code)
      → HasUniqueNames t.accounts
      → let (answers, t') = handle_all cipher keys blank rs t in
        let (expected, left) = expect_all blank rs (view cipher keys blank t) in
        HasUniqueNames t'.accounts
        × (answers ≡ expected)
        × (view cipher keys blank t' ≡ left)
        × ((name : String) → get_credentials cipher keys name t' ≡ secret_of (left name))
  unfolding Agrees
  handle_all_refines rs t h =
      let (names, answers, left) = handle_all-Agrees rs t h in
      (
        names,
        answers,
        left,
        λ name.
            get_credentials-view name (handle_all cipher keys blank rs t).1
            ∙ ap (λ f. secret_of (f name)) left,
      )
