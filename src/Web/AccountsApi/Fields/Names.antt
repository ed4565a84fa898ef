-- ===== src/Web/AccountsApi/Fields/Names.antt =====
-- The names of accounts in the paths of their routes.
use Prim.Native.Char.{code}
use funding_tool.Prelude.{
  ◌≤◌, ◌≡◌, refl, ap, Bool, true, false, Bool-cases, inl, inr, ◌==◌, str_eq, eq_iff, String, List,
  [], ◌∷◌, arith,
}
use funding_tool.Csrf.{split_slash, onto_first}
use funding_tool.Models.{PermissionReport}
use funding_tool.Vault.{Cipher, Keys, Tables, add_account}
use funding_tool.Vault.Listing.{AccountRecord}
use funding_tool.Errors.{Result-cases}
use funding_tool.Web.{Awaited, Handled, returned, failed, http, plain_text, Handled-cases}
use funding_tool.Web.AccountsApi.{
  AccountCreateRequest, AccountOut, verified, find_record, created, record_to_out, write_back,
  persist, create_account, credentials_of,
}
use funding_tool.Web.AccountsApi.Fields.{
  Posted, unprocessable, handled, len, is_name_char, all_name_chars, matches_name, has_length,
  fields_ok, post_account,
}

-- A name has no slash, so that it is one part of a path.
split_slash-all_name_chars : (s : String) → all_name_chars s ≡ true → split_slash s ≡ s ∷ []
unfolding split_slash all_name_chars is_name_char onto_first
split_slash-all_name_chars String.[] h = refl
split_slash-all_name_chars (String.◌∷◌ c s) h =
    let other : code c == b'/' ≡ false = ground arith in
    rw (split_slash-all_name_chars s (ground arith), other) refl

matches-all_name_chars : (s : String) → matches_name s ≡ true → all_name_chars s ≡ true
unfolding matches_name all_name_chars
matches-all_name_chars String.[] h = refl
matches-all_name_chars (String.◌∷◌ c s) h = h

abbrev name_or : String → Handled AccountOut → String
name_or other (returned a) = a.name
name_or other (failed f) = other

abbrev handler_answer : Posted AccountOut → Handled AccountOut
handler_answer unprocessable = failed (http 422 plain_text)
handler_answer (handled answer) = answer

fields_ok-name :
    (p : AccountCreateRequest)
    → fields_ok p ≡ true
    → (1 ≤ len p.name) × (len p.name ≤ 64) × (all_name_chars p.name ≡ true)
unfolding fields_ok has_length
fields_ok-name p h = (ground arith, ground arith, matches-all_name_chars p.name (ground arith))

-- A record that is found has the name that was looked for.
created-find_record :
    (name : String) (rs : List AccountRecord) (a : AccountOut)
    → created (find_record name rs) ≡ returned a
    → a.name ≡ name
unfolding created find_record record_to_out
created-find_record name [] a h = cc
created-find_record name (r ∷ rs) a h = elim (Bool-cases (str_eq r.name name)) [
  | inl same ↦
      let found : r.name ≡ a.name = ap (name_or "") (rw same at h) in
      ground (arith, found, eq_iff r.name name, same)
  | inr other ↦ created-find_record name rs a (rw other at h)
]

module _ {Key Nonce Code : Type 0} (cipher : Cipher Key Nonce Code) (keys : Keys Key)
    (blank : String → Bool) (p : AccountCreateRequest) (v : Awaited PermissionReport)
    (now checked_at : String) (nonce : Nonce) (t : Tables Nonce Code) (a : AccountOut) where
  persist-name :
      (report : PermissionReport)
      → (persist cipher keys blank p report now checked_at nonce t).0 ≡ returned a
      → a.name ≡ p.name
  unfolding write_back persist
  persist-name report h =
      elim (Result-cases
        (add_account cipher keys blank p.name p.label (credentials_of p) now nonce t)) [
          | inl (t', e) ↦ created-find_record p.name _ a (rw (e, persist) at h)
          | inr (x, e) ↦ absurd (ground (arith, (rw (e, persist) at h)))
        ]

  create_account-name :
      (create_account cipher keys blank p v now checked_at nonce t).0 ≡ returned a → a.name ≡ p.name
  unfolding create_account
  create_account-name h = elim (Handled-cases (verified v)) [
    | inl (report, e) ↦ persist-name report (rw (e, create_account) at h)
    | inr (f, e) ↦ absurd (ground (arith, (rw (e, create_account) at h)))
  ]

  -- An account that a POST has created has the name that was asked for, of 1 to 64 characters, and
  -- a path that is split at its slashes has this name as one part.
  pub post_account-addressable :
      (post_account cipher keys blank p v now checked_at nonce t).0 ≡ handled (returned a)
      → (a.name ≡ p.name)
        × ((1 ≤ len a.name) × (len a.name ≤ 64))
        × (split_slash a.name ≡ a.name ∷ [])
  unfolding post_account
  post_account-addressable h = elim (Bool-cases (fields_ok p)) [
    | inr bad ↦ absurd (ground (arith, (rw (bad, post_account) at h)))
    | inl good ↦
        let done = ap handler_answer (rw (good, post_account) at h) in
        let name = create_account-name done in
        let (low, high, chars) = fields_ok-name p good in
        let part = split_slash-all_name_chars p.name chars in
        (name, rw name (low, high), rw name part)
  ]
