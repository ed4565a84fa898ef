-- ===== src/Accounts/Default.antt =====
-- The default account: it is one of the accounts, and there is one unless there are no accounts.
use funding_tool.Prelude.{
  ◌≡◌, ◌≢◌, refl, ap, ◌∙◌, Bool, false, Bool-cases, inl, inr, Option-cases, if◌then◌else◌, str_eq,
  eq_iff, String, Option, none, some, List, [], ◌∷◌, ◌++◌, arith,
}
use funding_tool.Errors.{Result, ok, err, Ensures, Ensures-bind}
use funding_tool.Models.{ApiCredentials}
use funding_tool.Accounts.{
  Keyring, Account, Store, find, without, default_with, default_without, first_name, set_default,
  secrets_for, entered, add, Secrets, Account, delete_secrets, remove,
}

-- There is no default just when there are no accounts, and a default is the name of an account.
abbrev pub IsDefault : Option String → List (String × Account) → Type 0
IsDefault none as' = as' ≡ []
IsDefault (some d) as' = find d as' ≢ none

abbrev pub HasDefault : {K : Type 0} → Store K → Type 0
HasDefault st = IsDefault st.default st.accounts

pub find-append :
    (d n : String) (a : Account) (as' : List (String × Account))
    → find d (as' ++ (n, a) ∷ [])
      ≡ (elim (find d as') [ some b ↦ some b | none ↦ if str_eq n d then some a else none ])
unfolding find
find-append d n a [] = ground arith
find-append d n a ((m, b) ∷ as') = ground (arith, find-append d n a as')

find-without_other :
    (d n : String) (as' : List (String × Account))
    → str_eq d n ≡ false
    → find d (without n as') ≡ find d as'
unfolding find without
find-without_other d n [] h = refl
find-without_other d n ((m, b) ∷ as') h =
    ground (arith, find-without_other d n as', eq_iff m n, eq_iff m d, eq_iff d n)

IsDefault-first_name : (as' : List (String × Account)) → IsDefault (first_name as') as'
unfolding first_name find
IsDefault-first_name [] = refl
IsDefault-first_name ((n, a) ∷ as') = ground (arith, eq_iff n n)

IsDefault-default_with :
    (name : String) (a : Account) (d : Option String) (as' : List (String × Account))
    → IsDefault d as'
    → IsDefault (default_with name d) (as' ++ (name, a) ∷ [])
unfolding default_with
IsDefault-default_with name a none as' h = rw h (unfold find in ground (arith, eq_iff name name))
IsDefault-default_with name a (some d) as' h = ground (arith, find-append d name a as')

IsDefault-default_without :
    (name : String) (d : Option String) (as' : List (String × Account))
    → find name as' ≢ none
    → IsDefault d as'
    → IsDefault (default_without name d (without name as')) (without name as')
unfolding default_without
IsDefault-default_without name none as' there h =
    absurd (there (ap (find name) h ∙ unfold find in refl))
IsDefault-default_without name (some d) as' there h = elim (Bool-cases (str_eq d name)) [
  | inl same ↦ rw same (IsDefault-first_name (without name as'))
  | inr other ↦ rw other (rw (find-without_other d name as' other) h)
]

module _ {K : Type 0} (kr : Keyring K) where
  entered-HasDefault :
      (name : String) (entry : Secrets → Account) (st : Store K) (kept_as : Result Secrets × K)
      → HasDefault st
      → HasDefault (entered kr name entry st kept_as).1
  unfolding entered
  entered-HasDefault name entry st (ok s, k) h =
      IsDefault-default_with name (entry s) st.default st.accounts h
  entered-HasDefault name entry st (err e, k) h = h

  -- `add` keeps it, whether it raises or not: the store has a default just when it has accounts, and
  -- the default is one of them.
  HasDefault-add :
      (name exchange : String) (c : ApiCredentials) (created_at : String)
      (verified_at : Option String) (allow_plaintext : Bool) (st : Store K)
      → HasDefault st
      → HasDefault (add kr name exchange c created_at verified_at allow_plaintext st).1
  unfolding add
  HasDefault-add name exchange c created_at verified_at allow_plaintext st h =
      elim (Option-cases (find name st.accounts)) [
        | inr (a, there) ↦ rw (there, add) h
        | inl absent ↦
            rw (absent, add)
              (entered-HasDefault name _ st (secrets_for kr name c allow_plaintext st.keyring) h)
      ]

  HasDefault-remove :
      (name : String) (st : Store K) → HasDefault st → Ensures HasDefault (remove kr name st)
  unfolding remove
  HasDefault-remove name st h = elim (Option-cases (find name st.accounts)) [
    | inl absent ↦ rw (absent, remove) tt
    | inr (a, there) ↦
        rw (there, remove)
          (Ensures-bind HasDefault (delete_secrets kr a.secrets st.keyring) _
            λ k. IsDefault-default_without name st.default st.accounts (ground (arith, there)) h)
  ]

  HasDefault-set_default :
      (name : String) (st : Store K) → HasDefault st → Ensures HasDefault (set_default name st)
  unfolding set_default
  HasDefault-set_default name st h = elim (Option-cases (find name st.accounts)) [
    | inl absent ↦ rw (absent, set_default) tt
    | inr (a, there) ↦ rw (there, set_default) (ground (arith, there))
  ]

  -- A change of the store.
  pub data Change : Type 0 where
    adding : String → String → ApiCredentials → String → Option String → Bool → Change
    removing defaulting : String → Change

  -- Each command loads the store from its file and makes one change; one that raises does not save,
  -- so the next command finds the data as it was.
  abbrev pub kept : Store K → Result (Store K) → Store K
  kept st (ok st') = st'
  kept st (err e) = st

  abbrev pub changed : Change → Store K → Store K
  changed (adding name exchange c created_at verified_at allow_plaintext) st =
      (add kr name exchange c created_at verified_at allow_plaintext st).1
  changed (removing name) st = kept st (remove kr name st)
  changed (defaulting name) st = kept st (set_default name st)

  abbrev pub after_changes : List Change → Store K → Store K
  after_changes [] st = st
  after_changes (c ∷ cs) st = after_changes cs (changed c st)

  kept-HasDefault :
      (st : Store K) (m : Result (Store K))
      → HasDefault st
      → Ensures HasDefault m
      → HasDefault (kept st m)
  kept-HasDefault st (ok st') h e = e
  kept-HasDefault st (err x) h e = h

  -- From a store whose default is one of its accounts, or that has neither, any sequence of commands
  -- that add, remove or set the default, some of which may raise, leads to a store with the same
  -- property.
  pub after_changes-HasDefault :
      (cs : List Change) (st : Store K) → HasDefault st → HasDefault (after_changes cs st)
  after_changes-HasDefault [] st h = h
  after_changes-HasDefault (adding name exchange c created_at verified_at allow_plaintext ∷ cs) st
        h =
      after_changes-HasDefault cs _
        (HasDefault-add name exchange c created_at verified_at allow_plaintext st h)
  after_changes-HasDefault (removing name ∷ cs) st h =
      after_changes-HasDefault cs _
        (kept-HasDefault st (remove kr name st) h (HasDefault-remove name st h))
  after_changes-HasDefault (defaulting name ∷ cs) st h =
      after_changes-HasDefault cs _
        (kept-HasDefault st (set_default name st) h (HasDefault-set_default name st h))
