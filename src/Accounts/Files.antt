-- ===== src/Accounts/Files.antt =====
-- AccountStore._load and _save of core/account_store.py: the file of the index, and the temporary
-- file that replaces it. `dump` is yaml.safe_dump, `parse` yaml.safe_load, and `blank` an empty text.
pub mod Crashes
use funding_tool.Prelude.{ℕ, ◌≡◌, String, Option, none, some, List, []}
use funding_tool.Errors.{Result, ok, err, config_error, attribute_error, ◌>>=◌}
use funding_tool.Accounts.{Account, Store}

-- self._data
pub record Index : Type 0 where
  pub default : Option String
  pub accounts : List (String × Account)

-- What safe_load makes of a text: a YAMLError, a value that is false, a mapping with or without the
-- two keys, or any other value.
pub data Document : Type 0 where
  invalid falsy other_value : Document
  mapping : Option (Option String) → Option (List (String × Account)) → Document

pub record File (Text : Type 0) : Type 0 where
  pub mode : ℕ
  pub text : Text

-- The file at the path of the store, and the one with .tmp behind its name.
pub record Files (Text : Type 0) : Type 0 where
  pub main : Option (File Text)
  pub tmp : Option (File Text)

-- data.setdefault
unfoldable pub with_default {ℓ} : {A : Type ℓ} → A → Option A → A
with_default a none = a
with_default a (some b) = b

unfoldable pub index_of : Document → Result Index
index_of invalid = err config_error
index_of falsy = ok (record { default = none; accounts = [] })
index_of other_value = err attribute_error
index_of (mapping default accounts) =
    ok (record { default = with_default none default; accounts = with_default [] accounts })

-- 0o600
abbrev pub owner_only : ℕ
owner_only = 384

module _ {Text : Type 0} (dump : Index → Text) (parse : Text → Document) (blank : Text) where
  unfoldable pub load_main : Option (File Text) → Result Index
  load_main none = ok (record { default = none; accounts = [] })
  load_main (some f) = index_of (parse f.text)

  -- _load
  unfoldable pub load : Files Text → Result Index
  load fs = load_main fs.main

  -- os.open of the temporary file with O_EXCL; none is a FileExistsError.
  unfoldable pub open_new : Files Text → Option (Files Text)
  open_new fs = elim fs.tmp [
    | none ↦ some (record fs { tmp = some (record { mode = owner_only; text = blank }) })
    | some f ↦ none
  ]

  unfoldable pub unlink : Files Text → Files Text
  unlink fs = record fs { tmp = none }

  unfoldable pub open_tmp : Files Text → Option (Files Text)
  open_tmp fs = elim (open_new fs) [ none ↦ open_new (unlink fs) | some fs' ↦ some fs' ]

  unfoldable pub with_text : Text → Option (File Text) → Option (File Text)
  with_text text none = none
  with_text text (some f) = some (record f { text = text })

  unfoldable pub write : Text → Files Text → Files Text
  write text fs = record fs { tmp = with_text text fs.tmp }

  -- os.replace
  unfoldable pub replace : Files Text → Files Text
  replace fs = record { main = fs.tmp; tmp = none }

  -- _save
  unfoldable pub save : Index → Files Text → Option (Files Text)
  save d fs = elim (open_tmp fs) [ none ↦ none | some fs' ↦ some (replace (write (dump d) fs')) ]

  -- The files at a moment while _save runs, where a process may be killed: what is written of the
  -- temporary file at a moment may be any text.
  pub data Saving (d : Index) (fs : Files Text) : Files Text → Type 0 where
    untouched : Saving d fs fs
    unlinked : Saving d fs (unlink fs)
    written :
        (fs' : Files Text) (text : Text) → open_tmp fs ≡ some fs' → Saving d fs (write text fs')
    saved : (fs' : Files Text) → save d fs ≡ some fs' → Saving d fs fs'

-- The store that a new process makes of an index.
unfoldable pub opened : {K : Type 0} → K → Result Index → Result (Store K)
opened k index =
    index >>= λ d. ok (record { default = d.default; accounts = d.accounts; keyring = k })

-- What _save writes of a store.
unfoldable pub index : {K : Type 0} → Store K → Index
index st = record { default = st.default; accounts = st.accounts }
