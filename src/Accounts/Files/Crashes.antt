-- ===== src/Accounts/Files/Crashes.antt =====
-- A process that is killed while it saves, and a new one behind it.
use funding_tool.Prelude.{◌≡◌, refl, subst, ◌⊎◌, inl, inr, Option, none, some, Option-cases}
use funding_tool.Errors.{ok}
use funding_tool.Accounts.{Store}
use funding_tool.Accounts.Files.{
  Index, Document, mapping, File, Files, with_default, index_of, owner_only, load_main, load,
  open_new, unlink, open_tmp, with_text, write, replace, save, Saving, untouched, unlinked, written,
  saved, opened, index,
}

module _ {Text : Type 0} (dump : Index → Text) (parse : Text → Document) (blank : Text)
    (exact : (d : Index) → parse (dump d) ≡ mapping (some d.default) (some d.accounts)) where
  -- A file that its owner only may read and write.
  abbrev pub IsPrivate : Option (File Text) → Type 0
  IsPrivate f = (text : Text) × (f ≡ some (record { mode = owner_only; text = text }))

  abbrev made : Files Text → Files Text
  made fs = record fs { tmp = some (record { mode = owner_only; text = blank }) }

  open_tmp_lem : (fs : Files Text) → open_tmp dump parse blank fs ≡ some (made fs)
  unfolding open_tmp open_new unlink
  open_tmp_lem fs = elim (Option-cases fs.tmp) [
    | inl e ↦ rw (e, open_tmp) refl
    | inr (f, e) ↦ rw (e, open_tmp) refl
  ]

  abbrev replaced : Index → Files Text
  replaced d = record { main = some (record { mode = owner_only; text = dump d }); tmp = none }

  save_lem : (d : Index) (fs : Files Text) → save dump parse blank d fs ≡ some (replaced d)
  unfolding save write with_text replace
  save_lem d fs = rw (open_tmp_lem fs, save) refl

  load-replaced : (d : Index) → load dump parse blank (replaced d) ≡ ok d
  unfolding load load_main index_of with_default
  load-replaced d = rw (exact d) refl

  saves :
      (fs : Files Text) (d : Index)
      → (fs' : Files Text) × (save dump parse blank d fs ≡ some fs')
        × (load dump parse blank fs' ≡ ok d)
  saves fs d = (replaced d, save_lem d fs, load-replaced d)

  -- What a new process finds, in place of the files `fs` before the index `d` was saved.
  pub record IsRecoverable (d : Index) (fs fs' : Files Text) : Type 0 where
    pub loads :
        (load dump parse blank fs' ≡ load dump parse blank fs) ⊎ (load dump parse blank fs' ≡ ok d)
    pub main : (fs'.main ≡ fs.main) ⊎ IsPrivate fs'.main
    pub tmp : (fs'.tmp ≡ fs.tmp) ⊎ (fs'.tmp ≡ none) ⊎ IsPrivate fs'.tmp
    pub saves :
        (d' : Index)
        → (fs'' : Files Text) × (save dump parse blank d' fs' ≡ some fs'')
          × (load dump parse blank fs'' ≡ ok d')

  made-IsRecoverable :
      (d : Index) (fs : Files Text) (text : Text)
      → IsRecoverable d fs (write dump parse blank text (made fs))
  unfolding write with_text load
  made-IsRecoverable d fs text = record {
    loads = inl refl;
    main = inl refl;
    tmp = inr (inr (text, refl));
    saves = saves _;
  }

  replaced-IsRecoverable : (d : Index) (fs : Files Text) → IsRecoverable d fs (replaced d)
  replaced-IsRecoverable d fs = record {
    loads = inr (load-replaced d);
    main = inr (dump d, refl);
    tmp = inr (inl refl);
    saves = saves (replaced d);
  }

  -- A text that is dumped is read back. Whenever a process is killed while it saves an index, a new
  -- one loads what was there before, or the new index; the file is then as before, or readable and
  -- writable by its owner only, and so is the temporary file, if there is one; and a temporary file
  -- that is left does not hinder: each later save succeeds, and what it saves is loaded.
  pub Saving-IsRecoverable :
      (d : Index) (fs fs' : Files Text) → Saving dump parse blank d fs fs' → IsRecoverable d fs fs'
  unfolding unlink load
  Saving-IsRecoverable d fs _ untouched = record {
    loads = inl refl;
    main = inl refl;
    tmp = inl refl;
    saves = saves fs;
  }
  Saving-IsRecoverable d fs _ unlinked = record {
    loads = inl refl;
    main = inl refl;
    tmp = inr (inl refl);
    saves = saves _;
  }
  Saving-IsRecoverable d fs _ (written fs' text e) =
      let same : made fs ≡ fs' = cc (open_tmp_lem fs) in
      subst (λ f. IsRecoverable d fs (write dump parse blank text f)) same
        (made-IsRecoverable d fs text)
  Saving-IsRecoverable d fs _ (saved fs' e) =
      let same : replaced d ≡ fs' = cc (save_lem d fs) in
      subst (IsRecoverable d fs) same (replaced-IsRecoverable d fs)

  -- A new process has the store that was saved, if the keyring is still as it was.
  pub opened-save :
      {K : Type 0} (st : Store K) (fs fs' : Files Text)
      → save dump parse blank (index st) fs ≡ some fs'
      → opened st.keyring (load dump parse blank fs') ≡ ok st
  unfolding opened index
  opened-save st fs fs' e =
      let same : replaced (index st) ≡ fs' = cc (save_lem (index st) fs) in
      subst (λ f. opened st.keyring (load dump parse blank f) ≡ ok st) same
        (rw (load-replaced (index st)) refl)
