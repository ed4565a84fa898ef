-- ===== src/Cache/Table.antt =====
-- The table as a map: what is found under a primary key after an insertion, and that no key is there
-- twice.
use funding_tool.Prelude.{
  ℕ, ◌&&◌, ◌==◌, ◌≡◌, refl, ap, ◌∙◌, Bool-cases, inl, inr, if◌then◌else◌, str_eq, eq_iff, String,
  Option, none, some, List, [], ◌∷◌, arith,
}
use funding_tool.Cache.{Row, has_key, without, insert_or_replace, insert_all}

module _ {Text : Type 0} where
  -- The row under a primary key.
  unfoldable pub find : String → String → ℕ → List (Row Text) → Option (Row Text)
  find e s ms [] = none
  find e s ms (r ∷ t) = if has_key e s ms r then some r else find e s ms t

  -- No two rows have one key.
  abbrev pub IsKeyed : List (Row Text) → Type 0
  IsKeyed [] = Unit
  IsKeyed (r ∷ t) = (find r.exchange r.symbol r.funding_ms t ≡ none) × IsKeyed t

  pub find-without :
      (e s : String) (ms : ℕ) (f u : String) (n : ℕ) (t : List (Row Text))
      → find f u n (without e s ms t)
        ≡ (if str_eq e f && str_eq s u && ms == n then none else find f u n t)
  unfolding find without has_key
  find-without e s ms f u n [] = ground arith
  find-without e s ms f u n (r ∷ t) = ground (
    arith,
    find-without e s ms f u n t,
    eq_iff r.exchange e,
    eq_iff r.exchange f,
    eq_iff e f,
    eq_iff r.symbol s,
    eq_iff r.symbol u,
    eq_iff s u,
  )

  -- An insertion changes what is found under the row's own key, and under no other.
  pub find-insert_or_replace :
      (r : Row Text) (f u : String) (n : ℕ) (t : List (Row Text))
      → find f u n (insert_or_replace r t) ≡ (if has_key f u n r then some r else find f u n t)
  unfolding find insert_or_replace has_key
  find-insert_or_replace r f u n t =
      ground (arith, find-without r.exchange r.symbol r.funding_ms f u n t)

  -- The last of the rows with a key, and what is there already if none has it.
  unfoldable pub newest :
      String → String → ℕ → List (Row Text) → Option (Row Text) → Option (Row Text)
  newest f u n [] old = old
  newest f u n (r ∷ rs) old = newest f u n rs (if has_key f u n r then some r else old)

  -- After rows are put, the last of them with a key is found under it, and under a key that none of
  -- them has what was there before.
  pub find-insert_all :
      (rs : List (Row Text)) (f u : String) (n : ℕ) (t : List (Row Text))
      → find f u n (insert_all rs t) ≡ newest f u n rs (find f u n t)
  unfolding insert_all newest
  find-insert_all [] f u n t = refl
  find-insert_all (r ∷ rs) f u n t =
      find-insert_all rs f u n (insert_or_replace r t)
      ∙ ap (newest f u n rs) (find-insert_or_replace r f u n t)

  IsKeyed-without :
      (e s : String) (ms : ℕ) (t : List (Row Text)) → IsKeyed t → IsKeyed (without e s ms t)
  unfolding without
  IsKeyed-without e s ms [] h = tt
  IsKeyed-without e s ms (r ∷ t) h = elim (Bool-cases (has_key e s ms r)) [
    | inl same ↦ rw same (IsKeyed-without e s ms t h.1)
    | inr other ↦ rw other (
      ground (arith, find-without e s ms r.exchange r.symbol r.funding_ms t),
      IsKeyed-without e s ms t h.1,
    )
  ]

  pub IsKeyed-insert_or_replace :
      (r : Row Text) (t : List (Row Text)) → IsKeyed t → IsKeyed (insert_or_replace r t)
  unfolding insert_or_replace
  IsKeyed-insert_or_replace r t h = (
    ground (
      arith,
      find-without r.exchange r.symbol r.funding_ms r.exchange r.symbol r.funding_ms t,
      eq_iff r.exchange r.exchange,
      eq_iff r.symbol r.symbol,
    ),
    IsKeyed-without r.exchange r.symbol r.funding_ms t h,
  )

  -- A table without repeated primary keys has none after rows are put, whether they replace others or
  -- not.
  pub IsKeyed-insert_all : (rs t : List (Row Text)) → IsKeyed t → IsKeyed (insert_all rs t)
  unfolding insert_all
  IsKeyed-insert_all [] t h = h
  IsKeyed-insert_all (r ∷ rs) t h =
      IsKeyed-insert_all rs (insert_or_replace r t) (IsKeyed-insert_or_replace r t h)
