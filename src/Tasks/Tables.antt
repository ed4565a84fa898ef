-- ===== src/Tasks/Tables.antt =====
-- Tables of tasks, by their ids: lookups after a change.
use funding_tool.Prelude.{
  ℕ, ◌+◌, ◌≡◌, ◌⊎◌, inl, inr, refl, ◌∙◌, Bool-cases, ltb, str_eq, eq_iff, if◌then◌else◌, String,
  none, some, List, [], ◌∷◌, arith,
}
use funding_tool.Tasks.{Task, find, assign, unexpired}

module _ {R : Type 0} where
  pub find-assign :
      (id j : String) (t : Task R) (ts : List (String × Task R))
      → find j (assign id t ts) ≡ (if str_eq id j then some t else find j ts)
  unfolding find assign
  find-assign id j t [] = ground arith
  find-assign id j t ((k, u) ∷ ts) =
      ground (arith, find-assign id j t ts, eq_iff k id, eq_iff k j, eq_iff id j)

  -- A table of tasks without repeated ids.
  abbrev pub IsTable : List (String × Task R) → Type 0
  IsTable [] = Unit
  IsTable ((j, t) ∷ ts) = (find j ts ≡ none) × IsTable ts

  pub IsTable-assign :
      (id : String) (t : Task R) (ts : List (String × Task R))
      → IsTable ts
      → IsTable (assign id t ts)
  unfolding assign find
  IsTable-assign id t [] h = (refl, tt)
  IsTable-assign id t ((j, u) ∷ ts) h = elim (Bool-cases (str_eq j id)) [
    | inl same ↦ rw same h
    | inr other ↦ rw other (
      ground (arith, find-assign id j t ts, eq_iff j id, eq_iff id j),
      IsTable-assign id t ts h.1,
    )
  ]

  -- What is left of a file after a sweep.
  pub find-unexpired :
      (ttl now : ℕ) (j : String) (ts : List (String × Task R))
      → IsTable ts
      → (find j (unexpired ttl now ts) ≡ none) ⊎ (find j (unexpired ttl now ts) ≡ find j ts)
  unfolding find unexpired
  find-unexpired ttl now j [] h = inl refl
  find-unexpired ttl now j ((k, t) ∷ ts) h =
      ground (arith, find-unexpired ttl now j ts h.1, eq_iff k j)

  pub IsTable-unexpired :
      (ttl now : ℕ) (ts : List (String × Task R)) → IsTable ts → IsTable (unexpired ttl now ts)
  unfolding unexpired
  IsTable-unexpired ttl now [] h = tt
  IsTable-unexpired ttl now ((k, t) ∷ ts) h = elim (Bool-cases (ltb (t.created + ttl) now)) [
    | inl old ↦ rw old (IsTable-unexpired ttl now ts h.1)
    | inr kept ↦ rw kept (
      elim (find-unexpired ttl now k ts h.1) [ inl e ↦ e | inr e ↦ e ∙ h.0 ],
      IsTable-unexpired ttl now ts h.1,
    )
  ]
