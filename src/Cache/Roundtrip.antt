-- ===== src/Cache/Roundtrip.antt =====
-- Ascending rows that fill an empty table are what the window query returns.
use funding_tool.Prelude.{
  ℕ, ◌≤◌, ◌≡◌, refl, sym, ◌∙◌, false, Bool-cases, inl, inr, leb, ◌&&◌, eq_iff, String, Option, none,
  some, List, [], ◌∷◌, ap₂, All, arith,
}
use funding_tool.Cache.{Row, has_key, insert_all, select}
use funding_tool.Cache.Table.{find, newest, find-insert_all, IsKeyed-insert_all}
use funding_tool.Cache.Window.{at_ms, IsAfter, IsAscending, at_ms-select, select-IsAscending}

module _ {Text : Type 0} where
  at_ms_before : (ms n : ℕ) (t : List (Row Text)) → ms ≤ n → All (IsAfter n) t → at_ms ms t ≡ none
  unfolding at_ms
  at_ms_before ms n [] h k = refl
  at_ms_before ms n (x ∷ t) h k = ground (arith, at_ms_before ms n t h k.1)

  -- An ascending selection is determined by what stands at each time.
  ascending_ext :
      (a b : List (Row Text))
      → IsAscending a
      → IsAscending b
      → ((ms : ℕ) → at_ms ms a ≡ at_ms ms b)
      → a ≡ b
  unfolding at_ms
  ascending_ext [] [] h k e = refl
  ascending_ext [] (y ∷ b) h k e = absurd (ground (arith, e y.funding_ms))
  ascending_ext (x ∷ a) [] h k e = absurd (ground (arith, e x.funding_ms))
  ascending_ext (x ∷ a) (y ∷ b) h k e =
      let same_ms : x.funding_ms ≡ y.funding_ms = ground (
        arith,
        e x.funding_ms,
        e y.funding_ms,
        at_ms_before y.funding_ms x.funding_ms a,
        at_ms_before x.funding_ms y.funding_ms b,
      ) in
      let same : x ≡ y = ground (arith, e x.funding_ms) in
      ap₂ ◌∷◌ same (
        ascending_ext a b h.1 k.1 (λ ms.
          ground (arith, e ms, at_ms_before ms x.funding_ms a, at_ms_before ms y.funding_ms b)))

  -- All rows are of one exchange and symbol, within a window.
  abbrev pub IsOf : String → String → ℕ → ℕ → Row Text → Type 0
  IsOf e s lo hi r = (r.exchange ≡ e) × (r.symbol ≡ s) × (lo ≤ r.funding_ms) × (r.funding_ms ≤ hi)

  newest_of :
      (e s : String) (lo hi n : ℕ) (rs : List (Row Text)) (old : Option (Row Text))
      → IsAscending rs
      → All (IsOf e s lo hi) rs
      → newest e s n rs old ≡ elim (at_ms n rs) [ none ↦ old | some r ↦ some r ]
  unfolding newest at_ms has_key
  newest_of e s lo hi n [] old h k = refl
  newest_of e s lo hi n (r ∷ rs) old h k =
      newest_of e s lo hi n rs _ h.1 k.1
      ∙ ground (arith, at_ms_before n r.funding_ms rs, eq_iff r.exchange e, eq_iff r.symbol s)

  at_ms_outside :
      (e s : String) (lo hi n : ℕ) (rs : List (Row Text))
      → All (IsOf e s lo hi) rs
      → (leb lo n && leb n hi) ≡ false
      → at_ms n rs ≡ none
  unfolding at_ms
  at_ms_outside e s lo hi n [] k o = refl
  at_ms_outside e s lo hi n (r ∷ rs) k o = ground (arith, at_ms_outside e s lo hi n rs k.1 o)

  -- The window query over a table that was filled with ascending rows of the window returns them.
  pub select-insert_all :
      (e s : String) (lo hi : ℕ) (rs : List (Row Text))
      → IsAscending rs
      → All (IsOf e s lo hi) rs
      → select e s lo hi (insert_all rs []) ≡ rs
  select-insert_all e s lo hi rs h k =
      ascending_ext _ _ (select-IsAscending e s lo hi _ (IsKeyed-insert_all rs [] tt)) h λ ms.
        at_ms-select e s lo hi ms (insert_all rs []) ∙ elim (Bool-cases (leb lo ms && leb ms hi)) [
          | inl inside ↦ rw inside (
              find-insert_all rs e s ms []
              ∙ newest_of e s lo hi ms rs _ h k
              ∙ unfold find in ground arith)
          | inr outside ↦ rw outside (sym (at_ms_outside e s lo hi ms rs k outside))
        ]
