-- ===== src/Cache/Window.antt =====
-- The window query: it finds exactly the rows of the window, in ascending order.
use funding_tool.Prelude.{
  ℕ, ◌≤◌, ◌<◌, ◌&&◌, leb, ◌==◌, ◌≡◌, refl, Bool-cases, inl, inr, if◌then◌else◌, eq_iff, String,
  Option, none, some, List, [], ◌∷◌, All, arith,
}
use funding_tool.Cache.{Row, has_key, matches, insert_by_ms, select}
use funding_tool.Cache.Table.{find, IsKeyed}

module _ {Text : Type 0} where
  -- The row of a selection at a time.
  unfoldable pub at_ms : ℕ → List (Row Text) → Option (Row Text)
  at_ms ms [] = none
  at_ms ms (r ∷ t) = if r.funding_ms == ms then some r else at_ms ms t

  abbrev pub IsAfter : ℕ → Row Text → Type 0
  IsAfter ms r = ms < r.funding_ms

  -- Strictly ascending times.
  abbrev pub IsAscending : List (Row Text) → Type 0
  IsAscending [] = Unit
  IsAscending (r ∷ t) = All (IsAfter r.funding_ms) t × IsAscending t

  at_ms-insert_by_ms :
      (ms : ℕ) (r : Row Text) (t : List (Row Text))
      → at_ms ms (insert_by_ms r t) ≡ (if r.funding_ms == ms then some r else at_ms ms t)
  unfolding at_ms insert_by_ms
  at_ms-insert_by_ms ms r [] = refl
  at_ms-insert_by_ms ms r (x ∷ t) = ground (arith, at_ms-insert_by_ms ms r t)

  -- A row is in the selection exactly if it is in the window and in the table under its key.
  pub at_ms-select :
      (e s : String) (lo hi ms : ℕ) (t : List (Row Text))
      → at_ms ms (select e s lo hi t) ≡ (if leb lo ms && leb ms hi then find e s ms t else none)
  unfolding select find matches has_key
  at_ms-select e s lo hi ms [] = unfold at_ms in ground arith
  at_ms-select e s lo hi ms (r ∷ t) =
      ground (arith, at_ms-select e s lo hi ms t, at_ms-insert_by_ms ms r (select e s lo hi t))

  All-insert_by_ms :
      (ms : ℕ) (r : Row Text) (t : List (Row Text))
      → ms < r.funding_ms
      → All (IsAfter ms) t
      → All (IsAfter ms) (insert_by_ms r t)
  unfolding insert_by_ms
  All-insert_by_ms ms r [] h k = (h, tt)
  All-insert_by_ms ms r (x ∷ t) h k = elim (Bool-cases (leb r.funding_ms x.funding_ms)) [
    | inl before ↦ rw before (h, k)
    | inr behind ↦ rw behind (k.0, All-insert_by_ms ms r t h k.1)
  ]

  All-later : (m n : ℕ) (t : List (Row Text)) → m ≤ n → All (IsAfter n) t → All (IsAfter m) t
  All-later m n [] h k = tt
  All-later m n (x ∷ t) h k = (omega arith, All-later m n t h k.1)

  IsAscending-insert_by_ms :
      (r : Row Text) (t : List (Row Text))
      → at_ms r.funding_ms t ≡ none
      → IsAscending t
      → IsAscending (insert_by_ms r t)
  unfolding insert_by_ms at_ms
  IsAscending-insert_by_ms r [] h k = (tt, tt)
  IsAscending-insert_by_ms r (x ∷ t) h k = elim (Bool-cases (leb r.funding_ms x.funding_ms)) [
    | inl before ↦
        let lt : r.funding_ms < x.funding_ms = ground arith in
        rw before ((lt, All-later r.funding_ms x.funding_ms t (omega arith) k.0), k)
    | inr behind ↦ rw behind (
      All-insert_by_ms x.funding_ms r t (ground arith) k.0,
      IsAscending-insert_by_ms r t (ground arith) k.1,
    )
  ]

  -- Over a table without repeated keys the selection ascends strictly.
  pub select-IsAscending :
      (e s : String) (lo hi : ℕ) (t : List (Row Text))
      → IsKeyed t
      → IsAscending (select e s lo hi t)
  unfolding select
  select-IsAscending e s lo hi [] h = tt
  select-IsAscending e s lo hi (r ∷ t) h = elim (Bool-cases (matches e s lo hi r)) [
    | inl yes' ↦ rw yes' (
        IsAscending-insert_by_ms r (select e s lo hi t)
          (unfold matches in
            ground (
              arith,
              at_ms-select e s lo hi r.funding_ms t,
              eq_iff r.exchange e,
              eq_iff r.symbol s,
            ))
          (select-IsAscending e s lo hi t h.1))
    | inr no' ↦ rw no' (select-IsAscending e s lo hi t h.1)
  ]
