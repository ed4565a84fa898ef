-- ===== src/Vault/Unique.antt =====
-- The names of the rows are pairwise different, which the primary key of the table says: every
-- change of the table keeps it, and a row is then found alike in any order of the table.
use funding_tool.Prelude.{
  ◌≡◌, refl, true, false, str_eq, eq_iff, if◌then◌else◌, String, Option, none, some, List, [], ◌∷◌,
  ◌++◌, Bool, arith,
}
use mathlib.Core.Option.{map as map_option}
use funding_tool.Vault.{VaultRow, find_row, delete_row, update_rows}
use funding_tool.Vault.Access.{find_row-append, find_row-delete_row}
use funding_tool.Vault.Listing.{insert_by_created, by_created}

module _ {Nonce Code : Type 0} where
  unfoldable pub HasUniqueNames : List (VaultRow Nonce Code) → Type 0
  HasUniqueNames [] = Unit
  HasUniqueNames (r ∷ rs) = (find_row r.name rs ≡ none) × HasUniqueNames rs

  unfoldable pub permitted :
      Option Bool → Option Bool → Option Bool → String → VaultRow Nonce Code → VaultRow Nonce Code
  permitted read trade withdraw now r = record r {
    perm_read = read;
    perm_trade = trade;
    perm_withdraw = withdraw;
    perm_checked_at = some now;
  }

  if-HasUniqueNames :
      (b : Bool) (rs xs : List (VaultRow Nonce Code))
      → HasUniqueNames rs
      → HasUniqueNames xs
      → HasUniqueNames (if b then rs else xs)
  if-HasUniqueNames true rs xs h k = h
  if-HasUniqueNames false rs xs h k = k

  pub append-HasUniqueNames :
      (rs : List (VaultRow Nonce Code)) (r : VaultRow Nonce Code)
      → find_row r.name rs ≡ none
      → HasUniqueNames rs
      → HasUniqueNames (rs ++ r ∷ [])
  unfolding HasUniqueNames find_row
  append-HasUniqueNames [] r new h = (refl, tt)
  append-HasUniqueNames (x ∷ rs) r new h = (
    ground
        (arith, find_row-append x.name r rs, new, h.0, eq_iff x.name r.name, eq_iff r.name x.name),
    append-HasUniqueNames rs r (ground (arith, new)) h.1,
  )

  pub delete_row-HasUniqueNames :
      (name : String) (rs : List (VaultRow Nonce Code))
      → HasUniqueNames rs
      → HasUniqueNames (delete_row name rs)
  unfolding HasUniqueNames delete_row
  delete_row-HasUniqueNames name [] h = tt
  delete_row-HasUniqueNames name (x ∷ rs) h =
      let kept = delete_row-HasUniqueNames name rs h.1 in
      let gone : find_row x.name (delete_row name rs) ≡ none =
        ground (arith, find_row-delete_row name x.name rs, h.0) in
      if-HasUniqueNames (str_eq x.name name) _ _ kept (gone, kept)

  pub find_row-update_rows :
      (name j : String) (read trade withdraw : Option Bool) (now : String)
      (rs : List (VaultRow Nonce Code))
      → find_row j (update_rows name read trade withdraw now rs) ≡ (
          if str_eq name j
          then map_option (permitted read trade withdraw now) (find_row j rs)
          else find_row j rs)
  unfolding find_row update_rows permitted
  find_row-update_rows name j read trade withdraw now [] = ground arith
  find_row-update_rows name j read trade withdraw now (r ∷ rs) = ground (
    arith,
    find_row-update_rows name j read trade withdraw now rs,
    eq_iff r.name name,
    eq_iff r.name j,
    eq_iff name j,
  )

  pub update_rows-HasUniqueNames :
      (name : String) (read trade withdraw : Option Bool) (now : String)
      (rs : List (VaultRow Nonce Code))
      → HasUniqueNames rs
      → HasUniqueNames (update_rows name read trade withdraw now rs)
  unfolding HasUniqueNames update_rows
  update_rows-HasUniqueNames name read trade withdraw now [] h = tt
  update_rows-HasUniqueNames name read trade withdraw now (x ∷ rs) h =
      let kept = update_rows-HasUniqueNames name read trade withdraw now rs h.1 in
      let new : find_row x.name (update_rows name read trade withdraw now rs) ≡ none =
        ground (arith, find_row-update_rows name x.name read trade withdraw now rs, h.0) in
      if-HasUniqueNames (str_eq x.name name) _ _ (new, kept) (new, kept)

  find_row-insert_by_created :
      (j : String) (r : VaultRow Nonce Code) (rs : List (VaultRow Nonce Code))
      → find_row r.name rs ≡ none
      → find_row j (insert_by_created r rs) ≡ (if str_eq r.name j then some r else find_row j rs)
  unfolding find_row insert_by_created
  find_row-insert_by_created j r [] new = refl
  find_row-insert_by_created j r (x ∷ rs) new = ground (
    arith,
    find_row-insert_by_created j r rs (ground (arith, new)),
    new,
    eq_iff r.name j,
    eq_iff x.name j,
    eq_iff x.name r.name,
  )

  pub find_row-by_created :
      (j : String) (rs : List (VaultRow Nonce Code))
      → HasUniqueNames rs
      → find_row j (by_created rs) ≡ find_row j rs
  unfolding find_row by_created HasUniqueNames
  find_row-by_created j [] h = refl
  find_row-by_created j (r ∷ rs) h =
      let sorted = find_row-by_created r.name rs h.1 in
      ground (
        arith,
        find_row-insert_by_created j r (by_created rs) (ground (arith, sorted, h.0)),
        find_row-by_created j rs h.1,
      )
