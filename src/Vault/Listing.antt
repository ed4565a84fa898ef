-- ===== src/Vault/Listing.antt =====
-- list_accounts: the rows without their secrets, in the order of `created_at`.
use funding_tool.Prelude.{text_le, Bool, if◌then◌else◌, String, Option, List, [], ◌∷◌, map}
use funding_tool.Vault.{VaultRow, Tables}

pub record AccountRecord : Type 0 where
  pub name : String
  pub label : String
  pub created_at : String
  pub key_first6 : String
  pub perm_read : Option Bool
  pub perm_trade : Option Bool
  pub perm_withdraw : Option Bool

module _ {Nonce Code : Type 0} where
  unfoldable pub record_of : VaultRow Nonce Code → AccountRecord
  record_of r = record {
    name = r.name;
    label = r.label;
    created_at = r.created_at;
    key_first6 = r.key_first6;
    perm_read = r.perm_read;
    perm_trade = r.perm_trade;
    perm_withdraw = r.perm_withdraw;
  }

  -- ORDER BY created_at
  unfoldable pub insert_by_created :
      VaultRow Nonce Code → List (VaultRow Nonce Code) → List (VaultRow Nonce Code)
  insert_by_created r [] = r ∷ []
  insert_by_created r (x ∷ xs) =
      let rest = insert_by_created r xs in
      if text_le r.created_at x.created_at then r ∷ x ∷ xs else x ∷ rest

  unfoldable pub by_created : List (VaultRow Nonce Code) → List (VaultRow Nonce Code)
  by_created [] = []
  by_created (r ∷ rs) = insert_by_created r (by_created rs)

  unfoldable pub list_accounts : Tables Nonce Code → List AccountRecord
  list_accounts t = map record_of (by_created t.accounts)
