-- ===== src/Cache/Stats.antt =====
-- stats of core/cache.py: for each exchange and symbol of the table the number of its rows, and the
-- first and the last of their times. `iso_date` is the date of an instant in ISO format.
use funding_tool.Prelude.{
  ℕ, suc, Bool, ◌&&◌, leb, str_eq, text_le, if◌then◌else◌, String, List, [], ◌∷◌, map,
}
use funding_tool.Time.{DateTime, from_ms}
use funding_tool.Cache.{Row}

-- A group of the query.
pub record Group : Type 0 where
  pub exchange : String
  pub symbol : String
  pub rows : ℕ
  pub min_ms : ℕ
  pub max_ms : ℕ

pub record Stat : Type 0 where
  pub exchange : String
  pub symbol : String
  pub rows : ℕ
  pub first : String
  pub last : String

unfoldable pub smaller : ℕ → ℕ → ℕ
smaller a b = if leb a b then a else b

unfoldable pub larger : ℕ → ℕ → ℕ
larger a b = if leb a b then b else a

unfoldable pub stat_of : (DateTime → String) → Group → Stat
stat_of iso_date g = record {
  exchange = g.exchange;
  symbol = g.symbol;
  rows = g.rows;
  first = iso_date (from_ms g.min_ms);
  last = iso_date (from_ms g.max_ms);
}

module _ {Text : Type 0} where
  unfoldable pub group_of : Row Text → Group
  group_of r = record {
    exchange = r.exchange;
    symbol = r.symbol;
    rows = 1;
    min_ms = r.funding_ms;
    max_ms = r.funding_ms;
  }

  -- GROUP BY exchange, symbol
  unfoldable pub in_group : Row Text → Group → Bool
  in_group r g = str_eq r.exchange g.exchange && str_eq r.symbol g.symbol

  -- COUNT(*), MIN(funding_ms) and MAX(funding_ms)
  unfoldable pub with_row : Row Text → Group → Group
  with_row r g = record g {
    rows = suc g.rows;
    min_ms = smaller r.funding_ms g.min_ms;
    max_ms = larger r.funding_ms g.max_ms;
  }

  -- ORDER BY exchange, symbol
  unfoldable pub is_before : Row Text → Group → Bool
  is_before r g =
      if str_eq r.exchange g.exchange
      then text_le r.symbol g.symbol
      else text_le r.exchange g.exchange

  unfoldable pub add_row : Row Text → List Group → List Group
  add_row r [] = group_of r ∷ []
  add_row r (g ∷ gs) =
      let rest = add_row r gs in
      if in_group r g
      then with_row r g ∷ gs
      else if is_before r g
      then group_of r ∷ g ∷ gs
      else g ∷ rest

  unfoldable pub groups : List (Row Text) → List Group
  groups [] = []
  groups (r ∷ rs) = add_row r (groups rs)

  unfoldable pub stats : (DateTime → String) → List (Row Text) → List Stat
  stats iso_date t = map (stat_of iso_date) (groups t)
