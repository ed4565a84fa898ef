-- ===== src/Cli/CacheCmd.antt =====
-- cli/cache_cmd.py: what is in the cache, and clearing it. `upper` is str.upper.
use funding_tool.Prelude.{
  ℕ, suc, ◌+◌, ◌≡◌, ◌≢◌, ◌∙◌, refl, ap, true, false, str_eq, eq_iff, if◌then◌else◌, String, some,
  none, Option, List, [], ◌∷◌, map, length, arith,
}
use funding_tool.Time.{DateTime}
use funding_tool.Cache.{Row, delete_symbol, clear, remaining}
use funding_tool.Cache.Stats.{
  Group, Stat, group_of, in_group, with_row, add_row, groups, stat_of, stats,
}
use funding_tool.Accounts.Resolve.{given, text_of}
use funding_tool.Cli.HistoryCmd.{upper_symbol}

-- for row in stats: total += rows_count
unfoldable pub total_rows : List Stat → ℕ
total_rows [] = 0
total_rows (s ∷ ss) = s.rows + total_rows ss

-- The lines of the table, and the total below it.
unfoldable pub cache_info : {Text : Type 0} → (DateTime → String) → List (Row Text) → List Stat × ℕ
cache_info iso_date t = let lines = stats iso_date t in (lines, total_rows lines)

-- The rows that stay, and the number that is printed.
unfoldable pub cache_clear :
    {Text : Type 0} → (String → String) → Option String → List (Row Text) → List (Row Text) × ℕ
cache_clear upper symbol t = clear (upper_symbol upper symbol) t

-- The rows that the lines of a symbol count.
unfoldable pub rows_for : String → List Stat → ℕ
rows_for symbol [] = 0
rows_for symbol (s ∷ ss) =
    let rest = rows_for symbol ss in if str_eq s.symbol symbol then s.rows + rest else rest

module _ {Text : Type 0} (iso_date : DateTime → String) where
  total-add_row :
      (r : Row Text) (gs : List Group)
      → total_rows (map (stat_of iso_date) (add_row r gs))
        ≡ suc (total_rows (map (stat_of iso_date) gs))
  unfolding total_rows add_row stat_of with_row group_of
  total-add_row r [] = refl
  total-add_row r (g ∷ gs) = ground (arith, total-add_row r gs)

  total-stats : (t : List (Row Text)) → total_rows (stats iso_date t) ≡ length t
  unfolding stats groups total_rows
  total-stats [] = refl
  total-stats (r ∷ t) = total-add_row r (groups t) ∙ ap suc (total-stats t)

  rows_for-add_row :
      (symbol : String) (r : Row Text) (gs : List Group)
      → rows_for symbol (map (stat_of iso_date) (add_row r gs))
        ≡ (if str_eq r.symbol symbol then 1 else 0) + rows_for symbol (map (stat_of iso_date) gs)
  unfolding rows_for add_row stat_of with_row group_of in_group
  rows_for-add_row symbol r [] = ground arith
  rows_for-add_row symbol r (g ∷ gs) =
      ground (arith, rows_for-add_row symbol r gs, eq_iff r.symbol g.symbol)

  length-delete_symbol :
      (symbol : String) (t : List (Row Text))
      → length t ≡ rows_for symbol (stats iso_date t) + length (delete_symbol symbol t)
  unfolding stats groups delete_symbol
  length-delete_symbol symbol [] = unfold rows_for in refl
  length-delete_symbol symbol (r ∷ t) =
      ground (arith, rows_for-add_row symbol r (groups t), length-delete_symbol symbol t)

  -- What `cache info` counts is what `cache clear` deletes: its total is the number of rows, which
  -- clear reports if no symbol is given, and for a symbol that is not empty clear reports the rows of
  -- its lines, for each exchange.
  pub cache_clear-counts :
      (upper : String → String) (symbol : String) (t : List (Row Text))
      → symbol ≢ ""
      → upper symbol ≢ ""
      → ((cache_info iso_date t).1 ≡ length t)
        × (cache_clear upper none t ≡ ([], (cache_info iso_date t).1))
        × ((cache_clear upper (some symbol) t).1
            ≡ rows_for (upper symbol) (cache_info iso_date t).0)
  unfolding cache_info cache_clear clear remaining upper_symbol
  cache_clear-counts upper symbol t h k =
      let total = total-stats t in
      let asked : given (some symbol) ≡ true =
        unfold given in ground (arith, h, eq_iff symbol "") in
      let named : str_eq (upper symbol) "" ≡ false = ground (arith, k, eq_iff (upper symbol) "") in
      let kept : remaining (upper_symbol upper (some symbol)) t ≡ delete_symbol (upper symbol) t =
        unfold remaining upper_symbol text_of in rw (asked, upper_symbol) (rw named refl) in
      (
        total,
        unfold given in ap (λ (n : ℕ). ([], n)) (omega (arith, total)),
        omega (arith, ap length kept, length-delete_symbol (upper symbol) t),
      )
