-- ===== src/Cli/Tables/Amounts.antt =====
-- The rows of the totals by symbol: all of them, the largest amount first.
use mathlib.Core.List.{Mem, Perm, mem-cons_self, mem-append_left, mem-cons_of_mem}
use funding_tool.Prelude.{ℕ, ◌≡◌, ◌≢◌, refl, Bool, true, Option, some, List, [], ◌∷◌, map, All}
use funding_tool.Prelude.Int.{pos, ◌+ℤ◌}
use funding_tool.Text.{codes}
use funding_tool.Decimal.{Decimal}
use funding_tool.Decimal.Format.{signed_fixed}
use funding_tool.Decimal.Format.Reads.{read_decimal, of_number, IsNearest, read_decimal-format}
use funding_tool.Models.{HistoryResult}
use funding_tool.Time.{DateTime}
use funding_tool.Cli.Tables.{
  Printed, table, Item, sorted_items, larger_first, amount_row, shown_if, symbol_table,
  print_history_table,
}
use funding_tool.Cli.Tables.Descending.{
  IsDescending, HasFewDigits, sorted_items-IsSorted, IsSorted-IsDescending, All-sorted_items,
  sorted_items-perm,
}

-- A row of amounts is read as the name of an item and its amount at four places.
abbrev pub Shows : List (List ℕ) → Item → Type 0
Shows row (name, amount) =
    (text : List ℕ) × (row ≡ codes name ∷ text ∷ [])
    × (n : ℕ) × (read_decimal text ≡ of_number amount.neg (n, 4))
    × IsNearest n amount.coeff (amount.exp +ℤ pos 4)

amount_row-Shows : (x : Item) → Shows (amount_row x) x
unfolding amount_row
amount_row-Shows (name, amount) =
    let (n, near, _, read) = (read_decimal-format amount 4).1 in
    (signed_fixed 4 amount, refl, n, read, near)

-- The rows of a table, one for each item.
abbrev pub AllShow : List (List (List ℕ)) → List Item → Type 0
AllShow [] [] = Unit
AllShow [] (x ∷ xs) = ⊥
AllShow (r ∷ rs) [] = ⊥
AllShow (r ∷ rs) (x ∷ xs) = Shows r x × AllShow rs xs

map-AllShow : (xs : List Item) → AllShow (map amount_row xs) xs
map-AllShow [] = tt
map-AllShow (x ∷ xs) = (amount_row-Shows x, map-AllShow xs)

shown_if-mem : (xs : List Item) (p : Printed) → xs ≢ [] → Mem p (shown_if true xs p)
unfolding shown_if
shown_if-mem [] p h = absurd (h refl)
shown_if-mem (x ∷ xs) p h = mem-cons_self

module _ (date minute : DateTime → List ℕ) (str : Option Decimal → List ℕ) where
  symbol_table-mem :
      (res : HistoryResult) (by_month detail : Bool)
      → res.by_symbol ≢ []
      → Mem
          (symbol_table date minute str res)
          (print_history_table date minute str res true by_month detail)
  unfolding print_history_table
  symbol_table-mem res by_month detail some_symbol =
      let shown = shown_if-mem res.by_symbol (symbol_table date minute str res) some_symbol in
      mem-append_left _
        (mem-cons_of_mem _ (mem-cons_of_mem _ (mem-cons_of_mem _ (mem-cons_of_mem _ shown))))

  -- If totals by symbol are asked for and there are any, of at most 28 digits each, a table with them is printed: it has a row
  -- for each symbol of the totals, the largest amount first, with its name and a text that is read
  -- as the amount with four places, at most half a unit of the last place away.
  pub by_symbol-shown :
      (res : HistoryResult) (by_month detail : Bool)
      → res.by_symbol ≢ []
      → All HasFewDigits res.by_symbol
      → (items : List Item) × (rows : List (List (List ℕ))) × Mem
          (table (some (codes "By symbol")) (codes "Symbol" ∷ codes "Amount" ∷ []) rows)
          (print_history_table date minute str res true by_month detail)
        × Perm items res.by_symbol
        × IsDescending items
        × AllShow rows items
  unfolding symbol_table
  by_symbol-shown res by_month detail some_symbol few =
      let items = sorted_items larger_first res.by_symbol in
      (
        items,
        map amount_row items,
        symbol_table-mem res by_month detail some_symbol,
        sorted_items-perm larger_first res.by_symbol,
        IsSorted-IsDescending items (All-sorted_items HasFewDigits larger_first res.by_symbol few)
            (sorted_items-IsSorted res.by_symbol),
        map-AllShow items,
      )
