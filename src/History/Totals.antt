-- ===== src/History/Totals.antt =====
-- Each total is the sum of its records, in their order.
use funding_tool.Prelude.{
  ◌≡◌, ◌<◌, refl, sym, ap, ◌∙◌, true, Bool-cases, inl, inr, if◌then◌else◌, str_eq, eq_iff, String,
  Option, none, some, List, [], ◌∷◌, map, arith,
}
use funding_tool.Errors.{ok}
use funding_tool.Decimal.{Decimal, from_nat, sum_from}
use funding_tool.Decimal
use funding_tool.Time.{DateTime}
use funding_tool.Models.{IncomeRecord, HistoryResult}
use funding_tool.History.{validate_range, add_to, Sums, no_sums, sums, run_account_history}

unfoldable pub find : String → List (String × Decimal) → Option Decimal
find key [] = none
find key ((k, x) ∷ d) = if str_eq k key then some x else find key d

-- The entry of a key after one more amount.
unfoldable pub more : Decimal → Option Decimal → Option Decimal
more amount none = some (Decimal.add (from_nat 0) amount)
more amount (some x) = some (Decimal.add x amount)

find-add_to :
    (key k : String) (amount : Decimal) (d : List (String × Decimal))
    → find k (add_to key amount d) ≡ (if str_eq key k then more amount (find k d) else find k d)
unfolding find add_to more
find-add_to key k amount [] = ground arith
find-add_to key k amount ((j, x) ∷ d) =
    ground (arith, find-add_to key k amount d, eq_iff j key, eq_iff j k, eq_iff key k)

-- The amounts of the records with a key.
unfoldable pub amounts_of : (IncomeRecord → String) → String → List IncomeRecord → List Decimal
amounts_of key_of k [] = []
amounts_of key_of k (r ∷ rs) =
    let rest = amounts_of key_of k rs in if str_eq (key_of r) k then r.amount_usdt ∷ rest else rest

-- The sum of the amounts on top of what is there, if there are any.
unfoldable pub summed : Option Decimal → List Decimal → Option Decimal
summed none [] = none
summed none (x ∷ xs) = some (sum_from (from_nat 0) (x ∷ xs))
summed (some t) xs = some (sum_from t xs)

summed-more :
    (o : Option Decimal) (x : Decimal) (xs : List Decimal)
    → summed (more x o) xs ≡ summed o (x ∷ xs)
unfolding summed more sum_from
summed-more none x xs = refl
summed-more (some t) x xs = refl

summed_nil : (o : Option Decimal) → summed o [] ≡ o
unfolding summed sum_from
summed_nil none = refl
summed_nil (some t) = refl

add_each :
    (key_of : IncomeRecord → String)
    → List (String × Decimal)
    → List IncomeRecord
    → List (String × Decimal)
add_each key_of d [] = d
add_each key_of d (r ∷ rs) = add_each key_of (add_to (key_of r) r.amount_usdt d) rs

find-add_each :
    (key_of : IncomeRecord → String) (k : String) (d : List (String × Decimal))
    (rs : List IncomeRecord)
    → find k (add_each key_of d rs) ≡ summed (find k d) (amounts_of key_of k rs)
unfolding amounts_of add_each
find-add_each key_of k d [] = sym (summed_nil (find k d))
find-add_each key_of k d (r ∷ rs) =
    find-add_each key_of k (add_to (key_of r) r.amount_usdt d) rs
    ∙ ap (λ o. summed o (amounts_of key_of k rs)) (find-add_to (key_of r) k r.amount_usdt d)
    ∙ elim (Bool-cases (str_eq (key_of r) k)) [
      | inl same ↦ rw same (summed-more (find k d) r.amount_usdt (amounts_of key_of k rs))
      | inr other ↦ rw other refl
    ]

module _ (month_of : DateTime → String) where
  abbrev month : IncomeRecord → String
  month r = month_of r.timestamp

  sums-each :
      (rs : List IncomeRecord) (s : Sums)
      → sums month_of s rs ≡ record {
        total = sum_from s.total (map (λ r. r.amount_usdt) rs);
        by_symbol = add_each (λ r. r.symbol) s.by_symbol rs;
        by_month = add_each month s.by_month rs;
      }
  unfolding sums sum_from add_each
  sums-each [] s = refl
  sums-each (r ∷ rs) s = sums-each rs _

  -- What the history reports of its records.
  pub record Reports (records : List IncomeRecord) (h : HistoryResult) : Type 0 where
    pub records_kept : h.records ≡ records
    pub total_is : h.total ≡ sum_from (from_nat 0) (map (λ r. r.amount_usdt) records)
    pub symbol_is :
        (s : String) → find s h.by_symbol ≡ summed none (amounts_of (λ r. r.symbol) s records)
    pub month_is :
        (m : String)
        → find m h.by_month ≡ summed none (amounts_of (λ r. month_of r.timestamp) m records)

  -- On a range with two aware datetimes in order, the history of fetched records is there: it has the
  -- records, their sum, and for each symbol and each month the sum of its own records, in their
  -- order, or no entry if it has none.
  pub run_account_history-Reports :
      (start end : DateTime) (records : List IncomeRecord)
      → start.aware ≡ true
      → end.aware ≡ true
      → start.us < end.us
      → (h : HistoryResult) × (run_account_history month_of start end (ok records) ≡ ok h)
        × Reports records h
  unfolding run_account_history validate_range
  run_account_history-Reports start end records a b lt =
      let each = sums-each records no_sums in
      let valid : validate_range start end ≡ ok tt = ground arith in
      let s = sums month_of no_sums records in
      (
        record {
          start = start;
          end = end;
          records = records;
          total = s.total;
          by_symbol = s.by_symbol;
          by_month = s.by_month;
        },
        rw valid refl,
        record {
          records_kept = refl;
          total_is = ap (λ s. s.total) each;
          symbol_is = λ s.
              ap (λ t. find s t.by_symbol) each
              ∙ find-add_each (λ r. r.symbol) s [] records
              ∙ unfold find in refl;
          month_is = λ m.
              ap (λ t. find m t.by_month) each
              ∙ find-add_each month m [] records
              ∙ unfold find in refl;
        },
      )
