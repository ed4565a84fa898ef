-- ===== src/Tests/Printed.antt =====
-- What the commands print, and the texts of decimals.
use mathlib.Core.List.{Mem, Perm}
use funding_tool.Prelude.{
  arith, ℕ, ◌≡◌, ◌⊎◌, refl, true, false, String, Option, none, some, List, [], ◌∷◌, length,
}
use funding_tool.Prelude.Int.{pos, negsuc, ◌+ℤ◌, ◌-ℤ◌, min_ℤ}
use funding_tool.Errors.{Error, Result, ok, err}
use funding_tool.Rounding.{round_div}
use funding_tool.Time.{DateTime}
use funding_tool.Text.{codes, show_digits, show_before, padded}
use funding_tool.Decimal.{Decimal, digits, excess, rounded, fix, aligned}
use funding_tool.Decimal.Format.{
  body, minus, plus_or_minus, of_places, scaled, shown, format_f, fixed, signed_fixed,
}
use funding_tool.Decimal.Format.Reads.{
  read_decimal, of_number, plain, IsNearest, read_decimal-format,
}
use funding_tool.Models.{HistoryResult}
use funding_tool.Backtest.Totality.{run_backtest-Covers}
use funding_tool.Cli.Tables.{
  table, Item, sorted_items, insert_item, larger_first, decimal_le, signed_le, negated,
  print_history_table,
}
use funding_tool.Cli.Tables.Descending.{IsDescending}
use funding_tool.Cli.Tables.Amounts.{AllShow, by_symbol-shown}
use funding_tool.Cli.Json.{Json}
use funding_tool.Cli.Json.Rows.{at_key, array_rows, payment_cells, record_cells}
use funding_tool.Cli.Reports.{csv_file, wrote_rows, json_out, backtest_written, history_written}
use funding_tool.Cli.Reports.Agree.{payment_header, record_header, written-agrees}
use funding_tool.Tests.Rates.{
  at, two_events, one_coin, two_events-IsUsable, two_events-AreModerate, one_coin-IsValid,
}

-- -0.00125
abbrev small_loss : Decimal
small_loss = record { neg = true; coeff = 125; exp = negsuc 4 }

-- 1.5E+3
abbrev large_gain : Decimal
large_gain = record { neg = false; coeff = 15; exp = pos 2 }

small_loss-shown : signed_fixed 4 small_loss ≡ codes "-0.0012"
unfolding signed_fixed shown scaled round_div of_places body plus_or_minus padded show_before
    show_digits ◌+ℤ◌
small_loss-shown = refl

large_gain-shown : signed_fixed 2 large_gain ≡ codes "+1500.00"
unfolding signed_fixed shown scaled round_div of_places body plus_or_minus padded show_before
    show_digits ◌+ℤ◌
large_gain-shown = refl

small_loss-format_f : format_f small_loss ≡ codes "-0.00125"
unfolding format_f body minus padded show_before show_digits
small_loss-format_f = refl

large_gain-format_f : format_f large_gain ≡ codes "1500"
unfolding format_f body minus padded show_before show_digits
large_gain-format_f = refl

read_decimal-format_example :
    (read_decimal (format_f small_loss) ≡ plain small_loss)
    × ((n : ℕ) × IsNearest n 125 (negsuc 4 +ℤ pos 4)
        × (read_decimal (fixed 4 small_loss) ≡ of_number true (n, 4))
        × (read_decimal (signed_fixed 4 small_loss) ≡ of_number true (n, 4)))
read_decimal-format_example = read_decimal-format small_loss 4

abbrev totals : List Item
totals = ("BTCUSDT", small_loss) ∷ ("ETHUSDT", large_gain) ∷ []

totals-sorted :
    sorted_items larger_first totals ≡ ("ETHUSDT", large_gain) ∷ ("BTCUSDT", small_loss) ∷ []
unfolding sorted_items insert_item larger_first decimal_le signed_le negated fix rounded excess
    digits aligned min_ℤ ◌-ℤ◌ ◌+ℤ◌
totals-sorted = refl

abbrev history : HistoryResult
history = record {
  start = at 1767225600000;
  end = at 1767312000000;
  records = [];
  total = large_gain;
  by_symbol = totals;
  by_month = [];
}

abbrev date : DateTime → List ℕ
date d = codes "2026-01-01"

abbrev minute : DateTime → List ℕ
minute d = codes "2026-01-01 08:00"

abbrev str : Option Decimal → List ℕ
str d = codes "1"

by_symbol-shown_example :
    (items : List Item) × (rows : List (List (List ℕ))) × Mem
      (table (some (codes "By symbol")) (codes "Symbol" ∷ codes "Amount" ∷ []) rows)
      (print_history_table date minute str history true false true)
    × Perm items totals
    × IsDescending items
    × AllShow rows items
unfolding digits
by_symbol-shown_example =
    by_symbol-shown date minute str history false true (λ e. cc) (omega arith, (omega arith, tt))

abbrev with_record : HistoryResult
with_record = record history {
  records =
      record {
        timestamp = at 1767225600000;
        symbol = "BTCUSDT";
        amount_usdt = small_loss;
        tran_id = "1";
      }
      ∷ [];
}

abbrev iso : DateTime → String
iso d = "2026-01-01T00:00:00+00:00"

abbrev text_of : Decimal → String
text_of d = "1"

abbrev opens : String → Result (Unit {0})
opens path = ok tt

written-agrees_example :
    let ran =
      run_backtest-Covers one_coin two_events one_coin-IsValid two_events-IsUsable
        two_events-AreModerate in
    let (ended, written) =
      backtest_written iso text_of date minute str opens (some "out.csv") true true ran.0 in
    let (ended_h, written_h) =
      history_written iso text_of date minute str opens
        (some "out.csv")
        true
        none
        "binance_usdm"
        true
        true
        true
        with_record in
    ((x : Error) × (opens "out.csv" ≡ err x)
      × ((ended ≡ err x) × (written ≡ []))
      × ((ended_h ≡ err x) × (written_h ≡ [])))
    ⊎ ((opens "out.csv" ≡ ok tt)
        × ((j : Json) × (rows : List (List String)) × (ended ≡ ok tt)
            × (written
                ≡ csv_file "out.csv" (payment_header ∷ rows)
                  ∷ wrote_rows (length ran.0.payments) "out.csv"
                  ∷ json_out j
                  ∷ [])
            × (array_rows payment_cells (at_key "payments" (some j)) ≡ some rows)
            × (length rows ≡ length ran.0.payments))
        × ((j : Json) × (rows : List (List String)) × (ended_h ≡ ok tt)
            × (written_h
                ≡ csv_file "out.csv" (record_header ∷ rows)
                  ∷ wrote_rows 1 "out.csv"
                  ∷ json_out j
                  ∷ [])
            × (array_rows record_cells (at_key "records" (some j)) ≡ some rows)
            × (length rows ≡ 1)))
written-agrees_example =
    let ran =
      run_backtest-Covers one_coin two_events one_coin-IsValid two_events-IsUsable
        two_events-AreModerate in
    written-agrees iso text_of date minute str opens "out.csv" ran.0 with_record true none
      "binance_usdm" true true
