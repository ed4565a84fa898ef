-- ===== src/Cli/Json/Rows.antt =====
-- What a program reads from the JSON of a result: the texts of its payments or of its records.
use funding_tool.Prelude.{
  ◌≡◌, refl, str_eq, if◌then◌else◌, String, Option, none, some, List, [], ◌∷◌, map,
}
use funding_tool.Errors.{ok}
use funding_tool.Decimal.{Decimal}
use funding_tool.Time.{DateTime}
use funding_tool.Models.{
  Side, long, short, SizeMode, base, quote, rate_only, FundingPayment, BacktestInput,
  BacktestResult, IncomeRecord, HistoryResult,
}
use funding_tool.Cli.Output.{payment_row, record_row}
use funding_tool.Cli.Json.{
  Json, json_text, json_whole, json_array, json_dict, JsonItems, json_nil, json_cons, JsonFields,
  json_end, json_field, asdict, encode, encode_items, encode_fields, asdict_items, asdict_fields,
  side_value, mode_value, optional_decimal, event_value, input_value, payment_value, payment_values,
  backtest_value, record_value, record_values, amount_values, history_value, format_backtest_json,
  format_history_json,
}

-- What a program that reads the JSON finds under a key.
unfoldable pub find_field : String → JsonFields → Option Json
find_field k json_end = none
find_field k (json_field j v fs) = if str_eq j k then some v else find_field k fs

unfoldable pub at_key : String → Option Json → Option Json
at_key k (some (json_dict fs)) = find_field k fs
at_key k _ = none

-- The texts, if all of them are there.
unfoldable pub texts : List (Option Json) → Option (List String)
texts [] = some []
texts (some (json_text s) ∷ vs) = elim (texts vs) [ none ↦ none | some rest ↦ some (s ∷ rest) ]
texts (_ ∷ vs) = none

-- The cells of a payment, and those of a record.
unfoldable pub payment_cells : Json → Option (List String)
payment_cells j =
    let event = at_key "event" (some j) in
    texts (
      at_key "timestamp" event
      ∷ at_key "symbol" event
      ∷ at_key "rate" event
      ∷ at_key "mark_price" event
      ∷ at_key "quantity_base" (some j)
      ∷ at_key "notional_quote" (some j)
      ∷ at_key "payment_quote" (some j)
      ∷ [])

unfoldable pub record_cells : Json → Option (List String)
record_cells j = texts (
    at_key "timestamp" (some j)
    ∷ at_key "symbol" (some j)
    ∷ at_key "amount_usdt" (some j)
    ∷ at_key "tran_id" (some j)
    ∷ [])

unfoldable pub add_cells :
    Option (List String) → Option (List (List String)) → Option (List (List String))
add_cells (some r) (some rs) = some (r ∷ rs)
add_cells _ _ = none

unfoldable pub each_cells : (Json → Option (List String)) → JsonItems → Option (List (List String))
each_cells cells json_nil = some []
each_cells cells (json_cons j js) = add_cells (cells j) (each_cells cells js)

-- The rows under a key that holds an array.
unfoldable pub array_rows :
    (Json → Option (List String)) → Option Json → Option (List (List String))
array_rows cells (some (json_array js)) = each_cells cells js
array_rows cells _ = none

module _ (iso : DateTime → String) (str : Decimal → String) where
  encode-payment_value :
      (p : FundingPayment)
      → (j : Json) × (encode iso str (asdict (payment_value p)) ≡ ok j)
        × (payment_cells j ≡ some (payment_row iso str p))
  unfolding encode asdict payment_value event_value payment_cells texts at_key find_field
      payment_row
  encode-payment_value p = (_, refl, refl)

  encode-payment_values :
      (ps : List FundingPayment)
      → (js : JsonItems) × (encode_items iso str (asdict_items (payment_values ps)) ≡ ok js)
        × (each_cells payment_cells js ≡ some (map (payment_row iso str) ps))
  unfolding encode asdict payment_values each_cells add_cells
  encode-payment_values [] = (json_nil, refl, refl)
  encode-payment_values (p ∷ ps) =
      let (j, made, read) = encode-payment_value p in
      let (js, all_made, all_read) = encode-payment_values ps in
      (json_cons j js, rw (made, all_made) refl, rw (read, all_read) refl)

  encode-record_value :
      (r : IncomeRecord)
      → (j : Json) × (encode iso str (asdict (record_value r)) ≡ ok j)
        × (record_cells j ≡ some (record_row iso str r))
  unfolding encode asdict record_value record_cells texts at_key find_field record_row
  encode-record_value r = (_, refl, refl)

  encode-record_values :
      (rs : List IncomeRecord)
      → (js : JsonItems) × (encode_items iso str (asdict_items (record_values rs)) ≡ ok js)
        × (each_cells record_cells js ≡ some (map (record_row iso str) rs))
  unfolding encode asdict record_values each_cells add_cells
  encode-record_values [] = (json_nil, refl, refl)
  encode-record_values (r ∷ rs) =
      let (j, made, read) = encode-record_value r in
      let (js, all_made, all_read) = encode-record_values rs in
      (json_cons j js, rw (made, all_made) refl, rw (read, all_read) refl)

  encode-amount_values :
      (ds : List (String × Decimal))
      → (js : JsonFields) × (encode_fields iso str (asdict_fields (amount_values ds)) ≡ ok js)
  unfolding encode asdict amount_values
  encode-amount_values [] = (json_end, refl)
  encode-amount_values ((k, d) ∷ ds) =
      let (js, made) = encode-amount_values ds in
      (json_field k (json_text (str d)) js, rw made refl)

  encode-optional_decimal :
      (o : Option Decimal) → (j : Json) × (encode iso str (asdict (optional_decimal o)) ≡ ok j)
  unfolding encode asdict optional_decimal
  encode-optional_decimal none = (_, refl)
  encode-optional_decimal (some d) = (_, refl)

  encode-side_value : (s : Side) → (j : Json) × (encode iso str (asdict (side_value s)) ≡ ok j)
  unfolding encode asdict side_value
  encode-side_value long = (_, refl)
  encode-side_value short = (_, refl)

  encode-mode_value : (m : SizeMode) → (j : Json) × (encode iso str (asdict (mode_value m)) ≡ ok j)
  unfolding encode asdict mode_value
  encode-mode_value base = (_, refl)
  encode-mode_value quote = (_, refl)
  encode-mode_value rate_only = (_, refl)

  encode-input_value :
      (i : BacktestInput) → (j : Json) × (encode iso str (asdict (input_value i)) ≡ ok j)
  unfolding encode asdict input_value
  encode-input_value i =
      let (side, side_made) = encode-side_value i.side in
      let (mode, mode_made) = encode-mode_value i.size_mode in
      let (size, size_made) = encode-optional_decimal i.size in
      (
        json_dict (
            json_field "symbol" (json_text i.symbol) (
              json_field "side" side (
                json_field "start" (json_text (iso i.start)) (
                  json_field "end" (json_text (iso i.end))
                    (json_field "size_mode" mode (json_field "size" size json_end)))))),
        rw (side_made, mode_made, size_made) refl,
      )

  pub format_backtest_json-rows :
      (res : BacktestResult)
      → (j : Json) × (format_backtest_json iso str res ≡ ok j)
        × (array_rows payment_cells (at_key "payments" (some j))
            ≡ some (map (payment_row iso str) res.payments))
  unfolding encode asdict backtest_value format_backtest_json at_key find_field array_rows
  format_backtest_json-rows res =
      let (input, input_made) = encode-input_value res.input in
      let (js, made, read) = encode-payment_values res.payments in
      let (q, q_made) = encode-optional_decimal res.total_quote in
      let (b, b_made) = encode-optional_decimal res.total_base in
      (
        json_dict (
            json_field "input" input (
              json_field "payments" (json_array js) (
                json_field "total_quote" q (
                  json_field "total_base" b (
                    json_field "cumulative_rate_pct" (json_text (str res.cumulative_rate_pct)) (
                      json_field "apr" (json_text (str res.apr)) (
                        json_field "event_count" (json_whole res.event_count)
                          (json_field "avg_rate" (json_text (str res.avg_rate)) json_end)))))))),
        rw (input_made, made, q_made, b_made) refl,
        read,
      )

  pub format_history_json-rows :
      (res : HistoryResult)
      → (j : Json) × (format_history_json iso str res ≡ ok j)
        × (array_rows record_cells (at_key "records" (some j))
            ≡ some (map (record_row iso str) res.records))
  unfolding encode asdict history_value format_history_json at_key find_field array_rows
  format_history_json-rows res =
      let (js, made, read) = encode-record_values res.records in
      let (s, s_made) = encode-amount_values res.by_symbol in
      let (m, m_made) = encode-amount_values res.by_month in
      (
        json_dict (
            json_field "start" (json_text (iso res.start)) (
              json_field "end" (json_text (iso res.end)) (
                json_field "records" (json_array js) (
                  json_field "total" (json_text (str res.total)) (
                    json_field "by_symbol" (json_dict s)
                      (json_field "by_month" (json_dict m) json_end)))))),
        rw (made, s_made, m_made) refl,
        read,
      )
