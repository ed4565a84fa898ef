-- ===== src/Cli/Json.antt =====
-- cli/output.py: the JSON of a backtest and of a history, as the tree that json.dumps writes.
-- `iso` is isoformat of a datetime, and `str` the text of a decimal.
pub mod Rows
use funding_tool.Prelude.{ℕ, String, Option, none, some, List, [], ◌∷◌}
use funding_tool.Errors.{Result, ok, err, type_error, ◌>>=◌}
use funding_tool.Decimal.{Decimal}
use funding_tool.Time.{DateTime}
use funding_tool.Models.{
  FundingEvent, Side, long, short, SizeMode, base, quote, rate_only, BacktestInput, FundingPayment,
  BacktestResult, IncomeRecord, HistoryResult,
}

-- A Python value: an instance of a dataclass has its fields in order, and an object of any other type
-- is opaque.
mutual
  pub data PyValue : Type 0 where
    py_none py_object : PyValue
    py_text : String → PyValue
    py_whole : ℕ → PyValue
    py_decimal : Decimal → PyValue
    py_datetime : DateTime → PyValue
    py_list : PyItems → PyValue
    py_dict : PyFields → PyValue
    py_dataclass : PyFields → PyValue

  pub data PyItems : Type 0 where
    py_nil : PyItems
    py_cons : PyValue → PyItems → PyItems

  pub data PyFields : Type 0 where
    py_end : PyFields
    py_field : String → PyValue → PyFields → PyFields

mutual
  pub data Json : Type 0 where
    json_null : Json
    json_text : String → Json
    json_whole : ℕ → Json
    json_array : JsonItems → Json
    json_dict : JsonFields → Json

  pub data JsonItems : Type 0 where
    json_nil : JsonItems
    json_cons : Json → JsonItems → JsonItems

  pub data JsonFields : Type 0 where
    json_end : JsonFields
    json_field : String → Json → JsonFields → JsonFields

-- dataclasses.asdict, which goes through lists and dictionaries
unfoldable mutual
  pub asdict : PyValue → PyValue
  asdict py_none = py_none
  asdict py_object = py_object
  asdict (py_text s) = py_text s
  asdict (py_whole n) = py_whole n
  asdict (py_decimal d) = py_decimal d
  asdict (py_datetime t) = py_datetime t
  asdict (py_list vs) = py_list (asdict_items vs)
  asdict (py_dict fs) = py_dict (asdict_fields fs)
  asdict (py_dataclass fs) = py_dict (asdict_fields fs)

  pub asdict_items : PyItems → PyItems
  asdict_items py_nil = py_nil
  asdict_items (py_cons v vs) = py_cons (asdict v) (asdict_items vs)

  pub asdict_fields : PyFields → PyFields
  asdict_fields py_end = py_end
  asdict_fields (py_field k v fs) = py_field k (asdict v) (asdict_fields fs)

module _ (iso : DateTime → String) (str : Decimal → String) where
  -- json.dumps with _json_default for what is no JSON value. A dataclass gives its fields.
  unfoldable mutual
    pub encode : PyValue → Result Json
    encode py_none = ok json_null
    encode py_object = err type_error
    encode (py_text s) = ok (json_text s)
    encode (py_whole n) = ok (json_whole n)
    encode (py_decimal d) = ok (json_text (str d))
    encode (py_datetime t) = ok (json_text (iso t))
    encode (py_list vs) = encode_items vs >>= λ js. ok (json_array js)
    encode (py_dict fs) = encode_fields fs >>= λ js. ok (json_dict js)
    encode (py_dataclass fs) = encode_fields fs >>= λ js. ok (json_dict js)

    pub encode_items : PyItems → Result JsonItems
    encode_items py_nil = ok json_nil
    encode_items (py_cons v vs) = encode v >>= λ j. encode_items vs >>= λ js. ok (json_cons j js)

    pub encode_fields : PyFields → Result JsonFields
    encode_fields py_end = ok json_end
    encode_fields (py_field k v fs) =
        encode v >>= λ j. encode_fields fs >>= λ js. ok (json_field k j js)

unfoldable pub side_value : Side → PyValue
side_value long = py_text "LONG"
side_value short = py_text "SHORT"

unfoldable pub mode_value : SizeMode → PyValue
mode_value base = py_text "BASE"
mode_value quote = py_text "QUOTE"
mode_value rate_only = py_text "RATE_ONLY"

unfoldable pub optional_decimal : Option Decimal → PyValue
optional_decimal none = py_none
optional_decimal (some d) = py_decimal d

unfoldable pub event_value : FundingEvent → PyValue
event_value e = py_dataclass (
    py_field "timestamp" (py_datetime e.timestamp) (
      py_field "symbol" (py_text e.symbol) (
        py_field "rate" (py_decimal e.rate) (
          py_field "mark_price" (py_decimal e.mark_price)
            (py_field "interval_hours" (py_whole e.interval_hours) py_end)))))

unfoldable pub input_value : BacktestInput → PyValue
input_value i = py_dataclass (
    py_field "symbol" (py_text i.symbol) (
      py_field "side" (side_value i.side) (
        py_field "start" (py_datetime i.start) (
          py_field "end" (py_datetime i.end) (
            py_field "size_mode" (mode_value i.size_mode)
              (py_field "size" (optional_decimal i.size) py_end))))))

unfoldable pub payment_value : FundingPayment → PyValue
payment_value p = py_dataclass (
    py_field "event" (event_value p.event) (
      py_field "quantity_base" (py_decimal p.quantity_base) (
        py_field "notional_quote" (py_decimal p.notional_quote)
          (py_field "payment_quote" (py_decimal p.payment_quote) py_end))))

unfoldable pub payment_values : List FundingPayment → PyItems
payment_values [] = py_nil
payment_values (p ∷ ps) = py_cons (payment_value p) (payment_values ps)

unfoldable pub backtest_value : BacktestResult → PyValue
backtest_value r = py_dataclass (
    py_field "input" (input_value r.input) (
      py_field "payments" (py_list (payment_values r.payments)) (
        py_field "total_quote" (optional_decimal r.total_quote) (
          py_field "total_base" (optional_decimal r.total_base) (
            py_field "cumulative_rate_pct" (py_decimal r.cumulative_rate_pct) (
              py_field "apr" (py_decimal r.apr) (
                py_field "event_count" (py_whole r.event_count)
                  (py_field "avg_rate" (py_decimal r.avg_rate) py_end))))))))

unfoldable pub record_value : IncomeRecord → PyValue
record_value r = py_dataclass (
    py_field "timestamp" (py_datetime r.timestamp) (
      py_field "symbol" (py_text r.symbol) (
        py_field "amount_usdt" (py_decimal r.amount_usdt)
          (py_field "tran_id" (py_text r.tran_id) py_end))))

unfoldable pub record_values : List IncomeRecord → PyItems
record_values [] = py_nil
record_values (r ∷ rs) = py_cons (record_value r) (record_values rs)

unfoldable pub amount_values : List (String × Decimal) → PyFields
amount_values [] = py_end
amount_values ((k, d) ∷ ds) = py_field k (py_decimal d) (amount_values ds)

unfoldable pub history_value : HistoryResult → PyValue
history_value r = py_dataclass (
    py_field "start" (py_datetime r.start) (
      py_field "end" (py_datetime r.end) (
        py_field "records" (py_list (record_values r.records)) (
          py_field "total" (py_decimal r.total) (
            py_field "by_symbol" (py_dict (amount_values r.by_symbol))
              (py_field "by_month" (py_dict (amount_values r.by_month)) py_end))))))

module _ (iso : DateTime → String) (str : Decimal → String) where
  unfoldable pub format_backtest_json : BacktestResult → Result Json
  format_backtest_json res = encode iso str (asdict (backtest_value res))

  unfoldable pub format_history_json : HistoryResult → Result Json
  format_history_json res = encode iso str (asdict (history_value res))
