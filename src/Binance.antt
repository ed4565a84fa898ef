-- ===== src/Binance.antt =====
-- core/exchanges/binance_usdm.py: funding rates and funding income of Binance USDT-M futures. The
-- answers of the server, as `HttpClient.get_json` returns them, are the fields of `Api`; they do not
-- change during one call, and their JSON is decoded.
pub mod Rates
pub mod Repeated
pub mod Signing
pub mod Funding
pub mod Merge
pub mod Fetch
pub mod Income
pub mod FromEmpty
pub mod Coverage
pub mod Permissions
use funding_tool.Prelude.{
  text_le, ℕ, zero, suc, ◌+◌, ◌-◌, ◌*◌, Bool, true, false, ◌&&◌, not, ltb, leb, ◌==◌, str_eq,
  if◌then◌else◌, String, Option, none, some, List, [], ◌∷◌, ◌++◌, map, length, get_elem?,
}
use funding_tool.Errors.{
  Result, ok, err, unknown_symbol_error, exchange_error, fuel_exhausted, ◌>>=◌,
}
use funding_tool.Decimal.{Decimal}
use funding_tool.Time.{DateTime, to_ms, from_ms}
use funding_tool.Models.{FundingEvent, IncomeRecord}
use funding_tool.Cache.{Row, put, get, missing_ranges}
use funding_tool.Paging.{fetch_pages, use_batch}

-- A row of /fapi/v1/fundingRate.
pub record RateRow : Type 0 where
  pub funding_time : ℕ
  pub funding_rate : Decimal

-- The first two fields of a row of /fapi/v1/markPriceKlines.
pub record KlineRow : Type 0 where
  pub open_time : ℕ
  pub open_price : Decimal

-- An entry of `symbols` in /fapi/v1/exchangeInfo.
pub record SymbolInfo : Type 0 where
  pub symbol : String
  pub funding_interval_hours : Option ℕ
  pub status : Option String
  pub contract_type : Option String
  pub quote_asset : Option String

-- An item of /fapi/v1/income.
pub record IncomeItem : Type 0 where
  pub time : ℕ
  pub symbol : Option String
  pub income : Decimal
  pub tran_id : String

-- `server_time` is the answer of /fapi/v1/time. It and the local clock only set the timestamp of the
-- signed income requests, which the answers in `income` do not depend on.
pub record Api : Type 0 where
  pub server_time : Result ℕ
  pub exchange_info : Result (List SymbolInfo)
  pub funding_rate : String → ℕ → ℕ → Result (List RateRow)
  pub mark_price_klines : String → ℕ → ℕ → ℕ → Result (List KlineRow)
  pub income : Option String → ℕ → ℕ → Result (List IncomeItem)

-- dict: the value of a key, and d[k] = v
unfoldable pub dict_get {ℓ} : {V : Type ℓ} → ℕ → List (ℕ × V) → Option V
dict_get k [] = none
dict_get k ((j, v) ∷ d) = if j == k then some v else dict_get k d

unfoldable pub dict_set {ℓ} : {V : Type ℓ} → ℕ → V → List (ℕ × V) → List (ℕ × V)
dict_set k v [] = (k, v) ∷ []
dict_set k v ((j, w) ∷ d) =
    let rest = dict_set k v d in if j == k then (k, v) ∷ d else (j, w) ∷ rest

-- The symbol's interval: from the cache, or from the first entry of exchangeInfo with its name.
unfoldable pub cached_interval : String → List (String × ℕ) → Option ℕ
cached_interval symbol [] = none
cached_interval symbol ((s, h) ∷ d) = if str_eq s symbol then some h else cached_interval symbol d

unfoldable pub interval_or_8 : Option ℕ → ℕ
interval_or_8 none = 8
interval_or_8 (some h) = h

unfoldable pub listed_interval : String → List SymbolInfo → Result ℕ
listed_interval symbol [] = err unknown_symbol_error
listed_interval symbol (s ∷ ss) =
    if str_eq s.symbol symbol
    then ok (interval_or_8 s.funding_interval_hours)
    else listed_interval symbol ss

-- The second part is the interval cache after the call.
unfoldable pub get_interval : Api → String → List (String × ℕ) → Result (ℕ × List (String × ℕ))
get_interval api symbol intervals = elim (cached_interval symbol intervals) [
  | some h ↦ ok (h, intervals)
  | none ↦ api.exchange_info >>= λ symbols.
      listed_interval symbol symbols >>= λ h. ok (h, (symbol, h) ∷ intervals)
]

unfoldable pub get_interval_hours : Api → String → List (String × ℕ) → Result ℕ
get_interval_hours api symbol intervals = get_interval api symbol intervals >>= λ r. ok r.0

-- Only an unknown symbol is answered by False; other errors go on to the caller.
unfoldable pub known : Result ℕ → Result Bool
known (ok h) = ok true
known (err unknown_symbol_error) = ok false
known (err e) = err e

unfoldable pub validate_symbol : Api → String → List (String × ℕ) → Result Bool
validate_symbol api symbol intervals = known (get_interval_hours api symbol intervals)

unfoldable pub is_some_text : Option String → String → Bool
is_some_text none s = false
is_some_text (some t) s = str_eq t s

unfoldable pub tradeable : List SymbolInfo → List String
tradeable [] = []
tradeable (s ∷ ss) =
    let rest = tradeable ss in
    if is_some_text s.status "TRADING"
      && is_some_text s.contract_type "PERPETUAL"
      && is_some_text s.quote_asset "USDT"
    then s.symbol ∷ rest
    else rest

unfoldable pub insert_text : String → List String → List String
insert_text s [] = s ∷ []
insert_text s (x ∷ xs) = let rest = insert_text s xs in if text_le s x then s ∷ x ∷ xs else x ∷ rest

unfoldable pub sorted_texts : List String → List String
sorted_texts [] = []
sorted_texts (s ∷ ss) = insert_text s (sorted_texts ss)

unfoldable pub list_symbols : Api → Result (List String)
list_symbols api = api.exchange_info >>= λ symbols. ok (sorted_texts (tradeable symbols))
