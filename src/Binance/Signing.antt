-- ===== src/Binance/Signing.antt =====
-- The signed requests of core/exchanges/binance_usdm.py and _binance_sign.py, as texts of code
-- points: urlencode, sign_query, and the URL of a request. `hmac` is HMAC-SHA256 on bytes, and `ts` a
-- timestamp.
pub mod Logged
use funding_tool.Prelude.{
  ℕ, zero, suc, ◌+◌, ◌-◌, ◌*◌, ◌/◌, ◌%◌, Bool, true, false, ◌||◌, ltb, ◌==◌, if◌then◌else◌, Option,
  none, some, List, [], ◌∷◌, ◌++◌,
}
use funding_tool.Text.{codes, str_of}
use funding_tool.Log.{between}

-- text.encode("utf-8"), one character
unfoldable pub utf8 : ℕ → List ℕ
utf8 c =
    if ltb c 128
    then c ∷ []
    else if ltb c 2048
    then (192 + c / 64) ∷ (128 + c % 64) ∷ []
    else if ltb c 65536
    then (224 + c / 4096) ∷ (128 + c / 64 % 64) ∷ (128 + c % 64) ∷ []
    else (240 + c / 262144) ∷ (128 + c / 4096 % 64) ∷ (128 + c / 64 % 64) ∷ (128 + c % 64) ∷ []

unfoldable pub encode : List ℕ → List ℕ
encode [] = []
encode (c ∷ s) = utf8 c ++ encode s

-- A digit of hexadecimal, from a as ten or from A.
unfoldable pub hex_digit : ℕ → ℕ → ℕ
hex_digit ten d = if ltb d 10 then b'0' + d else ten + (d - 10)

-- bytes.hex
unfoldable pub hexdigest : List ℕ → List ℕ
hexdigest [] = []
hexdigest (b ∷ bs) = hex_digit b'a' (b / 16 % 16) ∷ hex_digit b'a' (b % 16) ∷ hexdigest bs

-- The characters that quote_plus leaves.
unfoldable pub is_unreserved : ℕ → Bool
unfolding between
is_unreserved c =
    between b'a' b'z' c
    || between b'A' b'Z' c
    || between b'0' b'9' c
    || c == b'_'
    || c == b'.'
    || c == b'-'
    || c == b'~'

-- quote_plus, on bytes
unfoldable pub quote_byte : ℕ → List ℕ
quote_byte c =
    if is_unreserved c
    then c ∷ []
    else if c == 32
    then b'+' ∷ []
    else b'%' ∷ hex_digit b'A' (c / 16 % 16) ∷ hex_digit b'A' (c % 16) ∷ []

unfoldable pub quote_bytes : List ℕ → List ℕ
quote_bytes [] = []
quote_bytes (c ∷ s) = quote_byte c ++ quote_bytes s

unfoldable pub quote_plus : List ℕ → List ℕ
quote_plus s = quote_bytes (encode s)

-- urlencode: a field, and each further one behind an ampersand.
unfoldable pub field : List ℕ × List ℕ → List ℕ
field (name, value) = quote_plus name ++ b'=' ∷ quote_plus value

unfoldable pub more_fields : List (List ℕ × List ℕ) → List ℕ
more_fields [] = []
more_fields (f ∷ fs) = b'&' ∷ (field f ++ more_fields fs)

unfoldable pub urlencode : List (List ℕ × List ℕ) → List ℕ
urlencode [] = []
urlencode (f ∷ fs) = field f ++ more_fields fs

unfoldable pub symbol_param : Option (List ℕ) → List (List ℕ × List ℕ)
symbol_param none = []
symbol_param (some s) = (codes "symbol", s) ∷ []

-- params of _iter_income_pages
unfoldable pub income_params : Option (List ℕ) → ℕ → ℕ → ℕ → List (List ℕ × List ℕ)
income_params symbol cursor end ts =
    (codes "incomeType", codes "FUNDING_FEE")
    ∷ (codes "startTime", str_of cursor)
    ∷ (codes "endTime", str_of end)
    ∷ (codes "limit", codes "1000")
    ∷ (codes "timestamp", str_of ts)
    ∷ (codes "recvWindow", codes "5000")
    ∷ symbol_param symbol

-- params of verify_credentials
unfoldable pub account_params : ℕ → List (List ℕ × List ℕ)
account_params ts = (codes "timestamp", str_of ts) ∷ (codes "recvWindow", codes "5000") ∷ []

module _ (hmac : List ℕ → List ℕ → List ℕ) where
  unfoldable pub sign_query : List ℕ → List ℕ → List ℕ
  sign_query secret query = hexdigest (hmac (encode secret) (encode query))

  unfoldable pub signed_url : List ℕ → List ℕ → List (List ℕ × List ℕ) → List ℕ
  signed_url path secret params =
      let query = urlencode params in
      path ++ b'?' ∷ (query ++ b'&' ∷ (codes "signature=" ++ sign_query secret query))

  unfoldable pub income_url : List ℕ → Option (List ℕ) → ℕ → ℕ → ℕ → List ℕ
  income_url secret symbol cursor end ts =
      signed_url (codes "/fapi/v1/income") secret (income_params symbol cursor end ts)

  unfoldable pub balance_url : List ℕ → ℕ → List ℕ
  balance_url secret ts = signed_url (codes "/fapi/v3/balance") secret (account_params ts)

  unfoldable pub restrictions_url : List ℕ → ℕ → List ℕ
  restrictions_url secret ts =
      signed_url (codes "/sapi/v1/account/apiRestrictions") secret (account_params ts)
