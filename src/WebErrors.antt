-- ===== src/WebErrors.antt =====
-- web/errors.py: the codes of the web layer and map_core_exception, without its messages and ids.
use funding_tool.Prelude.{ℕ, Bool, ◌||◌, str_eq, if◌then◌else◌, String, Option, none, some}
use funding_tool.Errors.{Error}

pub data WebCode : Type 0 where
  web_auth_required web_auth_locked csrf_mismatch : WebCode
  validation_error range_too_large unknown_symbol : WebCode
  exchange_auth_error exchange_rate_limit network_error : WebCode
  exchange_error server_error : WebCode

pub record WebError : Type 0 where
  pub code : WebCode
  pub http_status : ℕ

-- _FIELD_WHITELIST
unfoldable pub is_known_field : String → Bool
is_known_field name =
    str_eq name "symbol"
    || str_eq name "side"
    || str_eq name "start"
    || str_eq name "end"
    || str_eq name "size_mode"
    || str_eq name "size"
    || str_eq name "account_name"
    || str_eq name "api_key"

unfoldable pub safe_field : Option String → Option String
safe_field none = none
safe_field (some name) = if is_known_field name then some name else some "请求参数"

unfoldable pub map_core_exception : Error → WebError
map_core_exception Error.unknown_symbol_error = record { code = unknown_symbol; http_status = 404 }
map_core_exception Error.validation_error = record { code = validation_error; http_status = 400 }
map_core_exception Error.authentication_error = record {
  code = exchange_auth_error;
  http_status = 502;
}
map_core_exception Error.rate_limit_error = record { code = exchange_rate_limit; http_status = 502 }
map_core_exception Error.network_error = record { code = network_error; http_status = 502 }
map_core_exception Error.exchange_error = record { code = exchange_error; http_status = 502 }
map_core_exception _ = record { code = server_error; http_status = 500 }
