-- ===== src/Binance/Permissions.antt =====
-- verify_credentials of core/exchanges/binance_usdm.py: two signed requests. Their signatures and
-- timestamps belong to the server's answers.
use funding_tool.Prelude.{◌||◌, ℕ, Bool, true, Option, none, some}
use funding_tool.Errors.{Result, ok, err, exchange_error, ◌>>=◌}
use funding_tool.Models.{PermissionReport}

-- The flags of /sapi/v1/account/apiRestrictions; false stands for a missing one.
pub record Restrictions : Type 0 where
  pub enable_futures : Bool
  pub enable_margin : Bool
  pub enable_withdrawals : Bool
  pub enable_spot : Bool

-- The answers to /fapi/v1/time, /fapi/v3/balance and apiRestrictions; the last is none for a body
-- that is no object.
pub record Signed : Type 0 where
  pub server_time : Result ℕ
  pub balance : Result (Unit {0})
  pub restrictions : Result (Option Restrictions)

abbrev pub read_only : PermissionReport
read_only = record {
  read_ok = true;
  trading_enabled = none;
  withdrawals_enabled = none;
  spot_trading_enabled = none;
}

unfoldable pub report_of : Option Restrictions → PermissionReport
report_of none = read_only
report_of (some r) = record {
  read_ok = true;
  trading_enabled = some (r.enable_futures || r.enable_margin);
  withdrawals_enabled = some r.enable_withdrawals;
  spot_trading_enabled = some r.enable_spot;
}

-- except ExchangeError
unfoldable pub advised : Result (Option Restrictions) → Result PermissionReport
advised (ok r) = ok (report_of r)
advised (err exchange_error) = ok read_only
advised (err e) = err e

unfoldable pub verify_credentials : Signed → Result PermissionReport
verify_credentials s = s.server_time >>= λ server. s.balance >>= λ answer. advised s.restrictions
