-- ===== src/Models.antt =====
-- core/models.py: the values that the services exchange.
use funding_tool.Prelude.{ℕ, Bool, String, Option, List}
use funding_tool.Decimal.{Decimal}
use funding_tool.Time.{DateTime}

pub record FundingEvent : Type 0 where
  pub timestamp : DateTime
  pub symbol : String
  pub rate : Decimal
  pub mark_price : Decimal
  pub interval_hours : ℕ

pub data Side : Type 0 where
  long short : Side

pub data SizeMode : Type 0 where
  base quote rate_only : SizeMode

pub record BacktestInput : Type 0 where
  pub symbol : String
  pub side : Side
  pub start : DateTime
  pub end : DateTime
  pub size_mode : SizeMode
  pub size : Option Decimal

pub record FundingPayment : Type 0 where
  pub event : FundingEvent
  pub quantity_base : Decimal
  pub notional_quote : Decimal
  pub payment_quote : Decimal

pub record BacktestResult : Type 0 where
  pub input : BacktestInput
  pub payments : List FundingPayment
  pub total_quote : Option Decimal
  pub total_base : Option Decimal
  pub cumulative_rate_pct : Decimal
  pub apr : Decimal
  pub event_count : ℕ
  pub avg_rate : Decimal

pub record IncomeRecord : Type 0 where
  pub timestamp : DateTime
  pub symbol : String
  pub amount_usdt : Decimal
  pub tran_id : String

pub record HistoryResult : Type 0 where
  pub start : DateTime
  pub end : DateTime
  pub records : List IncomeRecord
  pub total : Decimal
  pub by_symbol : List (String × Decimal)
  pub by_month : List (String × Decimal)

pub record ApiCredentials : Type 0 where
  pub api_key : String
  pub api_secret : String
  pub passphrase : Option String

pub record PermissionReport : Type 0 where
  pub read_ok : Bool
  pub trading_enabled : Option Bool
  pub withdrawals_enabled : Option Bool
  pub spot_trading_enabled : Option Bool
