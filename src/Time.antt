-- ===== src/Time.antt =====
-- infra/time_util.py: instants as microseconds, and their conversion to milliseconds through
-- double-precision numbers, with the rounding that the hardware and `datetime` make.
pub mod Parse
pub mod Roundtrip
use funding_tool.Prelude.{ℕ, zero, suc, ◌+◌, ◌*◌, ◌/◌, ◌%◌, ◌^◌, Bool, true, ltb, if◌then◌else◌}
use funding_tool.Rounding.{round_div}
use funding_tool.Errors.{Result, ok, err, validation_error}

-- An aware datetime is its instant, in microseconds since the epoch; a naive one is a wall clock.
pub record DateTime : Type 0 where
  pub us : ℕ
  pub aware : Bool

-- A double at or above 1: the value is mant / 2 ^ bits, with a mantissa of 53 bits.
pub record Double : Type 0 where
  pub mant : ℕ
  pub bits : ℕ

-- The most fractional bits, from `n` down, with which a / b has a mantissa below 2 ^ 53.
unfoldable pub scale : ℕ → ℕ → ℕ → ℕ
scale zero a b = 0
scale (suc n) a b =
    let coarser = scale n a b in
    if ltb (a * 2 ^ suc n) (9007199254740992 * b) then suc n else coarser

-- The double nearest to a / b, for a quotient that is at least 1.
unfoldable pub double : ℕ → ℕ → Double
double a b = let n = scale 52 a b in record { mant = round_div (a * 2 ^ n) b; bits = n }

-- dt.timestamp()
unfoldable pub timestamp : DateTime → Double
timestamp dt = double dt.us 1000000

-- int(dt.timestamp() * 1000)
unfoldable pub truncated_ms : DateTime → ℕ
truncated_ms dt =
    let s = timestamp dt in let p = double (s.mant * 1000) (2 ^ s.bits) in p.mant / 2 ^ p.bits

unfoldable pub to_ms : DateTime → Result ℕ
to_ms dt = if dt.aware then ok (truncated_ms dt) else err validation_error

-- datetime.fromtimestamp: the whole seconds, and the fraction rounded to microseconds.
unfoldable pub from_timestamp : Double → DateTime
from_timestamp s = record {
  us = s.mant / 2 ^ s.bits * 1000000 + round_div (s.mant % 2 ^ s.bits * 1000000) (2 ^ s.bits);
  aware = true;
}

-- datetime.fromtimestamp(ms / 1000, tz=UTC)
unfoldable pub from_ms : ℕ → DateTime
from_ms ms = from_timestamp (double ms 1000)
