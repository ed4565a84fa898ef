-- ===== src/Time/Roundtrip.antt =====
-- to_ms undoes from_ms on the milliseconds whose doubles have 22 and 12 fractional bits.
use native.Mathlib.Nat.{pow-suc, pow-le-pow_right, zero-add, suc-add}
use funding_tool.Prelude.{
  ℕ, zero, suc, ◌+◌, ◌*◌, ◌/◌, ◌%◌, ◌^◌, ◌≤◌, ◌<◌, ◌≡◌, refl, true, ap, ◌∙◌, arith, le→ltb_false,
  lt→ltb,
}
use funding_tool.Rounding.{nearest}
use funding_tool.Errors.{ok}
use funding_tool.Time.{scale, double, timestamp, truncated_ms, to_ms, from_timestamp, from_ms}

double_mono : (a b x y : ℕ) → b ≤ a * x → x ≤ y → b + b ≤ a * (y * 2)
double_mono a b x y h k = grind arith

pow_step : (a b n d : ℕ) → b ≤ a * 2 ^ suc n → b + b ≤ a * 2 ^ suc (d + suc n)
pow_step a b n d h = rw pow-suc (
    double_mono a b (2 ^ suc n) (2 ^ (d + suc n)) h
      (pow-le-pow_right {n = 2} (omega arith) (omega arith)))

-- Where n bits give a mantissa of 53 bits, a search from above n stops at n.
scale_from :
    (d n a b : ℕ)
    → 4503599627370496 * b ≤ a * 2 ^ suc n
    → a * 2 ^ suc n < 9007199254740992 * b
    → scale (d + suc n) a b ≡ suc n
unfolding scale
scale_from zero n a b lo hi = rw zero-add (rw (lt→ltb _ _ hi))
scale_from (suc d) n a b lo hi =
    let coarse : 9007199254740992 * b ≤ a * 2 ^ suc (d + suc n) =
      omega (arith, pow_step a (4503599627370496 * b) n d lo) in
    rw suc-add (rw (le→ltb_false _ _ coarse) (scale_from d n a b lo hi))

scale_at :
    (n d a b : ℕ)
    → d + suc n ≡ 52
    → 4503599627370496 * b ≤ a * 2 ^ suc n
    → a * 2 ^ suc n < 9007199254740992 * b
    → scale 52 a b ≡ suc n
scale_at n d a b e lo hi = rw (← e) (scale_from d n a b lo hi)

-- Between 2004-11-03 and 2038-01-19 the milliseconds of an aware datetime are its microseconds
-- divided by 1000, rounded down: the two roundings to a double never change the result.
pub to_ms-eq-div :
    (t : ℕ)
    → 1099511627776000 < t
    → t < 2147483648000000
    → to_ms (record { us = t; aware = true }) ≡ ok (t / 1000)
unfolding to_ms truncated_ms timestamp double
to_ms-eq-div t lo hi =
    let (s, es, s1, s2) = nearest (t * 2 ^ 22) 1000000 (omega arith) in
    let (p, ep, p1, p2) = nearest (s * 1000 * 2 ^ 12) (2 ^ 22) (omega arith) in
    rw (scale_at 21 30 t 1000000 refl (omega arith) (omega arith), es)
      (rw (scale_at 11 40 (s * 1000) (2 ^ 22) refl (omega arith) (omega arith), ep)
        (ap ok (omega arith)))

module _ (m : ℕ) (lo : 1099511627776 < m) (hi : m < 2147483648000) where
  pub us-from_ms : from_ms m ≡ record { us = m * 1000; aware = true }
  unfolding from_ms from_timestamp double
  us-from_ms =
      let (s, es, s1, s2) = nearest (m * 2 ^ 22) 1000 (omega arith) in
      let (f, ef, f1, f2) = nearest (s % 2 ^ 22 * 1000000) (2 ^ 22) (omega arith) in
      rw (scale_at 21 30 m 1000 refl (omega arith) (omega arith), es, ef)
        (ap (λ (t : ℕ). record { us = t; aware = true }) (omega arith))

  -- On the milliseconds between 2004-11-03 and 2038-01-19, `to_ms` returns exactly the
  -- milliseconds that `from_ms` was given, whatever the conversions round on the way.
  pub to_ms-from_ms : to_ms (from_ms m) ≡ ok m
  to_ms-from_ms =
      rw us-from_ms (to_ms-eq-div (m * 1000) (omega arith) (omega arith) ∙ ap ok (omega arith))
