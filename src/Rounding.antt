-- ===== src/Rounding.antt =====
-- Rounding to the nearest integer, ties to even, as doubles and decimals use it.
use funding_tool.Prelude.{ℕ, ◌+◌, ◌*◌, ◌/◌, ◌%◌, ◌≤◌, ◌<◌, ◌≡◌, refl, arith, ltb, if◌then◌else◌}

-- a / b to the nearest integer, ties to even.
unfoldable pub round_div : ℕ → ℕ → ℕ
round_div a b =
    let q = a / b in
    let r = a % b in if ltb (2 * r) b then q else if ltb b (2 * r) then q + 1 else q + q % 2

-- The nearest integer is at most half a unit away.
pub round_div_near :
    (a b : ℕ)
    → 0 < b
    → (2 * (round_div a b * b) ≤ 2 * a + b) × (2 * a ≤ 2 * (round_div a b * b) + b)
unfolding round_div
round_div_near a b h = grind arith

pub nearest :
    (a b : ℕ)
    → 0 < b
    → (r : ℕ) × (round_div a b ≡ r) × (2 * (r * b) ≤ 2 * a + b) × (2 * a ≤ 2 * (r * b) + b)
nearest a b h = let (u, v) = round_div_near a b h in (round_div a b, refl, u, v)
