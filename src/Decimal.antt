-- ===== src/Decimal.antt =====
-- decimal.Decimal in the default context: 28 significant digits, ties to even. The context's limits on
-- the exponent, from -999999 to 999999, are left out, with the Overflow that is raised beyond them and
-- the subnormal numbers below: what is said of results holds for numbers that stay within them, and
-- where a result is promised, it is for moderate numbers (Backtest/Rows), from which a backtest
-- computes none beyond them.
pub mod Format
pub mod Signs
pub mod Size
use funding_tool.Prelude.{
  ℕ, zero, suc, ◌+◌, ◌-◌, ◌*◌, ◌/◌, ◌%◌, ◌^◌, Bool, true, false, not, ◌&&◌, ltb, ◌==◌,
  if◌then◌else◌, List, [], ◌∷◌,
}
use funding_tool.Prelude.Int.{ℤ, pos, pos_part, ◌+ℤ◌, ◌-ℤ◌, min_ℤ}
use funding_tool.Errors.{Result, ok, err, division_by_zero, invalid_operation}
use funding_tool.Rounding.{round_div}

-- (-1) ^ neg * coeff * 10 ^ exp; a zero keeps its sign and exponent.
pub record Decimal : Type 0 where
  pub neg : Bool
  pub coeff : ℕ
  pub exp : ℤ

abbrev pub from_nat : ℕ → Decimal
from_nat n = record { neg = false; coeff = n; exp = pos 0 }

abbrev pub opposite : Bool → Bool → Bool
opposite true b = not b
opposite false b = b

-- The digits of a number, and how many stand beyond the 28 that the context keeps.
unfoldable pub digits : ℕ → ℕ → ℕ
digits zero c = 1
digits (suc fuel) c = let more = digits fuel (c / 10) in if ltb c 10 then 1 else suc more

unfoldable pub excess : ℕ → ℕ
excess c = digits c c - 28

-- A coefficient and its exponent, rounded to the context's precision.
unfoldable pub rounded : ℕ → ℤ → ℕ × ℤ
rounded c e =
    let n = excess c in
    let q = round_div c (10 ^ n) in
    if n == 0 then (c, e) else if q == 10 ^ 28 then (10 ^ 27, e +ℤ pos (n + 1)) else (q, e +ℤ pos n)

unfoldable pub fix : Decimal → Decimal
fix d = let (c, e) = rounded d.coeff d.exp in record { neg = d.neg; coeff = c; exp = e }

-- The sum of two signed numbers of one exponent; two that cancel give a positive zero.
unfoldable pub signed_sum : Bool → ℕ → Bool → ℕ → Bool × ℕ
signed_sum s x t y =
    if opposite s t
    then if x == y then (false, 0) else if ltb y x then (s, x - y) else (t, y - x)
    else (s, x + y)

-- The coefficient of `d` at an exponent that is not above its own.
unfoldable pub aligned : Decimal → ℤ → ℕ
aligned d e = d.coeff * 10 ^ pos_part (d.exp -ℤ e)

unfoldable pub add : Decimal → Decimal → Decimal
add a b =
    let e = min_ℤ a.exp b.exp in
    let (s, c) = signed_sum a.neg (aligned a e) b.neg (aligned b e) in
    fix (record { neg = s; coeff = c; exp = e })

unfoldable pub mul : Decimal → Decimal → Decimal
mul a b =
    fix (record { neg = opposite a.neg b.neg; coeff = a.coeff * b.coeff; exp = a.exp +ℤ b.exp })

-- Takes off at most `n` trailing zeros; the second part counts those that were taken.
unfoldable pub strip : ℕ → ℕ → ℕ × ℕ
strip zero c = (c, 0)
strip (suc n) c =
    let rest = strip n (c / 10) in if c % 10 == 0 then (rest.0, suc rest.1) else (c, 0)

-- An inexact quotient that ends in 0 or 5 gets a last digit that shows on which side it lies.
unfoldable pub sticky : ℕ → ℕ → ℕ
sticky q r = if r == 0 then q else if q % 5 == 0 then q + 1 else q

-- The quotient of two numbers that are not zero, 28 digits and one more.
unfoldable pub quotient : Bool → ℕ → ℕ → ℤ → Decimal
quotient s a b ideal =
    let la = digits a a in
    let lb = digits b b + 29 in
    let up = lb - la in
    let n = a * 10 ^ up in
    let d = b * 10 ^ (la - lb) in
    let (c, k) = strip up (n / d) in
    if n % d == 0
    then record { neg = s; coeff = c; exp = ideal +ℤ pos (la - lb) -ℤ pos (up - k) }
    else record { neg = s; coeff = sticky (n / d) (n % d); exp = ideal +ℤ pos (la - lb) -ℤ pos up }

unfoldable pub div : Decimal → Decimal → Result Decimal
div a b =
    if b.coeff == 0
    then err (if a.coeff == 0 then invalid_operation else division_by_zero)
    else if a.coeff == 0
    then ok (fix (record { neg = opposite a.neg b.neg; coeff = 0; exp = a.exp -ℤ b.exp }))
    else ok (fix (quotient (opposite a.neg b.neg) a.coeff b.coeff (a.exp -ℤ b.exp)))

-- sum(xs, Decimal("0"))
unfoldable pub sum_from : Decimal → List Decimal → Decimal
sum_from acc [] = acc
sum_from acc (x ∷ xs) = sum_from (add acc x) xs

-- x > 0
unfoldable pub is_positive : Decimal → Bool
is_positive d = not d.neg && not (d.coeff == 0)

-- The lowest exponent of a list, 0 among them.
unfoldable pub lowest : List Decimal → ℤ
lowest [] = pos 0
lowest (x ∷ xs) = min_ℤ x.exp (lowest xs)

-- The exact sum of a list, in units of 10 ^ e.
unfoldable pub exact_sum : ℤ → Bool × ℕ → List Decimal → Bool × ℕ
exact_sum e acc [] = acc
exact_sum e acc (x ∷ xs) = exact_sum e (signed_sum acc.0 acc.1 x.neg (aligned x e)) xs

-- statistics.mean: the exact sum as a fraction over the count, rounded once by the division.
unfoldable pub mean : ℕ → List Decimal → Result Decimal
mean n xs =
    let e = lowest xs in
    let (s, c) = exact_sum e (false, 0) xs in
    div (record { neg = s; coeff = c; exp = pos 0 }) (from_nat (n * 10 ^ pos_part (pos 0 -ℤ e)))
