-- ===== src/Decimal/Format.antt =====
-- format(d, "f"), and with a number of places, with a sign or without: Decimal.__format__ of Python,
-- which rounds to a number of places with ties to even. Texts are lists of code points.
pub mod Reads
use funding_tool.Prelude.{
  ℕ, zero, suc, ◌+◌, ◌*◌, ◌/◌, ◌%◌, ◌^◌, Bool, true, false, if◌then◌else◌, List, [], ◌∷◌, ◌++◌,
}
use funding_tool.Prelude.Int.{ℤ, pos, negsuc, ◌+ℤ◌}
use funding_tool.Rounding.{round_div}
use funding_tool.Decimal.{Decimal}
use funding_tool.Text.{show_before, padded}

-- The digits, with the point where the exponent puts it.
unfoldable pub body : ℕ → ℤ → List ℕ
body c (pos e) = show_before (c * 10 ^ e) []
body c (negsuc k) = show_before (c / 10 ^ suc k) (b'.' ∷ padded (suc k) (c % 10 ^ suc k))

unfoldable pub minus : Bool → List ℕ
minus true = b'-' ∷ []
minus false = []

unfoldable pub plus_or_minus : Bool → List ℕ
plus_or_minus true = b'-' ∷ []
plus_or_minus false = b'+' ∷ []

-- The exponent of a number with so many places.
unfoldable pub of_places : ℕ → ℤ
of_places zero = pos 0
of_places (suc p) = negsuc p

unfoldable pub scaled : ℕ → ℤ → ℕ
scaled c (pos k) = c * 10 ^ k
scaled c (negsuc k) = round_div c (10 ^ suc k)

-- The coefficient with so many places, rounded if need be.
unfoldable pub shown : ℕ → Decimal → ℕ
shown places d = scaled d.coeff (d.exp +ℤ pos places)

-- f"{d:f}"
unfoldable pub format_f : Decimal → List ℕ
format_f d = minus d.neg ++ body d.coeff d.exp

-- f"{d:.2f}", for any number of places
unfoldable pub fixed : ℕ → Decimal → List ℕ
fixed places d = minus d.neg ++ body (shown places d) (of_places places)

-- f"{d:+.4f}", for any number of places
unfoldable pub signed_fixed : ℕ → Decimal → List ℕ
signed_fixed places d = plus_or_minus d.neg ++ body (shown places d) (of_places places)
