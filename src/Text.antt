-- ===== src/Text.antt =====
-- Texts as lists of code points, and the text of a number.
pub mod Numbers
use Prim.Native.Char.{code}
use funding_tool.Prelude.{
  ℕ, zero, suc, ◌+◌, ◌/◌, ◌%◌, true, false, ltb, String, List, [], ◌∷◌, ◌++◌,
}

-- The code points of a text.
abbrev pub codes : String → List ℕ
codes String.[] = []
codes (String.◌∷◌ c s) = code c ∷ codes s

-- The digits of a number in front of a text, from the last one.
unfoldable pub show_digits : ℕ → ℕ → List ℕ → List ℕ
show_digits zero n acc = acc
show_digits (suc fuel) n acc = elim (ltb n 10) [
  | true ↦ (b'0' + n) ∷ acc
  | false ↦ show_digits fuel (n / 10) ((b'0' + n % 10) ∷ acc)
]

-- str(n), in front of a text. A number has fewer digits than suc of it.
unfoldable pub show_before : ℕ → List ℕ → List ℕ
show_before n rest = show_digits (suc n) n rest

unfoldable pub str_of : ℕ → List ℕ
str_of n = show_before n []

-- Exactly so many digits, with zeros in front.
unfoldable pub padded : ℕ → ℕ → List ℕ
padded zero n = []
padded (suc k) n = padded k (n / 10) ++ (b'0' + n % 10) ∷ []
