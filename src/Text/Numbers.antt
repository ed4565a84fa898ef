-- ===== src/Text/Numbers.antt =====
-- Numbers are read back from their digits.
use native.Mathlib.Nat.{pow-suc}
use funding_tool.Prelude.{
  ℕ, zero, suc, ◌+◌, ◌-◌, ◌*◌, ◌/◌, ◌%◌, ◌^◌, ◌<◌, ◌≡◌, refl, sym, ap, ap₂, ◌∙◌, ◌==◌,
  if◌then◌else◌, List, [], ◌∷◌, ◌++◌, arith,
}
use funding_tool.Text.{show_digits, show_before, padded}

-- A number in decimal notation: the digits up to the end as one number, and how many of them stand
-- behind the point. `acc` and `places` are those of the digits in front.
unfoldable pub read_fraction : ℕ → ℕ → List ℕ → ℕ × ℕ
read_fraction acc places [] = (acc, places)
read_fraction acc places (c ∷ s) = read_fraction (acc * 10 + (c - b'0')) (suc places) s

unfoldable pub read_number : ℕ → List ℕ → ℕ × ℕ
read_number acc [] = (acc, 0)
read_number acc (c ∷ s) =
    let more = read_number (acc * 10 + (c - b'0')) s in
    if c == b'.' then read_fraction acc 0 s else more

read_number-digit :
    (acc d : ℕ) (s : List ℕ)
    → d < 10
    → read_number acc ((b'0' + d) ∷ s) ≡ read_number (acc * 10 + d) s
unfolding read_number
read_number-digit acc d s h =
    let value : b'0' + d - b'0' ≡ d = omega arith in
    ground (arith, ap (λ v. read_number (acc * 10 + v) s) value)

read_number-show_digits :
    (fuel n : ℕ) (rest : List ℕ)
    → n < fuel
    → read_number 0 (show_digits fuel n rest) ≡ read_number n rest
unfolding show_digits
read_number-show_digits zero n rest h = elim h [ ]
read_number-show_digits (suc fuel) n rest h = ground (
  arith,
  read_number-show_digits fuel (n / 10) ((b'0' + n % 10) ∷ rest),
  read_number-digit (n / 10) (n % 10) rest,
  read_number-digit 0 n rest,
)

-- A text that starts with a number is read as the number and what follows.
pub read_number-show_before :
    (n : ℕ) (rest : List ℕ) → read_number 0 (show_before n rest) ≡ read_number n rest
unfolding show_before
read_number-show_before n rest = read_number-show_digits (suc n) n rest (omega arith)

read_fraction-append :
    (acc places : ℕ) (s : List ℕ) (c : ℕ)
    → read_fraction acc places (s ++ c ∷ [])
      ≡ ((read_fraction acc places s).0 * 10 + (c - b'0'), suc (read_fraction acc places s).1)
unfolding read_fraction
read_fraction-append acc places [] c = refl
read_fraction-append acc places (d ∷ s) c =
    read_fraction-append (acc * 10 + (d - b'0')) (suc places) s c

pow_ten : (k : ℕ) → 10 ^ suc k ≡ 10 ^ k * 10
pow_ten k = pow-suc 10 k

next_digit : (p acc n : ℕ) → (acc * p + n / 10) * 10 + (b'0' + n % 10 - b'0') ≡ acc * (p * 10) + n
next_digit p acc n = grind arith

pub read_fraction-padded :
    (k acc places n : ℕ)
    → n < 10 ^ k
    → read_fraction acc places (padded k n) ≡ (acc * 10 ^ k + n, places + k)
unfolding padded
read_fraction-padded zero acc places n h =
    unfold read_fraction in ap₂ (λ (a b : ℕ). (a, b)) (omega arith) (omega arith)
read_fraction-padded (suc k) acc places n h =
    let smaller : n / 10 < 10 ^ k = omega (arith, pow_ten k) in
    read_fraction-append acc places (padded k (n / 10)) (b'0' + n % 10)
    ∙ ap (λ (r : ℕ × ℕ). (r.0 * 10 + (b'0' + n % 10 - b'0'), suc r.1))
        (read_fraction-padded k acc places (n / 10) smaller)
    ∙ ap₂ (λ (a b : ℕ). (a, b))
        (next_digit (10 ^ k) acc n ∙ ap (λ p. acc * p + n) (sym (pow_ten k))) (omega arith)
