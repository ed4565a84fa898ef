-- ===== src/Decimal/Format/Reads.antt =====
-- What a formatted decimal is read as.
use funding_tool.Prelude.{
  ℕ, zero, suc, ◌+◌, ◌*◌, ◌/◌, ◌%◌, ◌^◌, ◌≤◌, ◌<◌, ◌≡◌, refl, ap, ap₂, ◌∙◌, Bool, true, false,
  Bool-cases, inl, inr, ltb, ◌==◌, if◌then◌else◌, List, [], ◌∷◌, ◌++◌, arith,
}
use native.Mathlib.Nat.{mod-add-div', one-le-pow}
use funding_tool.Prelude.Int.{ℤ, pos, negsuc, ◌+ℤ◌}
use funding_tool.Rounding.{round_div_near}
use funding_tool.Decimal.{Decimal}
use funding_tool.Text.{show_digits, show_before, padded}
use funding_tool.Text.Numbers.{
  read_number, read_fraction, read_number-show_before, read_fraction-padded,
}
use funding_tool.Decimal.Format.{
  body, minus, plus_or_minus, of_places, scaled, shown, format_f, fixed, signed_fixed,
}

-- A decimal in plain notation, as the constructor of Decimal reads it.
unfoldable pub of_number : Bool → ℕ × ℕ → Decimal
of_number neg (c, places) = record { neg = neg; coeff = c; exp = of_places places }

unfoldable pub read_decimal : List ℕ → Decimal
read_decimal [] = of_number false (0, 0)
read_decimal (c ∷ s) =
    if c == b'-'
    then of_number true (read_number 0 s)
    else if c == b'+'
    then of_number false (read_number 0 s)
    else of_number false (read_number 0 (c ∷ s))

-- The number of a body, and its places.
abbrev value : ℕ → ℤ → ℕ × ℕ
value c (pos e) = (c * 10 ^ e, 0)
value c (negsuc k) = (c, suc k)

pow-pos : (k : ℕ) → 0 < 10 ^ k
pow-pos k = one-le-pow k 10 (omega arith)

read_number-point : (n : ℕ) (s : List ℕ) → read_number n (b'.' ∷ s) ≡ read_fraction n 0 s
unfolding read_number
read_number-point n s = refl

read_number-body : (c : ℕ) (e : ℤ) → read_number 0 (body c e) ≡ value c e
unfolding body
read_number-body c (pos e) = read_number-show_before (c * 10 ^ e) [] ∙ unfold read_number in refl
read_number-body c (negsuc k) =
    let p = 10 ^ suc k in
    let small : c % p < p = grind (arith, pow-pos (suc k)) in
    read_number-show_before (c / p) (b'.' ∷ padded (suc k) (c % p))
    ∙ read_number-point (c / p) (padded (suc k) (c % p))
    ∙ read_fraction-padded (suc k) (c / p) 0 (c % p) small
    ∙ ap₂ (λ (a b : ℕ). (a, b)) (omega (arith, mod-add-div' c p)) (omega arith)

-- A body starts with a digit.
show_digits-head :
    (fuel n : ℕ) (rest : List ℕ)
    → n < fuel
    → (d : ℕ) × (s : List ℕ) × (b'0' ≤ d) × (show_digits fuel n rest ≡ d ∷ s)
unfolding show_digits
show_digits-head zero n rest h = elim h [ ]
show_digits-head (suc fuel) n rest h = elim (Bool-cases (ltb n 10)) [
  | inl few ↦ (b'0' + n, rest, omega arith, rw (few, show_digits) refl)
  | inr many ↦
      let (d, s, above, e) =
        show_digits-head fuel (n / 10) ((b'0' + n % 10) ∷ rest) (ground arith) in
      (d, s, above, rw (many, show_digits) e)
]

body-head : (c : ℕ) (e : ℤ) → (d : ℕ) × (s : List ℕ) × (b'0' ≤ d) × (body c e ≡ d ∷ s)
unfolding body show_before
body-head c (pos e) = show_digits-head _ (c * 10 ^ e) [] (omega arith)
body-head c (negsuc k) =
    show_digits-head _ (c / 10 ^ suc k) (b'.' ∷ padded (suc k) (c % 10 ^ suc k)) (omega arith)

read_decimal-digit :
    (d : ℕ) (s : List ℕ) → b'0' ≤ d → read_decimal (d ∷ s) ≡ of_number false (read_number 0 (d ∷ s))
unfolding read_decimal
read_decimal-digit d s h = ground arith

read_decimal-body :
    (c : ℕ) (e : ℤ) → read_decimal (body c e) ≡ of_number false (read_number 0 (body c e))
read_decimal-body c e =
    let (d, s, above, same) = body-head c e in rw same (read_decimal-digit d s above)

read_decimal-minus :
    (neg : Bool) (c : ℕ) (e : ℤ) → read_decimal (minus neg ++ body c e) ≡ of_number neg (value c e)
unfolding minus
read_decimal-minus true c e = unfold read_decimal in ap (of_number true) (read_number-body c e)
read_decimal-minus false c e = read_decimal-body c e ∙ ap (of_number false) (read_number-body c e)

read_decimal-plus_or_minus :
    (neg : Bool) (c : ℕ) (e : ℤ)
    → read_decimal (plus_or_minus neg ++ body c e) ≡ of_number neg (value c e)
unfolding plus_or_minus read_decimal
read_decimal-plus_or_minus true c e = ap (of_number true) (read_number-body c e)
read_decimal-plus_or_minus false c e = ap (of_number false) (read_number-body c e)

-- The same number, with no exponent above zero.
abbrev pub plain : Decimal → Decimal
plain d = of_number d.neg (value d.coeff d.exp)

value_of_places : (c places : ℕ) → value c (of_places places) ≡ (c, places)
unfolding of_places
value_of_places c zero = ap₂ (λ (a b : ℕ). (a, b)) (omega arith) refl
value_of_places c (suc p) = refl

-- The coefficient of a decimal with so many places: exact where they are enough, and elsewhere the
-- nearest one.
abbrev pub IsNearest : ℕ → ℕ → ℤ → Type 0
IsNearest n c (pos k) = n ≡ c * 10 ^ k
IsNearest n c (negsuc k) =
    (2 * (n * 10 ^ suc k) ≤ 2 * c + 10 ^ suc k) × (2 * c ≤ 2 * (n * 10 ^ suc k) + 10 ^ suc k)

scaled-IsNearest : (c : ℕ) (e : ℤ) → IsNearest (scaled c e) c e
unfolding scaled
scaled-IsNearest c (pos k) = refl
scaled-IsNearest c (negsuc k) = round_div_near c (10 ^ suc k) (pow-pos (suc k))

-- A decimal in plain notation is read as itself, with the exponent of a whole number at zero; and
-- one with a number of places is read as one with these places, its sign, and a coefficient that is
-- exact where the places are enough, and elsewhere at most half a unit of the last place away.
pub read_decimal-format :
    (d : Decimal) (places : ℕ)
    → (read_decimal (format_f d) ≡ plain d)
      × ((n : ℕ) × IsNearest n d.coeff (d.exp +ℤ pos places)
          × (read_decimal (fixed places d) ≡ of_number d.neg (n, places))
          × (read_decimal (signed_fixed places d) ≡ of_number d.neg (n, places)))
unfolding format_f fixed signed_fixed shown
read_decimal-format d places =
    let n = scaled d.coeff (d.exp +ℤ pos places) in
    let read = ap (of_number d.neg) (value_of_places n places) in
    (
      read_decimal-minus d.neg d.coeff d.exp,
      (
        n,
        scaled-IsNearest d.coeff (d.exp +ℤ pos places),
        read_decimal-minus d.neg n (of_places places) ∙ read,
        read_decimal-plus_or_minus d.neg n (of_places places) ∙ read,
      ),
    )
