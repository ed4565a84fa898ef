-- ===== src/Decimal/Size.antt =====
-- The size of quotients: a division by a number that is not zero succeeds, and no quotient of
-- numbers that are not zero is rounded to zero.
use native.Mathlib.Nat.{pow-suc, zero-add, suc-add, mul-le-mul, le_refl}
use funding_tool.Prelude.{
  ℕ, zero, suc, ◌+◌, ◌-◌, ◌*◌, ◌/◌, ◌%◌, ◌^◌, ◌≤◌, ◌<◌, ◌≡◌, ◌≢◌, sym, ap, ◌∙◌, Bool, false, inl,
  inr, Bool-cases, ltb, ◌==◌, arith,
}
use funding_tool.Prelude.Int.{ℤ, ◌-ℤ◌}
use funding_tool.Rounding.{round_div, round_div_near}
use funding_tool.Errors.{ok}
use funding_tool.Decimal.{
  Decimal, digits, excess, rounded, fix, strip, sticky, quotient, div, opposite,
}

pub pow_pos : (n : ℕ) → 0 < 10 ^ n
pow_pos zero = omega arith
pow_pos (suc n) = rw pow-suc (omega (arith, pow_pos n))

pow_add : (m n : ℕ) → 10 ^ (n + m) ≡ 10 ^ n * 10 ^ m
pow_add m zero = rw zero-add (omega arith)
pow_add m (suc n) = simp (suc-add, pow-suc) (omega (arith, pow_add m n))

digits_upper : (f c : ℕ) → c ≤ f → c < 10 ^ digits f c
unfolding digits
digits_upper zero c h = omega arith
digits_upper (suc f) c h = elim (Bool-cases (ltb c 10)) [
  | inl small ↦ rw small (ground arith)
  | inr large ↦ rw (large, pow-suc) (ground (arith, digits_upper f (c / 10)))
]

digits_lower : (f c : ℕ) → c ≤ f → 0 < c → 10 ^ digits f c ≤ 10 * c
unfolding digits
digits_lower zero c h p = absurd (omega arith)
digits_lower (suc f) c h p = elim (Bool-cases (ltb c 10)) [
  | inl small ↦ rw small (ground arith)
  | inr large ↦ rw (large, pow-suc) (ground (arith, digits_lower f (c / 10)))
]

strip-ne-zero : (n c : ℕ) → c ≢ 0 → (strip n c).0 ≢ 0
unfolding strip
strip-ne-zero zero c h = h
strip-ne-zero (suc n) c h = ground (arith, strip-ne-zero n (c / 10))

sticky-ne-zero : (q r : ℕ) → q ≢ 0 → sticky q r ≢ 0
unfolding sticky
sticky-ne-zero q r h = ground arith

-- A quotient of at least 1 from the bounds that the numbers of digits give.
ratio_pos : (n d : ℕ) → 0 < d → d ≤ n → n / d ≢ 0
ratio_pos n d p h e = grind arith

-- a has la digits and b is below 10 ^ (lb - 29): scaled to the same digits, b is the smaller.
scaled_le :
    (a b la l : ℕ)
    → 10 ^ la ≤ 10 * a
    → b < 10 ^ l
    → b * 10 ^ (la - (l + 29)) ≤ a * 10 ^ (l + 29 - la)
scaled_le a b la l h k = elim (Bool-cases (ltb la (l + 29))) [
  | inl less ↦
      let e : l + 29 ≡ la + (l + 29 - la) = ground arith in
      let z : la - (l + 29) ≡ 0 = ground arith in
      rw z (
        case_less (10 ^ la) (10 ^ (l + 29 - la)) (10 ^ l) h k
          (sym (pow_add (l + 29 - la) la) ∙ ap (λ (t : ℕ). 10 ^ t) (sym e) ∙ pow_add 29 l))
  | inr more ↦
      let e : la ≡ l + 29 + (la - (l + 29)) = ground arith in
      let z : l + 29 - la ≡ 0 = ground arith in
      rw z (
        case_more (10 ^ la) (10 ^ (la - (l + 29))) (10 ^ l) h k (
          ap (λ (t : ℕ). 10 ^ t) e
          ∙ pow_add (la - (l + 29)) (l + 29)
          ∙ ap (λ (t : ℕ). t * 10 ^ (la - (l + 29))) (pow_add 29 l)))
]
  where
    case_less : (x y w : ℕ) → x ≤ 10 * a → b < w → x * y ≡ w * 10 ^ 29 → b * 1 ≤ a * y
    case_less x y w p q r = omega (arith, mul-le-mul p (le_refl y))

    case_more : (x y w : ℕ) → x ≤ 10 * a → b < w → x ≡ w * 10 ^ 29 * y → b * y ≤ a * 1
    case_more x y w p q r = omega (arith, mul-le-mul q (le_refl y))

round_div-ne-zero : (a b : ℕ) → 0 < b → b ≤ a → round_div a b ≢ 0
round_div-ne-zero a b p h e =
    absurd (omega (arith, (round_div_near a b p).1, ap (λ (t : ℕ). t * b) e))

rounded-ne-zero : (c : ℕ) (e : ℤ) → c ≢ 0 → (rounded c e).0 ≢ 0
unfolding rounded
rounded-ne-zero c e h = elim (Bool-cases (excess c == 0)) [
  | inl fits ↦ rw fits h
  | inr long ↦ rw long (elim (Bool-cases (round_div c (10 ^ excess c) == 10 ^ 28)) [
    | inl carry ↦ rw carry (omega arith)
    | inr plain ↦ rw plain (round_div-ne-zero c (10 ^ excess c) (pow_pos (excess c)) (big long))
  ])
]
  where
    big : (excess c == 0) ≡ false → 10 ^ excess c ≤ c
    big long =
        let n : digits c c ≡ 28 + excess c = unfold excess in ground arith in
        let l : 10 ^ digits c c ≤ 10 * c = digits_lower c c (omega arith) (omega arith) in
        let q : 10 ^ (28 + excess c) ≡ 10 ^ 28 * 10 ^ excess c = pow_add (excess c) 28 in
        omega (arith, ap (λ (t : ℕ). 10 ^ t) n, q, l)

fix-ne-zero : (d : Decimal) → d.coeff ≢ 0 → (fix d).coeff ≢ 0
unfolding fix
fix-ne-zero d h = rounded-ne-zero d.coeff d.exp h

quotient-ne-zero : (s : Bool) (a b : ℕ) (e : ℤ) → a ≢ 0 → b ≢ 0 → (quotient s a b e).coeff ≢ 0
unfolding quotient
quotient-ne-zero s a b e p q = elim (Bool-cases (n % d == 0)) [
  | inl exact ↦ rw exact (strip-ne-zero up (n / d) large)
  | inr inexact ↦ rw inexact (sticky-ne-zero (n / d) (n % d) large)
]
  where
    up : ℕ
    up = digits b b + 29 - digits a a

    n : ℕ
    n = a * 10 ^ up

    down : ℕ
    down = digits a a - (digits b b + 29)

    d : ℕ
    d = b * 10 ^ down

    d_pos : 0 < d
    d_pos = grind (arith, pow_pos down)

    large : n / d ≢ 0
    large = ratio_pos n d d_pos (
        scaled_le a b (digits a a) (digits b b) (digits_lower a a (omega arith) (omega arith))
          (digits_upper b b (omega arith)))

==_false : (n : ℕ) → n ≢ 0 → (n == 0) ≡ false
==_false n h = ground arith

-- A division by a number that is not zero succeeds, and its result is zero only if the dividend is.
pub div_lem :
    (a b : Decimal) → b.coeff ≢ 0 → (x : Decimal) × (div a b ≡ ok x) × (a.coeff ≢ 0 → x.coeff ≢ 0)
unfolding div
div_lem a b h = elim (Bool-cases (a.coeff == 0)) [
  | inl z ↦ (
    fix (record { neg = opposite a.neg b.neg; coeff = 0; exp = a.exp -ℤ b.exp }),
    rw (==_false _ h, z),
    λ nonzero. absurd (nonzero (ground arith)),
  )
  | inr nz ↦ (
    fix (quotient (opposite a.neg b.neg) a.coeff b.coeff (a.exp -ℤ b.exp)),
    rw (==_false _ h, nz),
    λ nonzero. fix-ne-zero _ (quotient-ne-zero _ _ _ _ nonzero h),
  )
]
