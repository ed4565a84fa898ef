-- ===== src/Decimal/Signs.antt =====
-- The arithmetic treats a number and its negative alike: ties to even round both the same way.
use mathlib.Core.Path.{subst}
use funding_tool.Prelude.{
  ℕ, suc, ◌≡◌, refl, sym, ap, length, Bool-cases, ◌==◌, Bool, false, not, ◌⊎◌, inl, inr, List, [],
  ◌∷◌, arith,
}
use funding_tool.Prelude.Int.{ℤ, min_ℤ, ◌-ℤ◌}
use funding_tool.Errors.{Both, both_ok, both_err}
use funding_tool.Decimal.{
  Decimal, digits, excess, rounded, opposite, fix, signed_sum, aligned, add, mul, quotient, div,
  sum_from, exact_sum, lowest, mean,
}

-- Equal but for the sign, which may also agree where both are zero.
pub record Negated (x y : Decimal) : Type 0 where
  pub coeff : x.coeff ≡ y.coeff
  pub exp : x.exp ≡ y.exp
  pub sign : (x.coeff ≡ 0) ⊎ (x.neg ≡ not y.neg)

-- The same of a sign and a magnitude.
abbrev pub NegatedSum : Bool × ℕ → Bool × ℕ → Type 0
NegatedSum p q = (p.1 ≡ q.1) × ((p.1 ≡ 0) ⊎ (p.0 ≡ not q.0))

-- Rounding looks at the magnitude only, and keeps the sign.
pub neg-fix : (d : Decimal) → (fix d).neg ≡ d.neg
unfolding fix
neg-fix d = refl

rounded-zero : (e : ℤ) → rounded 0 e ≡ (0, e)
unfolding rounded excess digits
rounded-zero e = refl

fix-zero : (d : Decimal) → d.coeff ≡ 0 → (fix d).coeff ≡ 0
unfolding fix
fix-zero d h = rw (h, rounded-zero)

pub Negated-fix : (x y : Decimal) → Negated x y → Negated (fix x) (fix y)
unfolding fix
Negated-fix x y h = record {
  coeff = cc (h.coeff, h.exp);
  exp = cc (h.coeff, h.exp);
  sign = elim h.sign [ inl z ↦ inl (fix-zero x z) | inr n ↦ inr n ];
}

pub Negated-mul : (x y z : Decimal) → Negated x y → Negated (mul x z) (mul y z)
unfolding mul
Negated-mul x y z h =
    Negated-fix _ _
      (record { coeff = rw h.coeff refl; exp = rw h.exp refl; sign = grind (arith, h.sign) })

pub Negated-signed_sum :
    (s t s' t' : Bool) (x y x' y' : ℕ)
    → NegatedSum (s, x) (s', x')
    → NegatedSum (t, y) (t', y')
    → NegatedSum (signed_sum s x t y) (signed_sum s' x' t' y')
unfolding signed_sum
Negated-signed_sum s t s' t' x y x' y' h k = ground arith

pub Negated-aligned :
    (x y : Decimal) (e : ℤ) → Negated x y → NegatedSum (x.neg, aligned x e) (y.neg, aligned y e)
unfolding aligned
Negated-aligned x y e h =
    (cc (h.coeff, h.exp), elim h.sign [ inl z ↦ inl (rw z (omega arith)) | inr n ↦ inr n ])

pub Negated-add : (x y z w : Decimal) → Negated x y → Negated z w → Negated (add x z) (add y w)
unfolding add
Negated-add x y z w h k =
    let e = min_ℤ y.exp w.exp in
    let same : min_ℤ x.exp z.exp ≡ e = cc (h.exp, k.exp) in
    let (c, s) =
      Negated-signed_sum x.neg z.neg y.neg w.neg _ _ _ _ (Negated-aligned x y e h)
        (Negated-aligned z w e k) in
    rw same (Negated-fix _ _ (record { coeff = c; exp = refl; sign = s }))

-- Two lists whose members are negatives of one another.
pub data AllNegated : List Decimal → List Decimal → Type 0 where
  none : AllNegated [] []
  more :
      {x y : Decimal} {xs ys : List Decimal}
      → Negated x y
      → AllNegated xs ys
      → AllNegated (x ∷ xs) (y ∷ ys)

pub length_same : {xs ys : List Decimal} → AllNegated xs ys → length xs ≡ length ys
length_same none = refl
length_same (more h hs) = ap suc (length_same hs)

pub Negated-sum_from :
    (x y : Decimal) {xs ys : List Decimal}
    → Negated x y
    → AllNegated xs ys
    → Negated (sum_from x xs) (sum_from y ys)
unfolding sum_from
Negated-sum_from x y h none = h
Negated-sum_from x y h (more {x = z} {y = w} k ks) =
    Negated-sum_from (add x z) (add y w) (Negated-add x y z w h k) ks

lowest_same : {xs ys : List Decimal} → AllNegated xs ys → lowest xs ≡ lowest ys
unfolding lowest
lowest_same none = refl
lowest_same (more h hs) = cc (h.exp, lowest_same hs)

NegatedSum-exact_sum :
    (e : ℤ) (p q : Bool × ℕ) {xs ys : List Decimal}
    → NegatedSum p q
    → AllNegated xs ys
    → NegatedSum (exact_sum e p xs) (exact_sum e q ys)
unfolding exact_sum
NegatedSum-exact_sum e p q h none = h
NegatedSum-exact_sum e p q h (more {x = z} {y = w} k ks) =
    NegatedSum-exact_sum e (signed_sum p.0 p.1 z.neg (aligned z e))
      (signed_sum q.0 q.1 w.neg (aligned w e))
      (Negated-signed_sum p.0 z.neg q.0 w.neg _ _ _ _ h (Negated-aligned z w e k)) ks

-- A division fails for a number exactly as it fails for its negative.
quotient_same :
    (s t : Bool) (a b : ℕ) (e : ℤ) → s ≡ not t → Negated (quotient s a b e) (quotient t a b e)
unfolding quotient
quotient_same s t a b e h = ground arith

div_flip :
    (s t : Bool) (c : ℕ) (e : ℤ) (z : Decimal)
    → (c ≡ 0) ⊎ (s ≡ not t)
    → Both Negated
        (div (record { neg = s; coeff = c; exp = e }) z)
        (div (record { neg = t; coeff = c; exp = e }) z)
unfolding div
div_flip s t c e z h = elim (Bool-cases (z.coeff == 0)) [
  | inl zero_divisor ↦ rw zero_divisor (both_err _)
  | inr fine ↦ rw fine (elim (Bool-cases (c == 0)) [
    | inl zero_dividend ↦
        rw zero_dividend
          (both_ok (Negated-fix _ _ (record { coeff = refl; exp = refl; sign = inl refl })))
    | inr usual ↦ rw usual (
        both_ok (
          Negated-fix _ _ (
            quotient_same (opposite s z.neg) (opposite t z.neg) c z.coeff (e -ℤ z.exp)
              (ground arith))))
  ])
]

pub Both-div : (x y z : Decimal) → Negated x y → Both Negated (div x z) (div y z)
Both-div x y z h =
    let same : x ≡ record { neg = x.neg; coeff = y.coeff; exp = y.exp } =
      λ i. record { neg = x.neg; coeff = h.coeff i; exp = h.exp i } in
    subst (λ w. Both Negated (div w z) (div y z)) (sym same)
      (div_flip x.neg y.neg y.coeff y.exp z (ground arith))

pub Both-mean :
    (n : ℕ) {xs ys : List Decimal} → AllNegated xs ys → Both Negated (mean n xs) (mean n ys)
unfolding mean
Both-mean n {xs} {ys} hs =
    let (c, s) = NegatedSum-exact_sum (lowest ys) (false, 0) (false, 0) (refl, inl refl) hs in
    rw (lowest_same hs) (Both-div _ _ _ (record { coeff = c; exp = refl; sign = s }))
