-- ===== src/Errors.antt =====
-- core/errors.py: the exceptions as values, without their messages, and the result of code that
-- may raise. `division_by_zero` and `invalid_operation` are those of decimal, and the last line has
-- but one has exceptions of Python itself; `fuel_exhausted` is a loop that the code would not leave.
use mathlib.Core.List.{List, ◌∷◌}
use mathlib.Core.Path.{◌≡◌, refl, subst}
use mathlib.Core.Logic.{◌⊎◌, inl, inr}

pub data Error : Type 0 where
  validation_error unknown_symbol_error authentication_error missing_credentials_error : Error
  rate_limit_error exchange_error network_error cache_corruption_error config_error : Error
  plaintext_fallback_required : Error
  division_by_zero invalid_operation : Error
  key_error value_error type_error attribute_error runtime_error assertion_error : Error
  fuel_exhausted : Error

pub data Result {ℓ} (A : Type ℓ) : Type ℓ where
  err : Error → Result A
  ok : A → Result A

-- What follows code that may raise: it runs on the value, and an error passes it by.
infixl 5 ◌>>=◌
abbrev pub ◌>>=◌ {ℓ κ} : {A : Type ℓ} {B : Type κ} → Result A → (A → Result B) → Result B
err x >>= next = err x
ok a >>= next = next a

infixl 5 ◌>>◌
abbrev pub ◌>>◌ {κ} : {B : Type κ} → Result (Unit {0}) → Result B → Result B
check >> later = check >>= λ u. later

-- Two computations that fail alike, or succeed with related results.
pub data Both {ℓ} {A B : Type ℓ} (R : A → B → Type ℓ) : Result A → Result B → Type ℓ where
  both_ok : {a : A} {b : B} → R a b → Both R (ok a) (ok b)
  both_err : (e : Error) → Both R (err e) (err e)

pub Both-bind :
    {A B C D : Type 0} {R : A → B → Type 0} (S : C → D → Type 0) {m : Result A} {n : Result B}
    (f : A → Result C) (g : B → Result D)
    → Both R m n
    → ((a : A) (b : B) → R a b → Both S (f a) (g b))
    → Both S (m >>= f) (n >>= g)
Both-bind S f g (both_ok {a = a} {b = b} r) h = h a b r
Both-bind S f g (both_err e) h = both_err e

pub Both-refl : {A : Type 0} (m : Result A) → Both (λ (a b : A). a ≡ b) m m
Both-refl (ok a) = both_ok refl
Both-refl (err e) = both_err e

-- Two computations whose results are put together succeed only if both do.
pub cons-eq-ok :
    {A : Type 0} (m : Result A) (n : Result (List A)) {bs : List A}
    → (m >>= λ a. n >>= λ as'. ok (a ∷ as')) ≡ ok bs
    → (a : A) × (as' : List A) × (m ≡ ok a) × (n ≡ ok as') × (bs ≡ a ∷ as')
cons-eq-ok (ok a) (ok as') h = (a, as', refl, refl, cc)
cons-eq-ok (ok a) (err e) h = cc
cons-eq-ok (err e) n h = cc

-- The result, if there is one, has the property.
abbrev pub Ensures {ℓ} : {A : Type ℓ} → (A → Type 0) → Result A → Type 0
Ensures P (ok a) = P a
Ensures P (err e) = Unit

pub Ensures-bind :
    {A B : Type 0} (P : B → Type 0) (m : Result A) (f : A → Result B)
    → ((a : A) → Ensures P (f a))
    → Ensures P (m >>= f)
Ensures-bind P (ok a) f h = h a
Ensures-bind P (err e) f h = tt

pub Ensures-ok : {A : Type 0} (P : A → Type 0) (m : Result A) {a : A} → Ensures P m → m ≡ ok a → P a
Ensures-ok P m h e = subst (Ensures P) e h

pub Ensures-then :
    {A B : Type 0} (Q : A → Type 0) (P : B → Type 0) (m : Result A) (f : A → Result B)
    → Ensures Q m
    → ((a : A) → Q a → Ensures P (f a))
    → Ensures P (m >>= f)
Ensures-then Q P (ok a) f q h = h a q
Ensures-then Q P (err e) f q h = tt

pub Result-cases :
    {A : Type 0} (m : Result A) → ((a : A) × (m ≡ ok a)) ⊎ ((e : Error) × (m ≡ err e))
Result-cases (ok a) = inl (a, refl)
Result-cases (err e) = inr (e, refl)

pub Ensures-weaken :
    {A : Type 0} (P Q : A → Type 0) (m : Result A)
    → ((a : A) → P a → Q a)
    → Ensures P m
    → Ensures Q m
Ensures-weaken P Q (ok a) f h = f a h
Ensures-weaken P Q (err e) f h = tt
