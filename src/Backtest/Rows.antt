-- ===== src/Backtest/Rows.antt =====
-- Which inputs are valid, and the payment rows that a valid input has for its events.
use funding_tool.Prelude.{
  ◌≤◌, ◌<◌, ◌≡◌, ◌≢◌, ◌↔◌, refl, ap, true, false, Option, none, some, List, [], ◌∷◌, map, All,
  arith,
}
use funding_tool.Errors.{Result, ok, ◌>>=◌}
use funding_tool.Prelude.Int.{ℤ, pos, negsuc}
use funding_tool.Decimal.{Decimal, digits, from_nat, div}
use funding_tool.Decimal.Size.{div_lem}
use funding_tool.Models.{
  FundingEvent, SizeMode, base, quote, rate_only, BacktestInput, FundingPayment,
}
use funding_tool.Backtest.{
  required, needs_size, size_missing, validate, quantity_for_event, payment_row, payment_rows,
  payments_for, base_amounts,
}

-- What `validate` accepts.
pub record IsValid (inp : BacktestInput) : Type 0 where
  pub aware : (inp.start.aware ≡ true) × (inp.end.aware ≡ true)
  pub ordered : inp.start.us < inp.end.us
  pub sized : needs_size inp.size_mode ≡ true → size_missing inp.size ≡ false

-- `validate` accepts exactly the inputs with two aware datetimes, the start before the end, and a
-- positive size in the modes that use one.
pub validate-ok_iff : (inp : BacktestInput) → (validate inp ≡ ok tt) ↔ IsValid inp
unfolding validate
validate-ok_iff inp = (λ h. ground arith, λ h. ground (arith, h.sized))

-- A computation that returns a result with a property.
abbrev pub Returns : {A : Type 0} → (A → Type 0) → Result A → Type 0
Returns {A} P m = (x : A) × (m ≡ ok x) × P x

pub Returns-bind :
    {A B : Type 0} (P : A → Type 0) (Q : B → Type 0) (m : Result A) (f : A → Result B)
    → Returns P m
    → ((a : A) → P a → Returns Q (f a))
    → Returns Q (m >>= f)
Returns-bind P Q m f (x, e, p) h = rw e (h x p)

-- A price and an interval that are not zero.
abbrev pub IsUsable : FundingEvent → Type 0
IsUsable ev = (ev.mark_price.coeff ≢ 0) × (ev.interval_hours ≢ 0)

-- At most 1000 digits, and an exponent of at most 10000 either way.
abbrev pub HasModerateExponent : ℤ → Type 0
HasModerateExponent (pos n) = n ≤ 10000
HasModerateExponent (negsuc n) = n < 10000

abbrev pub IsModerate : Decimal → Type 0
IsModerate d = (digits d.coeff d.coeff ≤ 1000) × HasModerateExponent d.exp

abbrev pub IsModerateSize : Option Decimal → Type 0
IsModerateSize none = Unit
IsModerateSize (some d) = IsModerate d

-- A size, and the rates and prices of events, that are so moderate that no product, sum or quotient of
-- a backtest, each of at most six of them and a number of events, comes near an exponent of 999999,
-- where decimal raises Overflow, or of -999999.
abbrev pub AreModerate : Option Decimal → List FundingEvent → Type 0
AreModerate size evs =
    IsModerateSize size × All (λ e. IsModerate e.rate × IsModerate e.mark_price) evs

abbrev pub Sized : SizeMode → Option Decimal → Type 0
Sized mode size = needs_size mode ≡ true → size_missing size ≡ false

abbrev pub Anything : {A : Type 0} → A → Type 0
Anything a = Unit {0}

pub required-Returns :
    (size : Option Decimal) → size_missing size ≡ false → Returns Anything (required size)
unfolding size_missing required
required-Returns none h = cc
required-Returns (some d) h = (d, refl, tt)

pub div-Returns : (a b : Decimal) → b.coeff ≢ 0 → Returns Anything (div a b)
div-Returns a b h = let (x, e, _) = div_lem a b h in (x, e, tt)

quantity-Returns :
    (mode : SizeMode) (size : Option Decimal) (entry : FundingEvent)
    → Sized mode size
    → IsUsable entry
    → Returns Anything (quantity_for_event mode size entry)
unfolding quantity_for_event needs_size
quantity-Returns base size entry h u = required-Returns size (h refl)
quantity-Returns quote size entry h u =
    Returns-bind Anything Anything (required size) _ (required-Returns size (h refl))
      λ d _. div-Returns d entry.mark_price u.0
quantity-Returns rate_only size entry h u = (from_nat 1, refl, tt)

-- The payments are there, one for each event, in the events' order.
abbrev pub RowsOf : List FundingEvent → List FundingPayment → Type 0
RowsOf evs ps = map (λ p. p.event) ps ≡ evs

payment_rows-Returns :
    (inp : BacktestInput) (entry : FundingEvent) (evs : List FundingEvent)
    → Sized inp.size_mode inp.size
    → IsUsable entry
    → Returns (RowsOf evs) (payment_rows inp entry evs)
unfolding payment_rows
payment_rows-Returns inp entry [] h u = ([], refl, refl)
payment_rows-Returns inp entry (ev ∷ evs) h u =
    Returns-bind Anything (RowsOf (ev ∷ evs)) _ _
      (quantity-Returns inp.size_mode inp.size entry h u)
      λ qty _.
        Returns-bind (RowsOf evs) (RowsOf (ev ∷ evs)) _ _ (payment_rows-Returns inp entry evs h u)
          λ rest e. (payment_row inp.side qty ev ∷ rest, refl, unfold payment_row in ap (◌∷◌ ev) e)

pub payments_for-Returns :
    (inp : BacktestInput) (evs : List FundingEvent)
    → Sized inp.size_mode inp.size
    → All IsUsable evs
    → Returns (RowsOf evs) (payments_for inp evs)
unfolding payments_for
payments_for-Returns inp [] h u = ([], refl, refl)
payments_for-Returns inp (ev ∷ evs) h u = payment_rows-Returns inp ev (ev ∷ evs) h u.0

pub base_amounts-Returns :
    (ps : List FundingPayment)
    → All IsUsable (map (λ p. p.event) ps)
    → Returns Anything (base_amounts ps)
unfolding base_amounts
base_amounts-Returns [] u = ([], refl, tt)
base_amounts-Returns (p ∷ ps) u =
    Returns-bind Anything Anything _ _ (div-Returns p.payment_quote p.event.mark_price u.0.0) λ x _.
      Returns-bind Anything Anything _ _ (base_amounts-Returns ps u.1) λ xs _. (x ∷ xs, refl, tt)
