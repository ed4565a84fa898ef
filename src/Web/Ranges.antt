-- ===== src/Web/Ranges.antt =====
-- The test of the routes web/routes/history.py and web/routes/backtest.py that a range of time is
-- not too large.
use funding_tool.Prelude.{
  ℕ, ◌+◌, ◌*◌, ◌≤◌, ◌≡◌, ◌↔◌, Bool, true, false, ltb, if◌then◌else◌, none, arith,
}
use funding_tool.Errors.{type_error}
use funding_tool.Time.{DateTime}
use funding_tool.WebErrors.{WebCode}
use funding_tool.Web.{http, raised, coded, Handled, returned, failed}

-- timedelta(days=n), in microseconds
abbrev pub days_us : ℕ → ℕ
days_us n = n * 86400000000

-- if (end - start) > timedelta(days=max_days): the subtraction raises a TypeError for a naive
-- datetime and an aware one.
unfoldable pub check_range : ℕ → DateTime → DateTime → Handled (Unit {0})
check_range max_days start end =
    let far = ltb (start.us + days_us max_days) end.us in
    let same : Bool = elim start.aware [
      | true ↦ end.aware
      | false ↦ elim end.aware [ true ↦ false | false ↦ true ]
    ] in
    if same
    then (if far then failed (http 400 (coded WebCode.range_too_large none)) else returned tt)
    else failed (raised type_error)

pub check_range_iff :
    (n : ℕ) (start end : DateTime)
    → ((check_range n start end ≡ returned tt)
        ↔ ((start.aware ≡ end.aware) × (end.us ≤ start.us + days_us n)))
unfolding check_range
check_range_iff n start end = (λ h. ground arith, λ h. ground arith)
