-- ===== src/Time/Parse.antt =====
-- parse_user_datetime of infra/time_util.py. `clock` is datetime.now(UTC); `strip` and `lower` are the
-- methods of str; `strptime` reads a date, as its instant at midnight UTC, and `fromisoformat` a
-- datetime, and neither gives one for a text that it refuses with a ValueError.
use funding_tool.Prelude.{
  ℕ, suc, ◌≡◌, refl, true, not, ◌==◌, str_eq, if◌then◌else◌, String, Option, none, some, Bool-cases,
  Option-cases, inl, inr,
}
use funding_tool.Errors.{Result, ok, err, validation_error, Ensures, Ensures-ok}
use funding_tool.Time.{DateTime}

unfoldable pub text_length : String → ℕ
text_length String.[] = 0
text_length (String.◌∷◌ c s) = suc (text_length s)

-- d.replace(tzinfo=UTC)
unfoldable pub parsed_date : Option ℕ → Result DateTime
parsed_date none = err validation_error
parsed_date (some us) = ok (record { us = us; aware = true })

unfoldable pub parsed_datetime : Option DateTime → Result DateTime
parsed_datetime none = err validation_error
parsed_datetime (some dt) = if not dt.aware then err validation_error else ok dt

-- What parse_user_datetime calls.
pub record Parsers : Type 0 where
  pub strip : String → String
  pub lower : String → String
  pub strptime : String → Option ℕ
  pub fromisoformat : String → Option DateTime

unfoldable pub parse_user_datetime : Parsers → ℕ → String → Result DateTime
parse_user_datetime p clock text =
    let value = p.strip text in
    if str_eq (p.lower value) "now"
    then ok (record { us = clock; aware = true })
    else if text_length value == 10
    then parsed_date (p.strptime value)
    else parsed_datetime (p.fromisoformat value)

parse_user_datetime-Ensures :
    (p : Parsers) (clock : ℕ) (text : String)
    → Ensures (λ dt. dt.aware ≡ true) (parse_user_datetime p clock text)
unfolding parse_user_datetime parsed_date parsed_datetime
parse_user_datetime-Ensures p clock text =
    elim (Bool-cases (str_eq (p.lower (p.strip text)) "now")) [
      | inl now ↦ rw now refl
      | inr later ↦ elim (Bool-cases (text_length (p.strip text) == 10)) [
        | inl date ↦ elim (Option-cases (p.strptime (p.strip text))) [
          | inl bad ↦ rw (later, date) (rw bad tt)
          | inr (us, good) ↦ rw (later, date) (rw good refl)
        ]
        | inr long ↦ elim (Option-cases (p.fromisoformat (p.strip text))) [
          | inl bad ↦ rw (later, long) (rw bad tt)
          | inr (dt, good) ↦ elim (Bool-cases dt.aware) [
            | inl zone ↦ rw (later, long) (rw good (rw zone refl))
            | inr naive ↦ rw (later, long) (rw good (rw naive tt))
          ]
        ]
      ]
    ]

-- What is parsed has a time zone.
pub parse_user_datetime-aware :
    (p : Parsers) (clock : ℕ) (text : String) (dt : DateTime)
    → parse_user_datetime p clock text ≡ ok dt
    → dt.aware ≡ true
parse_user_datetime-aware p clock text dt e =
    Ensures-ok (λ d. d.aware ≡ true) (parse_user_datetime p clock text)
      (parse_user_datetime-Ensures p clock text) e
