-- ===== src/Log/Messages.antt =====
-- What a logger of get_logger writes of a record: each of its filters has seen the record.
use funding_tool.Prelude.{
  ℕ, ◌≡◌, refl, sym, ap, ◌∙◌, inl, inr, true, Bool-cases, String, eq_iff, List, [], ◌∷◌, ◌++◌,
  arith,
}
use funding_tool.Errors.{Result, ok, ◌>>=◌, Result-cases}
use funding_tool.Log.{
  stars, scrub, same_text, LogRecord, get_message, rewritten, filtered, filter, Filter, scrubbing,
  is_scrubbing, has_scrubbing, get_logger,
}
use funding_tool.Log.Fields.{IsDelimiter}
use funding_tool.Log.Secrets.{IsHidden, IsValue, IsClosed, scrub-fields}

same_text-eq : (s t : List ℕ) → same_text s t ≡ true → s ≡ t
unfolding same_text
same_text-eq [] [] h = refl
same_text-eq [] (d ∷ t) h = cc
same_text-eq (c ∷ s) [] h = cc
same_text-eq (c ∷ s) (d ∷ t) h = ground (arith, same_text-eq s t)

module _ {Arg : Type 0} (interpolate : List ℕ → List Arg → Result (List ℕ)) where
  get_message-rewritten :
      (r : LogRecord Arg) (formatted : List ℕ)
      → get_message interpolate r ≡ ok formatted
      → get_message interpolate (rewritten interpolate r formatted) ≡ ok (scrub formatted)
  unfolding rewritten
  get_message-rewritten r formatted e = elim (Bool-cases (same_text (scrub formatted) formatted)) [
    | inl same ↦ rw same (e ∙ ap ok (sym (same_text-eq (scrub formatted) formatted same)))
    | inr differs ↦ rw differs (unfold get_message in refl)
  ]

  -- The filter lets each record through, and its message is then scrubbed, or cannot be formatted as
  -- before.
  pub filter-get_message :
      (r : LogRecord Arg)
      → ((filter interpolate r).0 ≡ true)
        × (get_message interpolate (filter interpolate r).1
            ≡ (get_message interpolate r >>= λ formatted. ok (scrub formatted)))
  unfolding filter filtered
  filter-get_message r = elim (Result-cases (get_message interpolate r)) [
    | inl (formatted, e) ↦ rw e (refl, get_message-rewritten r formatted e)
    | inr (error, e) ↦ rw e (refl, e)
  ]

  -- A record whose message has a field api_secret= or signature= between delimiters, which are a
  -- comma, an ampersand or a closing brace, and with a value without spaces, quotes and delimiters:
  -- behind the filter the message has three stars in place of the value, and in front of the field
  -- and behind it what the scrubbing of these parts alone gives, whatever they are.
  pub filter-hidden :
      (r : LogRecord Arg) (pre name v rest : List ℕ) (b : ℕ)
      → IsDelimiter b
      → IsHidden name
      → IsValue v
      → IsClosed rest
      → get_message interpolate r ≡ ok (pre ++ b ∷ (name ++ v ++ rest))
      → get_message interpolate (filter interpolate r).1
        ≡ ok (scrub pre ++ b ∷ (name ++ stars ++ scrub rest))
  filter-hidden r pre name v rest b d n h c e =
      (filter-get_message r).1
      ∙ ap (λ (m : Result (List ℕ)). m >>= λ formatted. ok (scrub formatted)) e
      ∙ ap ok (scrub-fields pre name v rest b d n h c)

has_scrubbing-append : (fs : List Filter) → has_scrubbing (fs ++ scrubbing ∷ []) ≡ true
unfolding has_scrubbing is_scrubbing
has_scrubbing-append [] = refl
has_scrubbing-append (f ∷ fs) = ground (arith, has_scrubbing-append fs)

get_logger-has :
    (name : String) (filters : String → List Filter)
    → has_scrubbing (get_logger name filters name) ≡ true
unfolding get_logger
get_logger-has name filters = ground (arith, eq_iff name name, has_scrubbing-append (filters name))

get_logger_again :
    (name : String) (filters : String → List Filter) (other_name : String)
    → has_scrubbing (filters name) ≡ true
    → get_logger name filters other_name ≡ filters other_name
unfolding get_logger
get_logger_again name filters other_name h = ground arith

-- The logger has the filter, and asking for it again changes nothing.
pub get_logger-once :
    (name : String) (filters : String → List Filter)
    → (has_scrubbing (get_logger name filters name) ≡ true)
      × ((other_name : String)
          → get_logger name (get_logger name filters) other_name
            ≡ get_logger name filters other_name)
get_logger-once name filters =
    let has = get_logger-has name filters in
    (has, λ other_name. get_logger_again name (get_logger name filters) other_name has)
