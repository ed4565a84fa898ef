-- ===== src/Log/Secrets.antt =====
-- The value of a field that holds a secret.
use funding_tool.Prelude.{
  ℕ, suc, ◌-◌, ◌+◌, ◌≡◌, refl, sym, ap, ◌∙◌, ◌⊎◌, inl, inr, true, false, none, some, List, [], ◌∷◌,
  ◌++◌, length, length-append, All, arith,
}
use mathlib.Core.List.{append-nil}
use funding_tool.Regex.{
  seq, many, opt, Pattern, match_at, sub, sub_from, match, match_many, or_else, finish, count_while,
}
use funding_tool.Regex.Parts.{sub_from-All, sub_from-some, sub_from_all}
use funding_tool.Log.Fields.{IsDelimiter, scrub-append}
use funding_tool.Text.{codes}
use funding_tool.Log.{
  ellipsis, stars, is_value, word, times, boundary, is_alnum, is_joint, is_quote, is_separator,
  is_space, fold_case, between, key_pattern, secret_pattern, signature_pattern, scrub,
}

-- The characters of a value that is dropped.
abbrev pub IsValue : List ℕ → Type 0
IsValue v = All (λ c. is_value c ≡ true) v

key_in_signature :
    (v : List ℕ)
    → sub key_pattern ellipsis (codes "signature=" ++ v)
      ≡ codes "signature=" ++ sub key_pattern ellipsis v
unfolding sub sub_from key_pattern boundary word times match_at is_value is_alnum is_joint is_quote
    is_separator is_space fold_case between match match_many or_else
key_in_signature v = refl

secret_in_signature :
    (v : List ℕ)
    → sub secret_pattern stars (codes "signature=" ++ v)
      ≡ codes "signature=" ++ sub secret_pattern stars v
unfolding sub sub_from secret_pattern boundary word times match_at is_value is_alnum is_joint
    is_quote is_separator is_space fold_case between match match_many or_else
secret_in_signature v = refl

key_in_secret :
    (v : List ℕ)
    → sub key_pattern ellipsis (codes "api_secret=" ++ v)
      ≡ codes "api_secret=" ++ sub key_pattern ellipsis v
unfolding sub sub_from key_pattern boundary word times match_at is_value is_alnum is_joint is_quote
    is_separator is_space fold_case between match match_many or_else
key_in_secret v = refl

value_plain : (c : ℕ) → is_value c ≡ true → (is_space c ≡ false) × (is_quote c ≡ false)
unfolding is_value
value_plain c h = ground arith

count_while_all : (v : List ℕ) → IsValue v → count_while is_value v ≡ length v
unfolding count_while
count_while_all [] h = refl
count_while_all (c ∷ v) h = rw (h.0) (ap suc (count_while_all v h.1))

-- Behind the separator of a field: no space and no quote, and the whole value is dropped.
after_separator :
    (acc v : List ℕ)
    → IsValue v
    → match (seq (many is_space) (opt is_quote)) (finish is_value) acc v ≡ some (acc, length v)
unfolding match match_many or_else finish
after_separator acc [] h = unfold count_while in refl
after_separator acc (c ∷ v) h =
    let (space, quote) = value_plain c h.0 in
    rw space (rw quote (rw (count_while_all (c ∷ v) h) refl))

match_signature :
    (v : List ℕ)
    → IsValue v
    → match_at signature_pattern (codes "signature=" ++ v) ≡ some (codes "signature=", length v)
unfolding signature_pattern boundary word match_at is_quote is_separator is_space fold_case between
    match match_many or_else
match_signature v h = after_separator (codes "signature=") v h

match_secret :
    (v : List ℕ)
    → IsValue v
    → match_at secret_pattern (codes "api_secret=" ++ v) ≡ some (codes "api_secret=", length v)
unfolding secret_pattern is_joint boundary word match_at is_quote is_separator is_space fold_case
    between match match_many or_else
match_secret v h = ap (λ o. or_else o none) (after_separator (codes "api_secret=") v h)

-- A text that is one match is its groups with the mark.
one_match :
    (p : Pattern) (mark : List ℕ) (c : ℕ) (name v : List ℕ)
    → match_at p (c ∷ name ++ v) ≡ some (c ∷ name, length v)
    → sub p mark (c ∷ name ++ v) ≡ c ∷ name ++ mark
unfolding sub
one_match p mark c name v e =
    sub_from-some p mark c (name ++ v) (c ∷ name) (length v) e
    ∙ ap (λ t. c ∷ name ++ mark ++ t)
        (sub_from_all p mark (length (c ∷ name) + length v - 1) (name ++ v)
          (omega (arith, length-append name v)))
    ∙ append-nil (c ∷ name ++ mark)

key-IsValue : (v : List ℕ) → IsValue v → IsValue (sub key_pattern ellipsis v)
unfolding sub
key-IsValue v h =
    sub_from-All (λ c. is_value c ≡ true) key_pattern ellipsis
      (unfold is_value is_space is_quote between in (refl, tt)) 0 v h

secret-IsValue : (v : List ℕ) → IsValue v → IsValue (sub secret_pattern stars v)
unfolding sub
secret-IsValue v h =
    sub_from-All (λ c. is_value c ≡ true) secret_pattern stars
      (unfold is_value is_space is_quote between in (refl, (refl, (refl, tt)))) 0 v h

-- The names of the fields that are hidden.
abbrev pub IsHidden : List ℕ → Type 0
IsHidden name = (name ≡ codes "signature=") ⊎ (name ≡ codes "api_secret=")

pub scrub-signature :
    (v : List ℕ) → IsValue v → scrub (codes "signature=" ++ v) ≡ codes "signature=***"
unfolding scrub
scrub-signature v h =
    let k = sub key_pattern ellipsis v in
    let s = sub secret_pattern stars k in
    ap (λ t. sub signature_pattern stars (sub secret_pattern stars t)) (key_in_signature v)
    ∙ ap (sub signature_pattern stars) (secret_in_signature k)
    ∙ one_match signature_pattern stars b's' (codes "ignature=") s
        (match_signature s (secret-IsValue k (key-IsValue v h)))

secret_scrubbed : sub signature_pattern stars (codes "api_secret=***") ≡ codes "api_secret=***"
unfolding sub sub_from signature_pattern boundary word match_at is_value is_quote is_separator
    is_space fold_case between match match_many or_else
secret_scrubbed = refl

pub scrub-secret :
    (v : List ℕ) → IsValue v → scrub (codes "api_secret=" ++ v) ≡ codes "api_secret=***"
unfolding scrub
scrub-secret v h =
    let k = sub key_pattern ellipsis v in
    ap (λ t. sub signature_pattern stars (sub secret_pattern stars t)) (key_in_secret v)
    ∙ ap (sub signature_pattern stars) (
        one_match secret_pattern stars b'a' (codes "pi_secret=") k
          (match_secret k (key-IsValue v h)))
    ∙ secret_scrubbed

-- A hidden field with its value.
scrub-hidden : (name v : List ℕ) → IsHidden name → IsValue v → scrub (name ++ v) ≡ name ++ stars
scrub-hidden name v (inl e) h = rw e (scrub-signature v h)
scrub-hidden name v (inr e) h = rw e (scrub-secret v h)

-- What follows the value of a field: nothing, or a delimiter.
abbrev pub IsClosed : List ℕ → Type 0
IsClosed [] = Unit
IsClosed (b ∷ s) = IsDelimiter b

scrub-field :
    (name v rest : List ℕ)
    → IsHidden name
    → IsValue v
    → IsClosed rest
    → scrub (name ++ v ++ rest) ≡ name ++ stars ++ scrub rest
scrub-field name v [] n h d =
    ap scrub (append-nil (name ++ v))
    ∙ scrub-hidden name v n h
    ∙ sym (append-nil (name ++ stars))
    ∙ ap (◌++◌ (name ++ stars)) (unfold scrub sub sub_from in refl)
scrub-field name v (b ∷ s) n h d =
    scrub-append b d (name ++ v) s
    ∙ ap (λ t. t ++ b ∷ scrub s) (scrub-hidden name v n h)
    ∙ ap (◌++◌ (name ++ stars)) (sym (scrub-append b d [] s ∙ unfold scrub sub sub_from in refl))

-- A hidden field anywhere between delimiters.
pub scrub-fields :
    (pre name v rest : List ℕ) (b : ℕ)
    → IsDelimiter b
    → IsHidden name
    → IsValue v
    → IsClosed rest
    → scrub (pre ++ b ∷ (name ++ v ++ rest)) ≡ scrub pre ++ b ∷ (name ++ stars ++ scrub rest)
scrub-fields pre name v rest b d n h c =
    scrub-append b d pre (name ++ v ++ rest)
    ∙ ap (λ t. scrub pre ++ b ∷ t) (scrub-field name v rest n h c)
