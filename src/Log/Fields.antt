-- ===== src/Log/Fields.antt =====
-- The fields of a text: its parts between commas, ampersands and closing braces.
use funding_tool.Prelude.{
  ℕ, ◌≡◌, refl, sym, ap, subst, ◌∙◌, ◌⊎◌, inl, inr, true, false, none, List, [], ◌∷◌, ◌++◌, arith,
}
use funding_tool.Regex.{Pattern, match_at, sub}
use funding_tool.Regex.Needs.{Needs, Lacks, sub-Lacks}
use funding_tool.Regex.Parts.{Avoids, sub_from-append}
use funding_tool.Log.{
  ellipsis, stars, is_value, word, times, boundary, is_alnum, is_joint, is_quote, is_separator,
  is_space, fold_case, between, key_pattern, secret_pattern, signature_pattern, scrub,
}

-- A comma, an ampersand or a closing brace.
abbrev pub IsDelimiter : ℕ → Type 0
IsDelimiter b = (b ≡ b',') ⊎ (b ≡ b'&') ⊎ (b ≡ b'}')

-- No match of a pattern is empty, and none goes over the character.
pub record Stops (b : ℕ) (p : Pattern) : Type 0 where
  pub some_char : match_at p [] ≡ none
  pub groups : Avoids b p.groups
  pub tail : p.tail b ≡ false

Stops-append :
    (p : Pattern) (mark : List ℕ) (b : ℕ) (x y : List ℕ)
    → Stops b p
    → sub p mark (x ++ b ∷ y) ≡ sub p mark x ++ b ∷ sub p mark y
unfolding sub
Stops-append p mark b x y st =
    sub_from-append p mark b y st.some_char st.groups st.tail 0 x (omega arith)

abbrev StopsAll : ℕ → Type 0
StopsAll b = Stops b key_pattern × Stops b secret_pattern × Stops b signature_pattern

comma-Stops : StopsAll b','
unfolding key_pattern secret_pattern signature_pattern boundary word times match_at is_value
    is_alnum is_joint is_quote is_separator is_space fold_case between funding_tool.Regex.match
    funding_tool.Regex.match_many funding_tool.Regex.or_else
comma-Stops = (
  record { some_char = refl; groups = ground arith; tail = refl },
  record { some_char = refl; groups = ground arith; tail = refl },
  record { some_char = refl; groups = ground arith; tail = refl },
)

ampersand-Stops : StopsAll b'&'
unfolding key_pattern secret_pattern signature_pattern boundary word times match_at is_value
    is_alnum is_joint is_quote is_separator is_space fold_case between funding_tool.Regex.match
    funding_tool.Regex.match_many funding_tool.Regex.or_else
ampersand-Stops = (
  record { some_char = refl; groups = ground arith; tail = refl },
  record { some_char = refl; groups = ground arith; tail = refl },
  record { some_char = refl; groups = ground arith; tail = refl },
)

brace-Stops : StopsAll b'}'
unfolding key_pattern secret_pattern signature_pattern boundary word times match_at is_value
    is_alnum is_joint is_quote is_separator is_space fold_case between funding_tool.Regex.match
    funding_tool.Regex.match_many funding_tool.Regex.or_else
brace-Stops = (
  record { some_char = refl; groups = ground arith; tail = refl },
  record { some_char = refl; groups = ground arith; tail = refl },
  record { some_char = refl; groups = ground arith; tail = refl },
)

IsDelimiter-Stops : (b : ℕ) → IsDelimiter b → StopsAll b
IsDelimiter-Stops b (inl e) = subst StopsAll (sym e) comma-Stops
IsDelimiter-Stops b (inr (inl e)) = subst StopsAll (sym e) ampersand-Stops
IsDelimiter-Stops b (inr (inr e)) = subst StopsAll (sym e) brace-Stops

-- A text is scrubbed field by field.
pub scrub-append :
    (b : ℕ) → IsDelimiter b → (x y : List ℕ) → scrub (x ++ b ∷ y) ≡ scrub x ++ b ∷ scrub y
unfolding scrub
scrub-append b d x y =
    let (k, s, g) = IsDelimiter-Stops b d in
    let x' = sub key_pattern ellipsis x in
    let y' = sub key_pattern ellipsis y in
    let one = Stops-append key_pattern ellipsis b x y k in
    let two = Stops-append secret_pattern stars b x' y' s in
    ap (λ t. sub signature_pattern stars (sub secret_pattern stars t)) one
    ∙ ap (sub signature_pattern stars) two
    ∙ Stops-append signature_pattern stars b (sub secret_pattern stars x')
        (sub secret_pattern stars y') g

-- A text in front of others in which no name of a secret ends or is open.
pub record IsPlain (name : List ℕ) : Type 0 where
  pub key : (v : List ℕ) → sub key_pattern ellipsis (name ++ v) ≡ name ++ sub key_pattern ellipsis v
  pub secret :
      (v : List ℕ) → sub secret_pattern stars (name ++ v) ≡ name ++ sub secret_pattern stars v
  pub signature :
      (v : List ℕ) → sub signature_pattern stars (name ++ v) ≡ name ++ sub signature_pattern stars v

-- Every match has a separator.
patterns-Needs :
    Needs is_separator key_pattern.groups
    × Needs is_separator secret_pattern.groups
    × Needs is_separator signature_pattern.groups
unfolding key_pattern secret_pattern signature_pattern boundary
patterns-Needs =
    let sep = λ (c : ℕ) (h : is_separator c ≡ true). h in
    (
      inl (inr (inr (inr (inr (inl sep))))),
      inr (inr (inr (inr (inl sep)))),
      inr (inr (inr (inr (inl sep)))),
    )

-- A text without a separator stays as it is, behind a plain text too.
pub scrub-IsPlain :
    (name v : List ℕ) → IsPlain name → Lacks is_separator v → scrub (name ++ v) ≡ name ++ v
unfolding scrub
scrub-IsPlain name v plain l =
    let (k, s, g) = patterns-Needs in
    ap (λ t. sub signature_pattern stars (sub secret_pattern stars t))
      (plain.key v ∙ ap (◌++◌ name) (sub-Lacks is_separator key_pattern ellipsis v k l))
    ∙ ap (sub signature_pattern stars)
        (plain.secret v ∙ ap (◌++◌ name) (sub-Lacks is_separator secret_pattern stars v s l))
    ∙ plain.signature v
    ∙ ap (◌++◌ name) (sub-Lacks is_separator signature_pattern stars v g l)
