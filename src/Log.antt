-- ===== src/Log.antt =====
-- infra/log.py: _scrub, ScrubbingFilter and get_logger.
pub mod Fields
pub mod Messages
pub mod Secrets
use funding_tool.Prelude.{
  ℕ, ◌+◌, Bool, true, false, not, ◌&&◌, ◌||◌, leb, ◌==◌, str_eq, if◌then◌else◌, String, Option,
  none, some, List, [], ◌∷◌, ◌++◌, length,
}
use funding_tool.Errors.{Result, ok, err}
use funding_tool.Text.{codes}
use funding_tool.Regex.{Regex, one, opt, many, seq, alt, empty, Pattern, sub}

unfoldable pub between : ℕ → ℕ → ℕ → Bool
between a b c = leb a c && leb c b

-- \s in a pattern of text: str.isspace
unfoldable pub is_space : ℕ → Bool
unfolding between
is_space c =
    between 9 13 c
    || between 28 32 c
    || c == 133
    || c == 160
    || c == 5760
    || between 8192 8202 c
    || c == 8232
    || c == 8233
    || c == 8239
    || c == 8287
    || c == 12288

-- The letter that a character stands for under IGNORECASE: those of ASCII, and four others that have
-- one of them for their lower or upper case.
unfoldable pub fold_case : ℕ → ℕ
unfolding between
fold_case c =
    if between b'A' b'Z' c
    then c + 32
    else if c == 304 || c == 305
    then b'i'
    else if c == 383
    then b's'
    else if c == 8490
    then b'k'
    else c

abbrev pub is_letter : ℕ → ℕ → Bool
unfolding fold_case
is_letter w c = fold_case c == w

-- [A-Za-z0-9]
unfoldable pub is_alnum : ℕ → Bool
unfolding between fold_case
is_alnum c = between b'a' b'z' (fold_case c) || between b'0' b'9' c

-- ['\"]
unfoldable pub is_quote : ℕ → Bool
is_quote c = c == b'\'' || c == b'"'

-- [=:]
unfoldable pub is_separator : ℕ → Bool
is_separator c = c == b'=' || c == b':'

-- [_-]
unfoldable pub is_joint : ℕ → Bool
is_joint c = c == b'_' || c == b'-'

-- [^\s,&'\"}]
unfoldable pub is_value : ℕ → Bool
unfolding is_space is_quote
is_value c = not (is_space c || c == b',' || c == b'&' || is_quote c || c == b'}')

unfoldable pub word : List ℕ → Regex
word [] = empty
word (w ∷ ws) = seq (one (is_letter w)) (word ws)

-- A name in quotes or not, the separator, and the quote before the value.
unfoldable pub boundary : Regex → Regex
boundary name = seq (opt is_quote) (
    seq name (
      seq (opt is_quote)
        (seq (many is_space) (seq (one is_separator) (seq (many is_space) (opt is_quote))))))

unfoldable pub times : ℕ → Regex → Regex
times Prim.Native.Nat.zero r = empty
times (Prim.Native.Nat.suc n) r = seq r (times n r)

unfoldable pub key_pattern : Pattern
key_pattern = record {
  groups =
      seq
        (boundary (
          alt (word (codes "x-mbx-apikey"))
            (seq (word (codes "api")) (seq (opt is_joint) (word (codes "key"))))))
        (times 6 (one is_alnum));
  tail = is_value;
}

unfoldable pub secret_pattern : Pattern
secret_pattern = record {
  groups = boundary (seq (word (codes "api")) (seq (opt is_joint) (word (codes "secret"))));
  tail = is_value;
}

unfoldable pub signature_pattern : Pattern
signature_pattern = record { groups = boundary (word (codes "signature")); tail = is_value }

abbrev pub ellipsis : List ℕ
ellipsis = 8230 ∷ []

abbrev pub stars : List ℕ
stars = codes "***"

-- _scrub
unfoldable pub scrub : List ℕ → List ℕ
scrub text = sub signature_pattern stars (sub secret_pattern stars (sub key_pattern ellipsis text))

unfoldable pub same_text : List ℕ → List ℕ → Bool
same_text [] [] = true
same_text [] (d ∷ t) = false
same_text (c ∷ s) [] = false
same_text (c ∷ s) (d ∷ t) = c == d && same_text s t

-- A record of logging, with arguments of any kind.
pub record LogRecord (Arg : Type 0) : Type 0 where
  pub msg : List ℕ
  pub args : List Arg

-- `interpolate` is msg % args, which may raise.
module _ {Arg : Type 0} (interpolate : List ℕ → List Arg → Result (List ℕ)) where
  -- LogRecord.getMessage
  unfoldable pub get_message : LogRecord Arg → Result (List ℕ)
  get_message r = elim r.args [ [] ↦ ok r.msg | x ∷ xs ↦ interpolate r.msg (x ∷ xs) ]

  unfoldable pub rewritten : LogRecord Arg → List ℕ → LogRecord Arg
  rewritten r formatted =
      let scrubbed = scrub formatted in
      if not (same_text scrubbed formatted) then record { msg = scrubbed; args = [] } else r

  unfoldable pub filtered : LogRecord Arg → Result (List ℕ) → LogRecord Arg
  filtered r (err e) = r
  filtered r (ok formatted) = rewritten r formatted

  -- ScrubbingFilter.filter: what it returns, and the record.
  unfoldable pub filter : LogRecord Arg → Bool × LogRecord Arg
  filter r = (true, filtered r (get_message r))

-- A filter of a logger: a ScrubbingFilter, or one of another class.
pub data Filter : Type 0 where
  scrubbing other : Filter

unfoldable pub is_scrubbing : Filter → Bool
is_scrubbing scrubbing = true
is_scrubbing other = false

unfoldable pub has_scrubbing : List Filter → Bool
has_scrubbing [] = false
has_scrubbing (f ∷ fs) = is_scrubbing f || has_scrubbing fs

-- get_logger: the filters of each logger, by its name.
unfoldable pub get_logger : String → (String → List Filter) → String → List Filter
get_logger name filters other_name =
    if str_eq name other_name && not (has_scrubbing (filters name))
    then filters name ++ scrubbing ∷ []
    else filters other_name
