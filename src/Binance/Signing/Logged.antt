-- ===== src/Binance/Signing/Logged.antt =====
-- What the scrubber of logs leaves of the URL of a signed request.
use funding_tool.Prelude.{
  ℕ, ◌/◌, ◌%◌, ◌<◌, ◌≡◌, refl, sym, ap, ap₂, ◌∙◌, Bool, true, false, Bool-cases, ◌==◌, inl, inr,
  List, [], ◌∷◌, ◌++◌, All, Option, none, some, arith,
}
use funding_tool.Text.{codes, str_of}
use funding_tool.Log.{is_value, is_separator, between, is_space, is_quote, scrub}
use mathlib.Core.List.{append_assoc, append-nil}
use funding_tool.Log.Fields.{IsPlain, scrub-IsPlain, scrub-append}
use funding_tool.Log.Secrets.{IsValue, scrub-signature}
use funding_tool.Regex.Needs.{Lacks}
use funding_tool.Binance.Signing.{
  hex_digit, hexdigest, is_unreserved, quote_byte, quote_bytes, quote_plus, field, more_fields,
  urlencode, encode, symbol_param, income_params, account_params, sign_query, signed_url,
  income_url, balance_url, restrictions_url,
}

hex_digit-value : (d : ℕ) → d < 16 → is_value (hex_digit b'a' d) ≡ true
unfolding hex_digit is_value is_space is_quote between
hex_digit-value d h = ground arith

hexdigest-IsValue : (bs : List ℕ) → IsValue (hexdigest bs)
unfolding hexdigest
hexdigest-IsValue [] = tt
hexdigest-IsValue (b ∷ bs) = (
  hex_digit-value (b / 16 % 16) (omega arith),
  (hex_digit-value (b % 16) (omega arith), hexdigest-IsValue bs),
)

hex_digit-Lacks : (d : ℕ) → d < 16 → is_separator (hex_digit b'A' d) ≡ false
unfolding hex_digit is_separator
hex_digit-Lacks d h = ground arith

quote_byte-Lacks : (c : ℕ) → Lacks is_separator (quote_byte c)
unfolding quote_byte
quote_byte-Lacks c = elim (Bool-cases (is_unreserved c)) [
  | inl u ↦ rw u (unfold is_separator is_unreserved between in ground arith, tt)
  | inr u ↦ rw u (elim (Bool-cases (c == 32)) [
    | inl space ↦ rw space (unfold is_separator in refl, tt)
    | inr other ↦ rw other (
      unfold is_separator in refl,
      (hex_digit-Lacks (c / 16 % 16) (omega arith), (hex_digit-Lacks (c % 16) (omega arith), tt)),
    )
  ])
]

Lacks-append : (q : ℕ → Bool) (s t : List ℕ) → Lacks q s → Lacks q t → Lacks q (s ++ t)
Lacks-append q [] t h k = k
Lacks-append q (c ∷ s) t h k = (h.0, Lacks-append q s t h.1 k)

quote_bytes-Lacks : (s : List ℕ) → Lacks is_separator (quote_bytes s)
unfolding quote_bytes
quote_bytes-Lacks [] = tt
quote_bytes-Lacks (c ∷ s) =
    Lacks-append is_separator (quote_byte c) (quote_bytes s) (quote_byte-Lacks c)
      (quote_bytes-Lacks s)

-- The name of a field, with its equality sign.
abbrev named : List ℕ → List ℕ
named name = quote_plus name ++ b'=' ∷ []

scrub-field :
    (path name value : List ℕ)
    → IsPlain (path ++ named name)
    → scrub (path ++ field (name, value)) ≡ path ++ field (name, value)
unfolding field quote_plus
scrub-field path name value plain =
    let assoc =
      ap (◌++◌ path) (sym (append_assoc (quote_plus name) (b'=' ∷ []) (quote_plus value)))
      ∙ sym (append_assoc path (named name) (quote_plus value)) in
    ap scrub assoc
    ∙ scrub-IsPlain (path ++ named name) (quote_plus value) plain (quote_bytes-Lacks (encode value))
    ∙ sym assoc

abbrev ArePlain : List (List ℕ × List ℕ) → Type 0
ArePlain fs = All (λ f. IsPlain (named f.0)) fs

scrub-more_fields :
    (x : List ℕ) (fs : List (List ℕ × List ℕ))
    → ArePlain fs
    → scrub (x ++ more_fields fs) ≡ scrub x ++ more_fields fs
unfolding more_fields
scrub-more_fields x [] h = ap scrub (append-nil x) ∙ sym (append-nil (scrub x))
scrub-more_fields x (f ∷ fs) h =
    scrub-append b'&' (inr (inl refl)) x (field f ++ more_fields fs)
    ∙ ap (λ t. scrub x ++ b'&' ∷ t)
        (scrub-more_fields (field f) fs h.1
          ∙ ap (λ t. t ++ more_fields fs) (scrub-field [] f.0 f.1 h.0))

regroup :
    (path f m z : List ℕ) → path ++ b'?' ∷ ((f ++ m) ++ z) ≡ ((path ++ b'?' ∷ []) ++ f ++ m) ++ z
regroup path f m z = simp append_assoc

-- The names of the fields, the first one behind its path.
names-IsPlain :
    IsPlain (codes "/fapi/v1/income?" ++ named (codes "incomeType"))
    × IsPlain (codes "/fapi/v3/balance?" ++ named (codes "timestamp"))
    × IsPlain (codes "/sapi/v1/account/apiRestrictions?" ++ named (codes "timestamp"))
    × ArePlain (income_params (some []) 0 0 0)
unfolding quote_plus quote_bytes quote_byte encode funding_tool.Binance.Signing.utf8 is_unreserved
    between funding_tool.Regex.sub funding_tool.Regex.sub_from funding_tool.Regex.match_at
    funding_tool.Regex.match funding_tool.Regex.match_many funding_tool.Regex.or_else
    funding_tool.Log.key_pattern funding_tool.Log.secret_pattern funding_tool.Log.signature_pattern
    funding_tool.Log.boundary funding_tool.Log.word funding_tool.Log.times is_quote is_separator
    is_space funding_tool.Log.is_joint funding_tool.Log.is_alnum funding_tool.Log.fold_case is_value
    income_params symbol_param
names-IsPlain = (
  record { key = λ v. refl; secret = λ v. refl; signature = λ v. refl },
  record { key = λ v. refl; secret = λ v. refl; signature = λ v. refl },
  record { key = λ v. refl; secret = λ v. refl; signature = λ v. refl },
  (
    record { key = λ v. refl; secret = λ v. refl; signature = λ v. refl },
    (
      record { key = λ v. refl; secret = λ v. refl; signature = λ v. refl },
      (
        record { key = λ v. refl; secret = λ v. refl; signature = λ v. refl },
        (
          record { key = λ v. refl; secret = λ v. refl; signature = λ v. refl },
          (
            record { key = λ v. refl; secret = λ v. refl; signature = λ v. refl },
            (
              record { key = λ v. refl; secret = λ v. refl; signature = λ v. refl },
              (record { key = λ v. refl; secret = λ v. refl; signature = λ v. refl }, tt),
            ),
          ),
        ),
      ),
    ),
  ),
)

-- The fields behind the first one, whatever their values.
rest-ArePlain :
    (symbol : Option (List ℕ)) (cursor end ts : ℕ)
    → ArePlain (
        (codes "startTime", str_of cursor)
        ∷ (codes "endTime", str_of end)
        ∷ (codes "limit", codes "1000")
        ∷ (codes "timestamp", str_of ts)
        ∷ (codes "recvWindow", codes "5000")
        ∷ symbol_param symbol)
unfolding income_params symbol_param
rest-ArePlain none cursor end ts =
    let names = names-IsPlain.3.1 in
    (names.0, (names.1.0, (names.1.1.0, (names.1.1.1.0, (names.1.1.1.1.0, tt)))))
rest-ArePlain (some s) cursor end ts = names-IsPlain.3.1

module _ (hmac : List ℕ → List ℕ → List ℕ) (secret : List ℕ) where
  scrub-sent :
      (query : List ℕ)
      → scrub (codes "signature=" ++ sign_query hmac secret query) ≡ codes "signature=***"
  unfolding sign_query
  scrub-sent query = scrub-signature _ (hexdigest-IsValue (hmac (encode secret) (encode query)))

  scrub-signed_url :
      (path name value : List ℕ) (fs : List (List ℕ × List ℕ))
      → IsPlain ((path ++ b'?' ∷ []) ++ named name)
      → ArePlain fs
      → scrub (signed_url hmac path secret ((name, value) ∷ fs))
        ≡ path ++ b'?' ∷ (urlencode ((name, value) ∷ fs) ++ b'&' ∷ codes "signature=***")
  unfolding signed_url urlencode
  scrub-signed_url path name value fs first others =
      let f = field (name, value) in
      let m = more_fields fs in
      let sent = codes "signature=" ++ sign_query hmac secret (f ++ m) in
      let start = (path ++ b'?' ∷ []) ++ f in
      ap scrub (regroup path f m (b'&' ∷ sent))
      ∙ scrub-append b'&' (inr (inl refl)) (start ++ m) sent
      ∙ ap₂ (λ (s t : List ℕ). s ++ b'&' ∷ t)
          (scrub-more_fields start fs others
            ∙ ap (λ t. t ++ m) (scrub-field (path ++ b'?' ∷ []) name value first))
          (scrub-sent (f ++ m))
      ∙ sym (regroup path f m (b'&' ∷ codes "signature=***"))

  -- The URL of a signed request is logged as it is but for the signature, of which three stars are
  -- left: a request for income with any window, timestamp and symbol, and the two requests that
  -- verify credentials.
  pub scrub-signed_urls :
      (symbol : Option (List ℕ)) (cursor end ts : ℕ)
      → (scrub (income_url hmac secret symbol cursor end ts)
          ≡ codes "/fapi/v1/income?"
            ++ urlencode (income_params symbol cursor end ts)
            ++ codes "&signature=***")
        × (scrub (balance_url hmac secret ts)
            ≡ codes "/fapi/v3/balance?" ++ urlencode (account_params ts) ++ codes "&signature=***")
        × (scrub (restrictions_url hmac secret ts)
            ≡ codes "/sapi/v1/account/apiRestrictions?"
              ++ urlencode (account_params ts)
              ++ codes "&signature=***")
  unfolding income_url balance_url restrictions_url income_params account_params
  scrub-signed_urls symbol cursor end ts =
      let (income, balance, restrictions, names) = names-IsPlain in
      let window = names.1.1.1.1.1.0 in
      (
        scrub-signed_url (codes "/fapi/v1/income") _ _ _ income
            (rest-ArePlain symbol cursor end ts),
        scrub-signed_url (codes "/fapi/v3/balance") _ _ _ balance (window, tt),
        scrub-signed_url (codes "/sapi/v1/account/apiRestrictions") _ _ _ restrictions (window, tt),
      )
