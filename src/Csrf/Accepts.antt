-- ===== src/Csrf/Accepts.antt =====
-- Which requests the guard accepts.
use funding_tool.Prelude.{
  ◌≡◌, ◌≢◌, ◌↔◌, refl, ap, sym, ◌∙◌, true, false, eq_iff, String, Option, none, some, arith,
}
use funding_tool.Csrf.{
  Url, Request, accepted, present, text, is_text, starts_with, split_slash, has_text, good_referer,
  is_ascii, referer_verdict, check,
}

-- One token, of ASCII and not empty, in the cookie and in the header; the public origin; and a page of
-- the site under /funding/ that refers to the request, without a step up in its path. The addresses
-- of the page and of the origin can be parsed.
pub record IsOwn (parse : String → Option Url) (public_origin : String) (r : Request) : Type 0 where
  pub token : String
  pub page : String
  pub url : Url
  pub expected : Url
  pub not_empty : (token ≢ "") × (page ≢ "")
  pub tokens : (r.cookie_token ≡ some token) × (r.header_token ≡ some token)
  pub sources : (r.origin ≡ some public_origin) × (r.referer ≡ some page)
  pub ascii : is_ascii token ≡ true
  pub parsed : (parse page ≡ some url) × (parse public_origin ≡ some expected)
  pub site : (url.scheme ≡ expected.scheme) × (url.netloc ≡ expected.netloc)
  pub below : starts_with "/funding/" url.path ≡ true
  pub no_step_up : has_text ".." (split_slash url.path) ≡ false

is_text-some : (o : Option String) (s : String) → is_text o s ≡ true → o ≡ some s
unfolding is_text
is_text-some none s h = cc
is_text-some (some t) s h = ground (arith, eq_iff t s)

present-some : (o : Option String) → present o ≡ true → (o ≡ some (text o)) × (text o ≢ "")
unfolding present text
present-some none h = cc
present-some (some t) h = (refl, ground (arith, eq_iff t ""))

-- The tests of an accepted request, each on its own.
abbrev Passes : (String → Option Url) → String → Request → Type 0
Passes parse public_origin r =
    (present r.cookie_token ≡ true)
    × (present r.header_token ≡ true)
    × ((is_ascii (text r.cookie_token) ≡ true) × (is_ascii (text r.header_token) ≡ true))
    × (text r.cookie_token ≡ text r.header_token)
    × (is_text r.origin public_origin ≡ true)
    × (present r.referer ≡ true)
    × (referer_verdict (parse (text r.referer)) (parse public_origin) ≡ accepted)

check-Passes :
    (parse : String → Option Url) (public_origin : String) (r : Request)
    → check parse public_origin r ≡ accepted
    → Passes parse public_origin r
unfolding check
check-Passes parse public_origin r h = (
  ground arith,
  ground arith,
  (ground arith, ground arith),
  ground (arith, eq_iff (text r.cookie_token) (text r.header_token)),
  ground arith,
  ground arith,
  ground arith,
)

Passes-check :
    (parse : String → Option Url) (public_origin : String) (r : Request)
    → Passes parse public_origin r
    → check parse public_origin r ≡ accepted
unfolding check
Passes-check parse public_origin r (a, b, (i, j), c, d, e, f) =
    ground (arith, eq_iff (text r.cookie_token) (text r.header_token))

-- Two addresses that are parsed, and that pass the test.
abbrev AreParsed : Option Url → Option Url → Type 0
AreParsed o p = (u : Url) × (v : Url) × (o ≡ some u) × (p ≡ some v) × (good_referer u v ≡ true)

referer_verdict-AreParsed : (o p : Option Url) → referer_verdict o p ≡ accepted → AreParsed o p
unfolding referer_verdict
referer_verdict-AreParsed none p h = cc
referer_verdict-AreParsed (some u) none h = cc
referer_verdict-AreParsed (some u) (some v) h = (u, v, refl, refl, ground arith)

AreParsed-referer_verdict :
    (o p : Option Url) (u v : Url)
    → o ≡ some u
    → p ≡ some v
    → good_referer u v ≡ true
    → referer_verdict o p ≡ accepted
unfolding referer_verdict
AreParsed-referer_verdict o p u v e f g = rw (e, f) (rw g refl)

good_referer-parts :
    (u v : Url)
    → good_referer u v ≡ true
    → (u.scheme ≡ v.scheme)
      × (u.netloc ≡ v.netloc)
      × (starts_with "/funding/" u.path ≡ true)
      × (has_text ".." (split_slash u.path) ≡ false)
unfolding good_referer
good_referer-parts u v h = (
  ground (arith, eq_iff u.scheme v.scheme),
  ground (arith, eq_iff u.netloc v.netloc),
  ground arith,
  ground arith,
)

parts-good_referer :
    (u v : Url)
    → u.scheme ≡ v.scheme
    → u.netloc ≡ v.netloc
    → starts_with "/funding/" u.path ≡ true
    → has_text ".." (split_slash u.path) ≡ false
    → good_referer u v ≡ true
unfolding good_referer
parts-good_referer u v a b c d = ground (arith, eq_iff u.scheme v.scheme, eq_iff u.netloc v.netloc)

some-present : (s : String) → s ≢ "" → present (some s) ≡ true
unfolding present
some-present s h = ground (arith, eq_iff s "")

text-some : (o : Option String) (s : String) → o ≡ some s → text o ≡ s
unfolding text
text-some o s h = rw h refl

some-is_text : (s : String) → is_text (some s) s ≡ true
unfolding is_text
some-is_text s = ground (arith, eq_iff s s)

-- The guard accepts exactly the requests of its own pages: `IsOwn` says which these are.
pub check-accepted_iff :
    (parse : String → Option Url) (public_origin : String) (r : Request)
    → (check parse public_origin r ≡ accepted) ↔ IsOwn parse public_origin r
check-accepted_iff parse public_origin r = (own_of, accepted_of)
  where
    own_of : check parse public_origin r ≡ accepted → IsOwn parse public_origin r
    own_of h =
        let (a, b, (i, j), c, d, e, f) = check-Passes parse public_origin r h in
        let (u, v, u_parsed, v_parsed, good) = referer_verdict-AreParsed _ _ f in
        let (scheme, netloc, below, level) = good_referer-parts u v good in
        let cookie = present-some r.cookie_token a in
        let header = present-some r.header_token b in
        let referer = present-some r.referer e in
        record {
          token = text r.cookie_token;
          page = text r.referer;
          url = u;
          expected = v;
          ascii = i;
          parsed = (u_parsed, v_parsed);
          not_empty = (cookie.1, referer.1);
          tokens = (cookie.0, header.0 ∙ ap some (sym c));
          sources = (is_text-some r.origin public_origin d, referer.0);
          site = (scheme, netloc);
          below = below;
          no_step_up = level;
        }

    accepted_of : IsOwn parse public_origin r → check parse public_origin r ≡ accepted
    accepted_of own =
        let page = text-some r.referer own.page own.sources.1 in
        Passes-check parse public_origin r (
          ap present own.tokens.0 ∙ some-present own.token own.not_empty.0,
          ap present own.tokens.1 ∙ some-present own.token own.not_empty.0,
          (
            ap is_ascii (text-some r.cookie_token own.token own.tokens.0) ∙ own.ascii,
            ap is_ascii (text-some r.header_token own.token own.tokens.1) ∙ own.ascii,
          ),
          text-some r.cookie_token own.token own.tokens.0
              ∙ sym (text-some r.header_token own.token own.tokens.1),
          ap (λ o. is_text o public_origin) own.sources.0 ∙ some-is_text public_origin,
          ap present own.sources.1 ∙ some-present own.page own.not_empty.1,
          AreParsed-referer_verdict _ _ own.url own.expected (ap parse page ∙ own.parsed.0)
              own.parsed.1 (parts-good_referer _ _ own.site.0 own.site.1 own.below own.no_step_up),
        )
