-- ===== src/Csrf.antt =====
-- web/csrf.py: the constructor of CsrfGuard, and verify. `parse` is urlparse of the standard library:
-- none where it raises a ValueError.
pub mod Accepts
use Prim.Native.Char.{Char, code}
use Prim.Native.String.{◌++◌}
use funding_tool.Prelude.{
  Bool, true, false, not, ◌&&◌, ◌||◌, ◌==◌, ltb, str_eq, if◌then◌else◌, String, Option, none, some,
  List, [], ◌∷◌,
}
use funding_tool.Errors.{Error, Result, ok, err, value_error, type_error}

pub record Url : Type 0 where
  pub scheme : String
  pub netloc : String
  pub path : String

pub record CsrfGuard : Type 0 where
  pub public_origin : String
  pub referer_prefix : String
  pub cookie_name : String
  pub header_name : String

pub record Request : Type 0 where
  pub cookie_token : Option String
  pub header_token : Option String
  pub origin : Option String
  pub referer : Option String

-- No exception, a CsrfError by its cause, or another exception.
pub data Verdict : Type 0 where
  accepted : Verdict
  missing_token token_mismatch bad_origin bad_referer : Verdict
  raises : Error → Verdict

-- bool(x) of an optional text, and the text where there is one.
unfoldable pub present : Option String → Bool
present none = false
present (some s) = not (str_eq s "")

unfoldable pub text : Option String → String
text none = ""
text (some s) = s

unfoldable pub is_text : Option String → String → Bool
is_text none t = false
is_text (some s) t = str_eq s t

unfoldable pub starts_with : String → String → Bool
starts_with String.[] s = true
starts_with (String.◌∷◌ c p) String.[] = false
starts_with (String.◌∷◌ c p) (String.◌∷◌ d s) = code c == code d && starts_with p s

-- A character in front of the first part of a split text.
unfoldable pub onto_first : Char → List String → List String
onto_first c [] = String.◌∷◌ c "" ∷ []
onto_first c (s ∷ ss) = String.◌∷◌ c s ∷ ss

-- path.split("/")
unfoldable pub split_slash : String → List String
split_slash String.[] = "" ∷ []
split_slash (String.◌∷◌ c s) =
    let rest = split_slash s in if code c == b'/' then "" ∷ rest else onto_first c rest

unfoldable pub has_text : String → List String → Bool
has_text t [] = false
has_text t (s ∷ ss) = str_eq s t || has_text t ss

unfoldable pub good_referer : Url → Url → Bool
good_referer ref expected =
    str_eq ref.scheme expected.scheme
    && str_eq ref.netloc expected.netloc
    && starts_with "/funding/" ref.path
    && not (has_text ".." (split_slash ref.path))

-- s.isascii()
unfoldable pub is_ascii : String → Bool
is_ascii String.[] = true
is_ascii (String.◌∷◌ c s) = ltb (code c) 128 && is_ascii s

-- The test of the two parsed addresses.
unfoldable pub referer_verdict : Option Url → Option Url → Verdict
referer_verdict none expected = raises value_error
referer_verdict (some ref) none = raises value_error
referer_verdict (some ref) (some expected) =
    if good_referer ref expected then accepted else bad_referer

-- verify, for a guard of this public origin. compare_digest raises a TypeError on a text that is not
-- ASCII.
unfoldable pub check : (String → Option Url) → String → Request → Verdict
check parse public_origin r =
    if not (present r.cookie_token && present r.header_token)
    then missing_token
    else if not (is_ascii (text r.cookie_token) && is_ascii (text r.header_token))
    then raises type_error
    else if not (str_eq (text r.cookie_token) (text r.header_token))
    then token_mismatch
    else if not (is_text r.origin public_origin)
    then bad_origin
    else if not (present r.referer)
    then bad_referer
    else referer_verdict (parse (text r.referer)) (parse public_origin)

-- s.rstrip("/")
unfoldable pub rstrip_slash : String → String
rstrip_slash String.[] = ""
rstrip_slash (String.◌∷◌ c s) =
    let rest = rstrip_slash s in if str_eq rest "" && code c == b'/' then "" else String.◌∷◌ c rest

-- The guard of an origin, from what urlparse makes of it.
unfoldable pub guard_for : String → Option Url → Result CsrfGuard
guard_for origin none = err value_error
guard_for origin (some parsed) =
    if not (str_eq parsed.scheme "https")
    then err value_error
    else if str_eq parsed.netloc ""
    then err value_error
    else if not (str_eq parsed.path "")
    then err value_error
    else ok (record {
      public_origin = origin;
      referer_prefix = origin ++ "/funding/";
      cookie_name = "funding_csrf";
      header_name = "X-Funding-Token";
    })

-- CsrfGuard(public_origin=...), with its names of the cookie and of the header.
unfoldable pub csrf_guard : (String → Option Url) → String → Result CsrfGuard
csrf_guard parse public_origin =
    guard_for (rstrip_slash public_origin) (parse (rstrip_slash public_origin))
