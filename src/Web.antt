-- ===== src/Web.antt =====
-- The web application: the answers of its routes as values, the dependencies that guard them
-- (web/dependencies.py), and the two exception handlers of web/main.py. The texts of messages are
-- left out.
pub mod AccountsApi
pub mod BacktestApi
pub mod Guards
pub mod HistoryApi
pub mod Ranges
pub mod Symbols
pub mod Startup
use funding_tool.Prelude.{
  ◌≡◌, ◌⊎◌, inl, inr, refl, ℕ, Bool, ◌&&◌, if◌then◌else◌, String, Option, none, some,
}
use funding_tool.Errors.{Error, Result, ok, err}
use funding_tool.Auth.{Config, Header, Entries, Answer, user, broken, refused, AuthCode, verify}
use funding_tool.Csrf.{Url, Request, Verdict, accepted, raises, check}
use funding_tool.WebErrors.{WebCode, WebError, map_core_exception}

-- The detail of an HTTPException: a code with a field, or a text.
pub data Detail : Type 0 where
  coded : WebCode → Option String → Detail
  plain_text : Detail

-- What a handler raises: an HTTPException, or any other exception.
pub data Failure : Type 0 where
  http : ℕ → Detail → Failure
  raised : Error → Failure

pub data Handled (A : Type 0) : Type 0 where
  returned : A → Handled A
  failed : Failure → Handled A

-- The end of asyncio.wait_for.
pub data Awaited (A : Type 0) : Type 0 where
  timed_out : Awaited A
  answered : Result A → Awaited A

-- What follows in a handler after a part that may raise.
unfoldable pub and_then : {A B : Type 0} → Handled A → (A → Handled B) → Handled B
and_then (returned a) next = next a
and_then (failed f) next = failed f

-- {"error": {"code": ..., "field": ...}} with its status.
pub record Envelope : Type 0 where
  pub status : ℕ
  pub code : WebCode
  pub field : Option String

pub data Response (A : Type 0) : Type 0 where
  success : A → Response A
  error : Envelope → Response A

-- _http_exc
unfoldable pub http_exc : ℕ → Detail → Envelope
http_exc status (coded code field) = record { status = status; code = code; field = field }
http_exc status plain_text = record { status = status; code = WebCode.server_error; field = none }

-- _unhandled
unfoldable pub unhandled : Error → Envelope
unhandled e =
    let web = map_core_exception e in
    record { status = web.http_status; code = web.code; field = none }

unfoldable pub envelope_of : Failure → Envelope
envelope_of (http status detail) = http_exc status detail
envelope_of (raised e) = unhandled e

unfoldable pub respond : {A : Type 0} → Handled A → Response A
respond (returned a) = success a
respond (failed f) = error (envelope_of f)

-- What require_auth makes of the answer of the verifier.
unfoldable pub auth_result : Answer → Handled String
auth_result (user name) = returned name
auth_result (broken e) = failed (raised e)
auth_result (refused AuthCode.web_auth_required) =
    failed (http 401 (coded WebCode.web_auth_required none))
auth_result (refused AuthCode.web_auth_locked) =
    failed (http 429 (coded WebCode.web_auth_locked none))

unfoldable pub require_auth :
    (String → Option Bool) → Config → String → Header → ℕ → ℕ → Entries → Handled String × Entries
require_auth checks c ip header now failed_at es =
    let (answer, es') = verify checks c ip header now failed_at es in (auth_result answer, es')

unfoldable pub csrf_result : Verdict → Handled (Unit {0})
csrf_result accepted = returned tt
csrf_result (raises e) = failed (raised e)
csrf_result _ = failed (http 403 (coded WebCode.csrf_mismatch none))

unfoldable pub require_csrf : (String → Option Url) → String → Request → Handled (Unit {0})
require_csrf parse public_origin r = csrf_result (check parse public_origin r)

-- A handler behind its dependencies, in their order: it runs, and changes its state, only if the
-- user is known and the request is one of the site's own.
unfoldable pub guarded :
    {A S : Type 0} → Handled String → Handled (Unit {0}) → (S → Handled A × S) → S → Handled A × S
guarded (failed f) csrf body s = (failed f, s)
guarded (returned name) (failed f) body s = (failed f, s)
guarded (returned name) (returned _) body s = body s

-- To split on how a handler ends and keep the equation.
pub Handled-cases :
    {A : Type 0} (m : Handled A) → ((a : A) × (m ≡ returned a)) ⊎ ((f : Failure) × (m ≡ failed f))
Handled-cases (returned a) = inl (a, refl)
Handled-cases (failed f) = inr (f, refl)
