-- ===== src/Web/Guards.antt =====
-- A request that changes state, from its client to its answer: extract_client_ip of web/auth.py, the
-- dependencies require_auth and require_csrf, and the handler behind them. `strip` is str.strip.
use funding_tool.Prelude.{
  ℕ, ◌<◌, ◌≡◌, ◌≢◌, ◌⊎◌, inl, inr, refl, ap, sym, Bool, true, false, ◌||◌, Bool-cases, ltb, str_eq,
  if◌then◌else◌, String, Option, none, some, arith,
}
use funding_tool.Auth.{
  Config, Header, Entries, web_auth_required, web_auth_locked, user, broken, refused, verify,
  concluded, accepts, or_fresh, find,
}
use funding_tool.Auth.Lockout.{IsOpen, verify-eq-user_iff}
use funding_tool.Csrf.{
  Url, Request, Verdict, accepted, missing_token, token_mismatch, bad_origin, bad_referer, raises,
  is_ascii, referer_verdict, check,
}
use funding_tool.Csrf
use funding_tool.Csrf.Accepts.{IsOwn, check-accepted_iff}
use funding_tool.WebErrors.{WebCode, map_core_exception}
use funding_tool.Errors.{Error, value_error, type_error}
use funding_tool.Web.{
  Handled, Response, Envelope, error, http_exc, envelope_of, unhandled, respond, auth_result,
  require_auth, csrf_result, require_csrf, guarded,
}

unfoldable pub is_loopback : String → Bool
is_loopback ip = str_eq ip "127.0.0.1" || str_eq ip "::1"

unfoldable pub peer_of : Option String → String
peer_of none = "0.0.0.0"
peer_of (some host) = host

unfoldable pub extract_client_ip : (String → String) → Option String → Option String → String
extract_client_ip strip client x_real_ip =
    let peer = peer_of client in
    if is_loopback peer
    then (if Csrf.present x_real_ip then strip (Csrf.text x_real_ip) else peer)
    else peer

-- What the dependencies read of a request.
pub record Incoming : Type 0 where
  pub client : Option String
  pub x_real_ip : Option String
  pub authorization : Header
  pub csrf : Request

abbrev error_of : Error → Verdict → Error
error_of other (raises x) = x
error_of other _ = other

accepted-cases : (o : Option Bool) → (o ≡ some true) ⊎ (o ≡ none) ⊎ (o ≡ some false)
accepted-cases none = inr (inl refl)
accepted-cases (some true) = inl refl
accepted-cases (some false) = inr (inr refl)

server_error_of :
    (x : Error)
    → (x ≡ type_error) ⊎ (x ≡ value_error)
    → unhandled x ≡ record { status = 500; code = WebCode.server_error; field = none }
unfolding unhandled map_core_exception
server_error_of x (inl e) = rw e refl
server_error_of x (inr e) = rw e refl

module _ (checks : String → Option Bool) (c : Config) (strip : String → String)
    (parse : String → Option Url) (public_origin : String) where
  unfoldable pub ip_of : Incoming → String
  ip_of r = extract_client_ip strip r.client r.x_real_ip

  -- The answer, the entries of the verifier, and the state of the handler.
  unfoldable pub serve :
      {A S : Type 0}
      → Incoming
      → ℕ
      → ℕ
      → (S → Handled A × S)
      → Entries
      → S
      → Response A × Entries × S
  serve r now failed_at body es s =
      let (auth, es') = require_auth checks c (ip_of r) r.authorization now failed_at es in
      let (m, s') = guarded auth (require_csrf parse public_origin r.csrf) body s in
      (respond m, es', s')

  -- The request of a user whose address is not locked, from a page of the site.
  pub record IsTrusted (r : Incoming) (now : ℕ) (es : Entries) : Type 0 where
    pub unlocked : IsOpen (ip_of r) now es
    pub known : accepts checks c r.authorization ≡ some true
    pub own : IsOwn parse public_origin r.csrf

  -- What CsrfGuard.verify cannot test: tokens of which one is not ASCII, or an address of the referring
  -- page, or of the site, that cannot be parsed.
  pub data IsUnreadable (r : Request) : Type 0 where
    not_ascii :
        (is_ascii (Csrf.text r.cookie_token) ≡ false)
          ⊎ (is_ascii (Csrf.text r.header_token) ≡ false)
        → IsUnreadable r
    not_parsed :
        (parse (Csrf.text r.referer) ≡ none) ⊎ (parse public_origin ≡ none) → IsUnreadable r

  -- Why a request is denied, and with what answer.
  pub data IsDenial (r : Incoming) (now : ℕ) (es : Entries) : Envelope → Type 0 where
    locked :
        now < (or_fresh (find (ip_of r) es)).locked_until
        → IsDenial r now es (record { status = 429; code = WebCode.web_auth_locked; field = none })
    unknown :
        IsOpen (ip_of r) now es
        → accepts checks c r.authorization ≡ some false
        → IsDenial r now es
            (record { status = 401; code = WebCode.web_auth_required; field = none })
    untested :
        IsOpen (ip_of r) now es
        → accepts checks c r.authorization ≡ none
        → IsDenial r now es (record { status = 500; code = WebCode.server_error; field = none })
    unreadable :
        ¬ IsOwn parse public_origin r.csrf
        → IsUnreadable r.csrf
        → IsDenial r now es (record { status = 500; code = WebCode.server_error; field = none })
    foreign :
        ¬ IsOwn parse public_origin r.csrf
        → IsDenial r now es (record { status = 403; code = WebCode.csrf_mismatch; field = none })

  verify-cases :
      (ip : String) (header : Header) (now failed_at : ℕ) (es : Entries)
      → ((verify checks c ip header now failed_at es).0 ≡ user c.username)
        ⊎ ((now < (or_fresh (find ip es)).locked_until)
            × ((verify checks c ip header now failed_at es).0 ≡ refused web_auth_locked))
        ⊎ (IsOpen ip now es
            × (accepts checks c header ≡ none)
            × ((verify checks c ip header now failed_at es).0 ≡ broken value_error))
        ⊎ (IsOpen ip now es
            × (accepts checks c header ≡ some false)
            × ((verify checks c ip header now failed_at es).0 ≡ refused web_auth_required))
  unfolding verify concluded
  verify-cases ip header now failed_at es =
      elim (Bool-cases (ltb now (or_fresh (find ip es)).locked_until)) [
        | inl shut ↦ inr (inl (ground arith, rw shut refl))
        | inr unshut ↦ elim (accepted-cases (accepts checks c header)) [
          | inl right ↦ inl (rw (unshut, right) refl)
          | inr (inl unasked) ↦ inr (inr (inl (ground arith, unasked, rw (unshut, unasked) refl)))
          | inr (inr wrong) ↦ inr (inr (inr (ground arith, wrong, rw (unshut, wrong) refl)))
        ]
      ]

  denied :
      (v : Verdict)
      → (v ≡ accepted)
        ⊎ ((v ≢ accepted) × (csrf_result v ≡ csrf_result missing_token))
        ⊎ ((v ≢ accepted) × ((e : Error) × (v ≡ raises e)))
  unfolding csrf_result
  denied accepted = inl refl
  denied missing_token = inr (inl (λ e. cc, refl))
  denied token_mismatch = inr (inl (λ e. cc, refl))
  denied bad_origin = inr (inl (λ e. cc, refl))
  denied bad_referer = inr (inl (λ e. cc, refl))
  denied (raises x) = inr (inr (λ e. cc, (x, refl)))

  -- An exception of the guard: its class, and what it comes from.
  referer_verdict-raises :
      (o p : Option Url) (x : Error)
      → referer_verdict o p ≡ raises x
      → (x ≡ value_error) × ((o ≡ none) ⊎ (p ≡ none))
  unfolding referer_verdict
  referer_verdict-raises none p x e = (sym (ap (error_of x) e), inl refl)
  referer_verdict-raises (some u) none x e = (sym (ap (error_of x) e), inr refl)
  referer_verdict-raises (some u) (some v) x e = absurd (ground arith)

  -- An exception of the guard becomes a server error.
  check-raises :
      (r : Request) (x : Error)
      → check parse public_origin r ≡ raises x
      → IsUnreadable r × ((x ≡ type_error) ⊎ (x ≡ value_error))
  unfolding check
  check-raises r x e = elim (Bool-cases (is_ascii (Csrf.text r.cookie_token))) [
    | inr bad ↦ (not_ascii (inl bad), inl (ground arith))
    | inl good ↦ elim (Bool-cases (is_ascii (Csrf.text r.header_token))) [
      | inr bad ↦ (not_ascii (inr bad), inl (ground arith))
      | inl also ↦
          let (class, source) =
            referer_verdict-raises (parse (Csrf.text r.referer)) (parse public_origin) x
              (ground arith) in
          (not_parsed source, inr class)
    ]
  ]

  -- A handler that changes state runs exactly for the requests that are trusted: then its answer and
  -- its state are those of the body. Any other request is denied: 429 while its address is locked,
  -- 401 for a header that is not accepted, 403 if it does not come from a page of the site, and 500
  -- where bcrypt, the test of the tokens or the parser of addresses raises; the state is then as it
  -- was.
  pub serve-cases :
      {A S : Type 0} (r : Incoming) (now failed_at : ℕ) (body : S → Handled A × S) (es : Entries)
      (s : S)
      → (IsTrusted r now es
          × ((serve r now failed_at body es s).0 ≡ respond (body s).0)
          × ((serve r now failed_at body es s).2 ≡ (body s).1))
        ⊎ (¬ IsTrusted r now es
            × ((e : Envelope) × IsDenial r now es e
                × ((serve r now failed_at body es s).0 ≡ error e))
            × ((serve r now failed_at body es s).2 ≡ s))
  unfolding serve require_auth require_csrf guarded auth_result csrf_result respond envelope_of
      http_exc unhandled map_core_exception
  serve-cases r now failed_at body es s =
      let user_iff = verify-eq-user_iff checks c (ip_of r) r.authorization now failed_at es in
      let own_iff = check-accepted_iff parse public_origin r.csrf in
      elim (verify-cases (ip_of r) r.authorization now failed_at es) [
        | inr (inl (shut, e)) ↦
            inr (λ t. omega (arith, t.unlocked, shut), (_, locked shut, rw e refl), rw e refl)
        | inr (inr (inl (unshut, unasked, e))) ↦ inr (
          λ t. ground (arith, t.known, unasked),
          (_, untested unshut unasked, rw e refl),
          rw e refl,
        )
        | inr (inr (inr (unshut, wrong, e))) ↦
            inr
              (λ t. ground (arith, t.known, wrong), (_, unknown unshut wrong, rw e refl), rw e refl)
        | inl e ↦ elim (denied (check parse public_origin r.csrf)) [
          | inl f ↦ inl (
            record { unlocked = (user_iff.0 e).0; known = (user_iff.0 e).1; own = own_iff.0 f },
            rw (e, f) refl,
            rw (e, f) refl,
          )
          | inr (inr (f, (x, g))) ↦
              let (unread, class) = check-raises r.csrf x g in
              let answered = server_error_of x class in
              inr (
                λ t. f (own_iff.1 t.own),
                (_, unreadable (λ o. f (own_iff.1 o)) unread, rw (e, g) (rw answered refl)),
                rw (e, g) refl,
              )
          | inr (inl (f, g)) ↦ inr (
            λ t. f (own_iff.1 t.own),
            (_, foreign (λ o. f (own_iff.1 o)), rw (e, g) refl),
            rw (e, g) refl,
          )
        ]
      ]
