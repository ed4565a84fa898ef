-- ===== src/Http.antt =====
-- infra/http.py: one GET with its retries. The network is a function from the number of the request
-- to what came back; the value of a JSON body is of any type.
pub mod Answers
pub mod Retries
use funding_tool.Prelude.{
  ℕ, zero, suc, ◌+◌, Bool, true, false, ◌&&◌, ◌||◌, ltb, leb, ◌==◌, if◌then◌else◌, Option, none,
  some, List, [], ◌∷◌,
}
use funding_tool.Prelude.Int.{ℤ, pos, negsuc}
use funding_tool.Errors.{
  Error, Result, ok, err, authentication_error, rate_limit_error, exchange_error, network_error,
  value_error,
}

-- The Retry-After header: missing or empty, not a number, or a number of milliseconds.
pub data RetryAfter : Type 0 where
  missing unreadable : RetryAfter
  asks : ℕ → RetryAfter

-- `code` is what `_extract_binance_code` finds; `json` is none for a body that is no JSON.
pub record Response (J : Type 0) : Type 0 where
  pub status : ℕ
  pub code : Option ℤ
  pub json : Option J
  pub retry_after : RetryAfter

pub data Attempt (J : Type 0) : Type 0 where
  transport_error : Attempt J
  response : Response J → Attempt J

-- The classes of last_exc.
pub data LastError : Type 0 where
  transport limited server : LastError

-- A pause: the server's own, or the base time doubled `attempt` times.
pub data Pause : Type 0 where
  server_asked : ℕ → Pause
  backoff : ℕ → Pause

pub data Verdict (J : Type 0) : Type 0 where
  settled : Result J → Verdict J
  again : LastError → RetryAfter → Verdict J

-- code == -(n + 1)
unfoldable pub is_code : Option ℤ → ℕ → Bool
is_code (some (negsuc m)) n = m == n
is_code (some (pos m)) n = false
is_code none n = false

-- _BINANCE_AUTH_CODES: -2014, -2015, -1022, -1099, -2008
unfoldable pub is_auth_code : Option ℤ → Bool
is_auth_code c =
    is_code c 2013 || is_code c 2014 || is_code c 1021 || is_code c 1098 || is_code c 2007

-- _BINANCE_RATE_LIMIT_CODE: -1003
unfoldable pub is_rate_limit_code : Option ℤ → Bool
is_rate_limit_code c = is_code c 1002

-- _sleep
unfoldable pub pause_for : ℕ → RetryAfter → Pause
pause_for attempt (asks ms) = server_asked ms
pause_for attempt missing = backoff attempt
pause_for attempt unreadable = backoff attempt

-- What is raised when the attempts are used up.
unfoldable pub give_up : Option LastError → Error
give_up (some limited) = rate_limit_error
give_up (some server) = exchange_error
give_up (some transport) = network_error
give_up none = network_error

module _ {J : Type 0} where
  -- resp.json(), which raises a ValueError on a body that is no JSON
  unfoldable pub body_of : Option J → Result J
  body_of none = err value_error
  body_of (some j) = ok j

  unfoldable pub classify : Response J → Verdict J
  classify r =
      if is_auth_code r.code || r.status == 401 || r.status == 403
      then settled (err authentication_error)
      else if is_rate_limit_code r.code || r.status == 429
      then again limited r.retry_after
      else if r.status == 418
      then settled (err exchange_error)
      else if leb 500 r.status && ltb r.status 600
      then again server missing
      else if leb 400 r.status
      then settled (err exchange_error)
      else settled (body_of r.json)

  unfoldable pub judge : Attempt J → Verdict J
  judge transport_error = again transport missing
  judge (response r) = classify r

  -- `rounds` attempts are left, of which the next is the request number `attempt`. The result comes
  -- with the pauses that were made.
  unfoldable pub attempts : (ℕ → Attempt J) → ℕ → ℕ → Option LastError → Result J × List Pause
  attempts net zero attempt last = (err (give_up last), [])
  attempts net (suc rounds) attempt last = elim (judge (net attempt)) [
    | settled r ↦ (r, [])
    | again e wait ↦
        let (r, pauses) = attempts net rounds (suc attempt) (some e) in
        (r, pause_for attempt wait ∷ pauses)
  ]

  -- `n` is retry_attempts, 3 by default.
  unfoldable pub get_json : (ℕ → Attempt J) → ℕ → Result J × List Pause
  get_json net n = attempts net n 0 none
