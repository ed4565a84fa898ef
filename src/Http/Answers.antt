-- ===== src/Http/Answers.antt =====
-- The classes of answers of a server, and how attempts may end.
use funding_tool.Prelude.{
  ℕ, zero, suc, ◌≤◌, ◌<◌, ◌≡◌, ◌⊎◌, ap, true, false, ◌||◌, ◌==◌, Option, none, some, List, [], ◌∷◌,
  arith,
}
use funding_tool.Prelude.Int.{ℤ, pos, negsuc}
use funding_tool.Errors.{
  Error, Result, ok, err, authentication_error, rate_limit_error, exchange_error, network_error,
  value_error,
}
use funding_tool.Http.{
  Attempt, transport_error, response, Response, missing, unreadable, asks, Pause, server_asked,
  backoff, is_code, is_auth_code, is_rate_limit_code,
}

-- The codes -2014, -2015, -1022, -1099 and -2008.
abbrev pub IsAuthCode : Option ℤ → Type 0
IsAuthCode c =
    (c ≡ some (negsuc 2013))
    ⊎ (c ≡ some (negsuc 2014))
    ⊎ (c ≡ some (negsuc 1021))
    ⊎ (c ≡ some (negsuc 1098))
    ⊎ (c ≡ some (negsuc 2007))

is_code_iff : (c : Option ℤ) (n : ℕ) → is_code c n ≡ true → c ≡ some (negsuc n)
unfolding is_code
is_code_iff (some (negsuc m)) n h = let e : m ≡ n = ground arith in ap (λ k. some (negsuc k)) e
is_code_iff (some (pos m)) n h = cc
is_code_iff none n h = cc

is_code_same : (c : Option ℤ) (n : ℕ) → c ≡ some (negsuc n) → is_code c n ≡ true
unfolding is_code
is_code_same c n h = rw h (ground arith)

module _ {J : Type 0} where
  -- An answer to a wrong key: one of these codes, or 401 or 403.
  abbrev pub IsUnauthorized : Response J → Type 0
  IsUnauthorized r = IsAuthCode r.code ⊎ (r.status ≡ 401) ⊎ (r.status ≡ 403)

  -- Too many requests: the code -1003, or 429.
  abbrev pub IsLimited : Response J → Type 0
  IsLimited r = (r.code ≡ some (negsuc 1002)) ⊎ (r.status ≡ 429)

  abbrev pub IsServerError : Response J → Type 0
  IsServerError r = (500 ≤ r.status) × (r.status < 600)

  -- The answers that end a request, and the result.
  pub data Settles (r : Response J) : Result J → Type 0 where
    unauthorized : IsUnauthorized r → Settles r (err authentication_error)
    refused :
        ¬ IsUnauthorized r
        → ¬ IsLimited r
        → ¬ IsServerError r
        → 400 ≤ r.status
        → Settles r (err exchange_error)
    answered :
        (j : J)
        → ¬ IsUnauthorized r
        → ¬ IsLimited r
        → r.status < 400
        → r.json ≡ some j
        → Settles r (ok j)
    garbled :
        ¬ IsUnauthorized r
        → ¬ IsLimited r
        → r.status < 400
        → r.json ≡ none
        → Settles r (err value_error)

  -- The attempts that are made again: the error if it was the last one, and the pause. A rate limit
  -- may ask for its own pause; otherwise the base time is doubled as often as there were attempts.
  pub data IsRetried (i : ℕ) : Attempt J → Error → Pause → Type 0 where
    lost : IsRetried i transport_error network_error (backoff i)
    told :
        (r : Response J) (ms : ℕ)
        → ¬ IsUnauthorized r
        → IsLimited r
        → r.retry_after ≡ asks ms
        → IsRetried i (response r) rate_limit_error (server_asked ms)
    untold :
        (r : Response J)
        → ¬ IsUnauthorized r
        → IsLimited r
        → (r.retry_after ≡ missing) ⊎ (r.retry_after ≡ unreadable)
        → IsRetried i (response r) rate_limit_error (backoff i)
    broken :
        (r : Response J)
        → ¬ IsUnauthorized r
        → ¬ IsLimited r
        → IsServerError r
        → IsRetried i (response r) exchange_error (backoff i)

  -- How the attempts from number `i` end, if `n` are left and `last` is the error so far: the first
  -- answer that settles the request gives the result, and if there is none, the last error does.
  pub data Ends (net : ℕ → Attempt J) : ℕ → ℕ → Error → Result J × List Pause → Type 0 where
    exhausted : (i : ℕ) (last : Error) → Ends net i zero last (err last, [])
    settles :
        (i n : ℕ) (last : Error) (r : Response J) (result : Result J)
        → net i ≡ response r
        → Settles r result
        → Ends net i (suc n) last (result, [])
    retries :
        (i n : ℕ) (last e : Error) (p : Pause) (result : Result J) (ps : List Pause)
        → IsRetried i (net i) e p
        → Ends net (suc i) n e (result, ps)
        → Ends net i (suc n) last (result, p ∷ ps)

  pub auth-true :
      (r : Response J)
      → (is_auth_code r.code || r.status == 401 || r.status == 403) ≡ true
      → IsUnauthorized r
  unfolding is_auth_code
  auth-true r h = ground (
    arith,
    is_code_iff r.code 2013,
    is_code_iff r.code 2014,
    is_code_iff r.code 1021,
    is_code_iff r.code 1098,
    is_code_iff r.code 2007,
  )

  pub auth-false :
      (r : Response J)
      → (is_auth_code r.code || r.status == 401 || r.status == 403) ≡ false
      → ¬ IsUnauthorized r
  unfolding is_auth_code
  auth-false r h u = ground (
    arith,
    is_code_same r.code 2013,
    is_code_same r.code 2014,
    is_code_same r.code 1021,
    is_code_same r.code 1098,
    is_code_same r.code 2007,
  )

  pub limit-true :
      (r : Response J) → (is_rate_limit_code r.code || r.status == 429) ≡ true → IsLimited r
  unfolding is_rate_limit_code
  limit-true r h = ground (arith, is_code_iff r.code 1002)

  pub limit-false :
      (r : Response J) → (is_rate_limit_code r.code || r.status == 429) ≡ false → ¬ IsLimited r
  unfolding is_rate_limit_code
  limit-false r h u = ground (arith, is_code_same r.code 1002)
