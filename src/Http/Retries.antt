-- ===== src/Http/Retries.antt =====
-- get_json against the classes of answers: which settle a request, and which are retried, after what
-- pause.
use funding_tool.Prelude.{
  ℕ, zero, suc, ◌<◌, ◌≡◌, inl, inr, refl, subst, ◌&&◌, ◌||◌, Bool-cases, ltb, leb, ◌==◌, Option,
  none, some, arith,
}
use funding_tool.Errors.{rate_limit_error, network_error}
use funding_tool.Http.{
  Attempt, transport_error, response, Response, LastError, RetryAfter, missing, unreadable, asks,
  Verdict, settled, again, is_auth_code, is_rate_limit_code, body_of, classify, judge, pause_for,
  give_up, attempts, get_json,
}
use funding_tool.Http.Answers.{
  IsUnauthorized, IsLimited, Settles, unauthorized, refused, answered, garbled, IsRetried, lost,
  told, untold, broken, Ends, exhausted, settles, retries, auth-true, auth-false, limit-true,
  limit-false,
}

module _ {J : Type 0} where
  -- What a verdict has to be right about.
  abbrev IsRight : ℕ → Attempt J → Verdict J → Type 0
  IsRight i a (settled result) = (r : Response J) × (a ≡ response r) × Settles r result
  IsRight i a (again e w) = IsRetried i a (give_up (some e)) (pause_for i w)

  limited-IsRight :
      (i : ℕ) (r : Response J) (w : RetryAfter)
      → ¬ IsUnauthorized r
      → IsLimited r
      → r.retry_after ≡ w
      → IsRetried i (response r) rate_limit_error (pause_for i w)
  unfolding pause_for
  limited-IsRight i r (asks ms) u l e = told r ms u l e
  limited-IsRight i r missing u l e = untold r u l (inl e)
  limited-IsRight i r unreadable u l e = untold r u l (inr e)

  body_of-Settles :
      (r : Response J) (json : Option J)
      → ¬ IsUnauthorized r
      → ¬ IsLimited r
      → r.status < 400
      → r.json ≡ json
      → Settles r (body_of json)
  unfolding body_of
  body_of-Settles r none u l s e = garbled u l s e
  body_of-Settles r (some j) u l s e = answered j u l s e

  classify-IsRight : (i : ℕ) (r : Response J) → IsRight i (response r) (classify r)
  unfolding classify give_up pause_for
  classify-IsRight i r =
      elim (Bool-cases (is_auth_code r.code || r.status == 401 || r.status == 403)) [
        | inl wrong ↦ rw wrong (r, refl, unauthorized (auth-true r wrong))
        | inr right ↦
            let u = auth-false r right in
            elim (Bool-cases (is_rate_limit_code r.code || r.status == 429)) [
              | inl many ↦
                  rw (right, many) (limited-IsRight i r r.retry_after u (limit-true r many) refl)
              | inr few ↦
                  let l = limit-false r few in
                  elim (Bool-cases (r.status == 418)) [
                    | inl ban ↦
                        rw (right, few, ban)
                          (r, refl, refused u l (λ s. ground arith) (ground arith))
                    | inr other ↦ elim (Bool-cases (leb 500 r.status && ltb r.status 600)) [
                      | inl down ↦
                          rw (right, few, other, down) (broken r u l (ground arith, ground arith))
                      | inr up ↦ elim (Bool-cases (leb 400 r.status)) [
                        | inl bad ↦
                            rw (right, few, other, up, bad)
                              (r, refl, refused u l (λ s. ground arith) (ground arith))
                        | inr fine ↦
                            rw (right, few, other, up, fine)
                              (r, refl, body_of-Settles r r.json u l (ground arith) refl)
                      ]
                    ]
                  ]
            ]
      ]

  judge-IsRight : (i : ℕ) (a : Attempt J) → IsRight i a (judge a)
  unfolding judge give_up pause_for
  judge-IsRight i transport_error = lost
  judge-IsRight i (response r) = classify-IsRight i r

  -- One round, by its verdict; the rest is that of the rounds behind it.
  round-Ends :
      (net : ℕ → Attempt J) (n i : ℕ) (last : Option LastError) (v : Verdict J)
      → judge (net i) ≡ v
      → ((x : LastError) → Ends net (suc i) n (give_up (some x)) (attempts net n (suc i) (some x)))
      → Ends net i (suc n) (give_up last) (attempts net (suc n) i last)
  unfolding attempts
  round-Ends net n i last (settled result) e rest =
      let (r, same, s) = subst (IsRight i (net i)) e (judge-IsRight i (net i)) in
      rw (e, attempts) (settles i n (give_up last) r result same s)
  round-Ends net n i last (again x w) e rest =
      let right = subst (IsRight i (net i)) e (judge-IsRight i (net i)) in
      rw (e, attempts)
        (retries i n (give_up last) (give_up (some x)) (pause_for i w) _ _ right (rest x))

  attempts-Ends :
      (net : ℕ → Attempt J) (n i : ℕ) (last : Option LastError)
      → Ends net i n (give_up last) (attempts net n i last)
  unfolding attempts
  attempts-Ends net zero i last = exhausted i (give_up last)
  attempts-Ends net (suc n) i last =
      round-Ends net n i last (judge (net i)) refl (λ x. attempts-Ends net n (suc i) (some x))

  -- get_json ends after at most `n` attempts. Its result is that of the first answer that settles the
  -- request, by its code and status: an AuthenticationError for a wrong key, an ExchangeError for any
  -- other refusal, and otherwise the body. Lost requests, rate limits and server errors before it are
  -- made again, after the pause that a rate limit asks for, or a doubled one; if all are, the error is
  -- that of the last one.
  pub get_json-Ends : (net : ℕ → Attempt J) (n : ℕ) → Ends net 0 n network_error (get_json net n)
  unfolding get_json give_up
  get_json-Ends net n = attempts-Ends net n 0 none
