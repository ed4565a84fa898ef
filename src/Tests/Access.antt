-- ===== src/Tests/Access.antt =====
-- Requests with retries, and the lockout of an IP.
use funding_tool.Prelude.{
  false, ℕ, zero, suc, ◌≤◌, ◌≡◌, refl, Bool, String, Option, none, some, [], ◌∷◌, length, str_eq,
  arith,
}
use funding_tool.Errors.{ok, network_error}
use funding_tool.Http.{
  Attempt, transport_error, response, Response, missing, asks, server_asked, backoff, judge,
  classify, is_code, is_auth_code, is_rate_limit_code, body_of, pause_for, attempts, get_json,
}
use funding_tool.Http.Answers.{Ends}
use funding_tool.Http.Retries.{get_json-Ends}
use funding_tool.Auth.{
  Config, not_basic, decoded, refused, web_auth_locked, web_auth_required, Entries, IpState, find,
  or_fresh, verify, accepts, partition,
}
use funding_tool.Auth.Lockout.{verify-lockout, length-verify-le, after}

abbrev limited_once : Response ℕ
limited_once = record { status = 429; code = none; json = none; retry_after = asks 2000 }

abbrev net : ℕ → Attempt ℕ
net zero = transport_error
net (suc zero) = response limited_once
net _ = response (record { status = 200; code = none; json = some 7; retry_after = missing })

retried_run : get_json net 3 ≡ (ok 7, backoff 0 ∷ server_asked 2000 ∷ [])
unfolding get_json attempts judge classify is_auth_code is_rate_limit_code is_code body_of pause_for
retried_run = refl

get_json-Ends_example : Ends net 0 3 network_error (get_json net 3)
get_json-Ends_example = get_json-Ends net 3

abbrev pub config : Config
config = record { username = "admin"; lockout_max = 2; lockout_secs = 300; state_max = 10 }

abbrev pub checks : String → Option Bool
checks p = some (str_eq "secret" p)

abbrev pub locked_state : IpState
locked_state = record { failures = 2; locked_until = 400 }

abbrev pub locked_table : Entries
locked_table = ("10.0.0.1", locked_state) ∷ []

verify-lockout_example :
    ((verify checks config "10.0.0.1" not_basic 10 11
        (after checks config "10.0.0.1" ((not_basic, 5, 6) ∷ []) [])).0
      ≡ refused web_auth_required)
    × ((verify checks config "10.0.0.1"
          (decoded "admin:secret")
          200
          201
          (verify checks config "10.0.0.1" not_basic 10 11
            (after checks config "10.0.0.1" ((not_basic, 5, 6) ∷ []) [])).1).0
        ≡ refused web_auth_locked)
unfolding find or_fresh accepts
verify-lockout_example =
    verify-lockout checks config "10.0.0.1" ((not_basic, 5, 6) ∷ []) (not_basic, 10, 11) []
      (decoded "admin:secret") 200 201 (omega arith) (refl, refl) (refl, tt) refl refl (omega arith)

length-verify-le_example :
    length (verify checks config "10.0.0.2" not_basic 500 501 locked_table).1 ≤ 10
unfolding accepts
length-verify-le_example =
    length-verify-le checks config "10.0.0.2" not_basic 500 501 locked_table false refl
      (omega arith)

partition_example : partition "admin:se:cret" ≡ ("admin", "se:cret")
unfolding partition
partition_example = refl
