-- ===== src/Auth.antt =====
-- web/auth.py: HTTP Basic Auth with a lockout for each IP. Times are readings of the monotonic clock
-- in whole seconds. `checks` is bcrypt's test of a password against the stored hash: none where it
-- raises a ValueError, as for a password of more than 72 bytes.
pub mod Entries
pub mod Expiry
pub mod Lockout
use Prim.Native.Char.{code}
use funding_tool.Prelude.{
  ℕ, suc, ◌+◌, Bool, true, false, ◌&&◌, ◌||◌, ltb, leb, ◌==◌, str_eq, if◌then◌else◌, String, Option,
  none, some, List, [], ◌∷◌, ◌++◌, length,
}
use funding_tool.Errors.{Error, Result, ok, err, value_error}
use funding_tool.Csrf.{starts_with}

pub record IpState : Type 0 where
  pub failures : ℕ
  pub locked_until : ℕ

abbrev pub fresh : IpState
fresh = record { failures = 0; locked_until = 0 }

-- The OrderedDict, its oldest entry first.
abbrev pub Entries : Type 0
Entries = List (String × IpState)

pub record Config : Type 0 where
  pub username : String
  pub lockout_max : ℕ
  pub lockout_secs : ℕ
  pub state_max : ℕ

-- The check of AuthVerifier(password_hash=...): the mark of a hash of bcrypt.
unfoldable pub check_password_hash : String → Result (Unit {0})
check_password_hash h =
    if starts_with "$2a$" h || starts_with "$2b$" h || starts_with "$2x$" h || starts_with "$2y$" h
    then ok tt
    else err value_error

-- The Authorization header: not of the Basic scheme or missing, not decodable, or the decoded text.
pub data Header : Type 0 where
  not_basic undecodable : Header
  decoded : String → Header

pub data AuthCode : Type 0 where
  web_auth_required web_auth_locked : AuthCode

-- The user, an exception of bcrypt, or an AuthError.
pub data Answer : Type 0 where
  user : String → Answer
  broken : Error → Answer
  refused : AuthCode → Answer

unfoldable pub find : String → Entries → Option IpState
find ip [] = none
find ip ((j, s) ∷ es) = if str_eq j ip then some s else find ip es

unfoldable pub without : String → Entries → Entries
without ip [] = []
without ip ((j, s) ∷ es) = let rest = without ip es in if str_eq j ip then rest else (j, s) ∷ rest

unfoldable pub or_fresh : Option IpState → IpState
or_fresh none = fresh
or_fresh (some s) = s

-- self._state[ip] = s, and move_to_end(ip)
unfoldable pub store_last : String → IpState → Entries → Entries
store_last ip s es = without ip es ++ (ip, s) ∷ []

-- setdefault(ip, _IpState()), and move_to_end(ip)
unfoldable pub enter : String → Entries → Entries
enter ip es = store_last ip (or_fresh (find ip es)) es

-- popitem(last=False) if there are too many entries
unfoldable pub drop_first : Entries → Entries
drop_first [] = []
drop_first (e ∷ es) = es

unfoldable pub evict : ℕ → Entries → Entries
evict state_max es = if ltb state_max (length es) then drop_first es else es

unfoldable pub count_failure : Config → ℕ → IpState → IpState
count_failure c now s =
    let n = s.failures + 1 in
    record {
      failures = n;
      locked_until = if leb c.lockout_max n then now + c.lockout_secs else s.locked_until;
    }

unfoldable pub record_failure : Config → String → ℕ → Entries → Entries
record_failure c ip now es =
    evict c.state_max (store_last ip (count_failure c now (or_fresh (find ip es))) es)

unfoldable pub reset_entry : Config → String → Entries → Entries
reset_entry c ip es = evict c.state_max (store_last ip fresh es)

-- reset
unfoldable pub reset : String → Entries → Entries
reset ip es = without ip es

-- decoded.partition(":"): what stands before the first colon, and behind it.
unfoldable pub partition : String → String × String
partition String.[] = ("", "")
partition (String.◌∷◌ ch s) =
    let (before, behind) = partition s in
    if code ch == b':' then ("", s) else (String.◌∷◌ ch before, behind)

-- user_ok and pw_ok, where checkpw answers
unfoldable pub both_ok : Bool → Option Bool → Option Bool
both_ok user_ok none = none
both_ok user_ok (some pw_ok) = some (user_ok && pw_ok)

unfoldable pub accepts : (String → Option Bool) → Config → Header → Option Bool
accepts checks c not_basic = some false
accepts checks c undecodable = some false
accepts checks c (decoded text) =
    let (name, password) = partition text in both_ok (str_eq name c.username) (checks password)

-- What follows the tests of the header: an exception of bcrypt leaves the entry of the IP.
unfoldable pub concluded : Config → String → ℕ → Option Bool → Entries → Answer × Entries
concluded c ip failed_at none es = (broken value_error, es)
concluded c ip failed_at (some true) es = (user c.username, reset_entry c ip es)
concluded c ip failed_at (some false) es =
    (refused web_auth_required, record_failure c ip failed_at es)

-- verify: the answer and the entries after it. `now` is the first reading of the clock, and
-- `failed_at` the one that a failure makes.
unfoldable pub verify :
    (String → Option Bool) → Config → String → Header → ℕ → ℕ → Entries → Answer × Entries
verify checks c ip header now failed_at es =
    if ltb now (or_fresh (find ip es)).locked_until
    then (refused web_auth_locked, enter ip es)
    else concluded c ip failed_at (accepts checks c header) (enter ip es)
