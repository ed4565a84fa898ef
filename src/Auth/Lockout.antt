-- ===== src/Auth/Lockout.antt =====
-- The lockout of AuthVerifier.verify: when it begins, what it refuses, and the bound on the entries.
use funding_tool.Prelude.{
  ℕ, suc, ◌+◌, ◌≤◌, ◌<◌, ◌≡◌, ◌≢◌, ◌↔◌, inl, inr, refl, ap, ◌∙◌, Bool, true, false, Bool-cases, ltb,
  str_eq, eq_iff, if◌then◌else◌, String, Option, none, some, List, [], ◌∷◌, ◌++◌, length,
  length-append, All, arith,
}
use funding_tool.Auth.{
  IpState, Entries, Config, Header, user, refused, web_auth_locked, web_auth_required, find,
  without, or_fresh, store_last, enter, drop_first, evict, count_failure, record_failure,
  reset_entry, accepts, concluded, verify, fresh,
}
use funding_tool.Auth.Entries.{
  find-append, find-without, find-store_last, length-store_last-le, length-store_last_there,
  length-evict,
}

str_eq_refl : (s : String) → str_eq s s ≡ true
str_eq_refl s = ground (arith, eq_iff s s)

find-enter :
    (ip j : String) (es : Entries)
    → find j (enter ip es) ≡ (if str_eq ip j then some (or_fresh (find ip es)) else find j es)
unfolding enter
find-enter ip j es = find-store_last ip j (or_fresh (find ip es)) es

length-enter-le : (ip : String) (es : Entries) → length (enter ip es) ≤ length es + 1
unfolding enter
length-enter-le ip es = length-store_last-le ip (or_fresh (find ip es)) es

enter-there : (ip : String) (es : Entries) → find ip (enter ip es) ≢ none
enter-there ip es = ground (arith, find-enter ip ip es, str_eq_refl ip)

-- An entry that is in force is there.
locked-there :
    (ip : String) (es : Entries) (now : ℕ)
    → ltb now (or_fresh (find ip es)).locked_until ≡ true
    → find ip es ≢ none
unfolding or_fresh
locked-there ip es now h = ground arith

length-stored :
    (ip : String) (s : IpState) (es : Entries) (m : ℕ)
    → length es ≤ m
    → length (evict m (store_last ip s (enter ip es))) ≤ m
length-stored ip s es m h = length-evict m (store_last ip s (enter ip es)) (
    omega (
      arith,
      length-enter-le ip es,
      length-store_last_there ip s (enter ip es) (enter-there ip es),
    ))

-- No entry of the IP is in force at `now`.
abbrev pub IsOpen : String → ℕ → Entries → Type 0
IsOpen ip now es = (or_fresh (find ip es)).locked_until ≤ now

pub verify-refuses :
    (checks : String → Option Bool) (c : Config) (ip : String) (header : Header) (now failed_at : ℕ)
    (es : Entries)
    → IsOpen ip now es
    → accepts checks c header ≡ some false
    → verify checks c ip header now failed_at es
      ≡ (refused web_auth_required, record_failure c ip failed_at (enter ip es))
unfolding verify concluded
verify-refuses checks c ip header now failed_at es h r = ground arith

-- If there are at most `state_max` entries, and bcrypt answers where it is asked, there are at most
-- `state_max` after `verify`: a locked request adds no entry, and any other evicts the oldest one when
-- it adds one too many.
pub length-verify-le :
    (checks : String → Option Bool) (c : Config) (ip : String) (header : Header) (now failed_at : ℕ)
    (es : Entries) (b : Bool)
    → accepts checks c header ≡ some b
    → length es ≤ c.state_max
    → length (verify checks c ip header now failed_at es).1 ≤ c.state_max
unfolding verify concluded record_failure reset_entry enter
length-verify-le checks c ip header now failed_at es b answers h =
    elim (Bool-cases (ltb now (or_fresh (find ip es)).locked_until)) [
      | inl locked ↦
          let bound =
            length-store_last_there ip (or_fresh (find ip es)) es (locked-there ip es now locked) in
          rw locked (omega (arith, bound))
      | inr unlocked ↦ elim (Bool-cases b) [
        | inl right ↦
            rw (unlocked, answers ∙ ap some right) (length-stored ip fresh es c.state_max h)
        | inr wrong ↦
            rw (unlocked, answers ∙ ap some wrong)
              (length-stored ip (count_failure c failed_at (or_fresh (find ip (enter ip es)))) es
                c.state_max h)
      ]
    ]

-- While the lock of an IP is in force, `verify` refuses every header of it as locked, the right
-- password included, and leaves what is known of each IP as it is.
pub verify-locked :
    (checks : String → Option Bool) (c : Config) (ip : String) (header : Header) (now failed_at : ℕ)
    (es : Entries) (s : IpState)
    → find ip es ≡ some s
    → now < s.locked_until
    → ((verify checks c ip header now failed_at es).0 ≡ refused web_auth_locked)
      × ((j : String) → find j (verify checks c ip header now failed_at es).1 ≡ find j es)
unfolding verify or_fresh
verify-locked checks c ip header now failed_at es s there locked =
    (ground arith, λ j. ground (arith, find-enter ip j es, eq_iff ip j))

-- `verify` answers with the configured user just when the IP is not locked and the header carries
-- the configured name and a password that passes the check.
pub verify-eq-user_iff :
    (checks : String → Option Bool) (c : Config) (ip : String) (header : Header) (now failed_at : ℕ)
    (es : Entries)
    → ((verify checks c ip header now failed_at es).0 ≡ user c.username)
      ↔ (IsOpen ip now es × (accepts checks c header ≡ some true))
unfolding verify concluded
verify-eq-user_iff checks c ip header now failed_at es = ground arith

find-drop_first :
    (ip : String) (s : IpState) (es : Entries)
    → find ip es ≡ none
    → 1 ≤ length es
    → find ip (drop_first (es ++ (ip, s) ∷ [])) ≡ some s
unfolding find drop_first
find-drop_first ip s [] a h = ground arith
find-drop_first ip s ((k, t) ∷ es) a h = ground (arith, str_eq_refl ip, find-append ip es ip s)

-- The evicted entry is not the last one.
find-evict :
    (m : ℕ) (ip : String) (s : IpState) (es : Entries)
    → 1 ≤ m
    → find ip (evict m (store_last ip s es)) ≡ some s
unfolding evict drop_first store_last find
find-evict m ip s es h = elim (Bool-cases (ltb m (length (store_last ip s es)))) [
  | inl full ↦ rw full (
      find-drop_first ip s (without ip es) (ground (arith, find-without ip ip es, str_eq_refl ip))
        (ground (arith, length-append (without ip es) ((ip, s) ∷ []))))
  | inr space ↦ rw space (ground (arith, find-store_last ip ip s es, str_eq_refl ip))
]

module _ (checks : String → Option Bool) (c : Config) (ip : String) where
  -- One request of the IP: its header, and the two readings of the clock.
  abbrev pub Try : Type 0
  Try = Header × ℕ × ℕ

  abbrev pub IsRejected : Try → Type 0
  IsRejected t = accepts checks c t.0 ≡ some false

  -- The entries after a number of requests.
  abbrev pub after : List Try → Entries → Entries
  after [] es = es
  after (t ∷ ts) es = after ts (verify checks c ip t.0 t.1 t.2 es).1

  -- A request that is refused for its header counts, and locks the IP if it is the last one allowed.
  find-verify_refused :
      (t : Try) (es : Entries)
      → 1 ≤ c.state_max
      → IsOpen ip t.1 es
      → IsRejected t
      → find ip (verify checks c ip t.0 t.1 t.2 es).1
        ≡ some (count_failure c t.2 (or_fresh (find ip es)))
  unfolding record_failure or_fresh
  find-verify_refused t es m h r = rw (verify-refuses checks c ip t.0 t.1 t.2 es h r) (
      rw
        (
          find-evict c.state_max ip (count_failure c t.2 (or_fresh (find ip (enter ip es))))
              (enter ip es) m,
          find-enter ip ip es,
          str_eq_refl ip,
        )
        refl)

  -- After this many failures the IP is not locked yet.
  abbrev pub IsCounting : ℕ → Entries → Type 0
  IsCounting n es =
      ((or_fresh (find ip es)).failures ≡ n) × ((or_fresh (find ip es)).locked_until ≡ 0)

  after-IsCounting :
      (ts : List Try) (n : ℕ) (es : Entries)
      → 1 ≤ c.state_max
      → All IsRejected ts
      → n + length ts < c.lockout_max
      → IsCounting n es
      → IsCounting (n + length ts) (after ts es)
  unfolding count_failure or_fresh
  after-IsCounting [] n es m rs lt h = (omega (arith, h.0), h.1)
  after-IsCounting (t ∷ ts) n es m (r, rs) lt h =
      let here = find-verify_refused t es m (omega (arith, h.1)) r in
      let rest =
        after-IsCounting ts (suc n) (verify checks c ip t.0 t.1 t.2 es).1 m rs (ground arith)
          (ground arith) in
      (rest.0 ∙ omega arith, rest.1)

  -- If `lockout_max` requests of an IP that has no entry in force and no failures follow each other,
  -- without one of another IP between them, and are rejected for their headers, the last of them is
  -- still answered as missing its authorization, and the next request, if it is of this IP and within
  -- `lockout_secs` of that failure, is refused as locked, whatever its header; at least one entry
  -- must fit the table.
  pub verify-lockout :
      (ts : List Try) (t : Try) (es : Entries) (header : Header) (now failed_at : ℕ)
      → 1 ≤ c.state_max
      → IsCounting 0 es
      → All IsRejected ts
      → IsRejected t
      → length ts + 1 ≡ c.lockout_max
      → now < t.2 + c.lockout_secs
      → let before = after ts es in
        let there = verify checks c ip t.0 t.1 t.2 before in
        (there.0 ≡ refused web_auth_required)
        × ((verify checks c ip header now failed_at there.1).0 ≡ refused web_auth_locked)
  unfolding count_failure or_fresh
  verify-lockout ts t es header now failed_at m h rs r len soon =
      let counted = after-IsCounting ts 0 es m rs (omega arith) h in
      let unlocked : IsOpen ip t.1 (after ts es) = omega (arith, counted.1) in
      let stored = find-verify_refused t (after ts es) m unlocked r in
      (
        ap (λ p. p.0) (verify-refuses checks c ip t.0 t.1 t.2 (after ts es) unlocked r),
        (verify-locked checks c ip header now failed_at
            (verify checks c ip t.0 t.1 t.2 (after ts es)).1
            (count_failure c t.2 (or_fresh (find ip (after ts es)))) stored (ground arith)).0,
      )
