-- ===== src/Auth/Expiry.antt =====
-- The lock of an IP ends: what comes in while it lasts does not put it off.
use funding_tool.Prelude.{
  ℕ, ◌≤◌, ◌<◌, ◌≡◌, inl, inr, Bool, true, false, Bool-cases, ltb, str_eq, String, Option, none,
  some, [], ◌∷◌, ◌++◌, length, arith,
}
use funding_tool.Auth.{
  IpState, Entries, Config, Header, user, find, without, or_fresh, store_last, enter, drop_first,
  evict, record_failure, reset_entry, accepts, concluded, verify, fresh,
}
use funding_tool.Auth.Lockout.{verify-eq-user_iff}

module _ (ip : String) (u : ℕ) where
  -- Each entry of the IP is locked until `u` at most.
  unfoldable pub IsDue : Entries → Type 0
  IsDue [] = Unit
  IsDue ((j, s) ∷ es) = (str_eq j ip ≡ true → s.locked_until ≤ u) × IsDue es

  IsDue-find : (es : Entries) → IsDue es → (or_fresh (find ip es)).locked_until ≤ u
  unfolding IsDue find or_fresh
  IsDue-find [] h = omega arith
  IsDue-find ((j, s) ∷ es) h = ground (arith, h.0, IsDue-find es h.1)

  IsDue-without : (j : String) (es : Entries) → IsDue es → IsDue (without j es)
  unfolding IsDue without
  IsDue-without j [] h = tt
  IsDue-without j ((k, s) ∷ es) h = elim (Bool-cases (str_eq k j)) [
    | inl same ↦ rw same (IsDue-without j es h.1)
    | inr other ↦ rw other (h.0, IsDue-without j es h.1)
  ]

  IsDue-append :
      (es : Entries) (j : String) (s : IpState)
      → IsDue es
      → (str_eq j ip ≡ true → s.locked_until ≤ u)
      → IsDue (es ++ (j, s) ∷ [])
  unfolding IsDue
  IsDue-append [] j s h k = (k, tt)
  IsDue-append ((i, t) ∷ es) j s h k = (h.0, IsDue-append es j s h.1 k)

  IsDue-store_last :
      (j : String) (s : IpState) (es : Entries)
      → IsDue es
      → (str_eq j ip ≡ true → s.locked_until ≤ u)
      → IsDue (store_last j s es)
  unfolding store_last
  IsDue-store_last j s es h k = IsDue-append (without j es) j s (IsDue-without j es h) k

  IsDue-evict : (m : ℕ) (es : Entries) → IsDue es → IsDue (evict m es)
  unfolding evict drop_first IsDue
  IsDue-evict m [] h = elim (Bool-cases (ltb m 0)) [ inl e ↦ rw e tt | inr e ↦ rw e tt ]
  IsDue-evict m (e ∷ es) h = elim (Bool-cases (ltb m (length (e ∷ es)))) [
    | inl full ↦ rw full h.1
    | inr space ↦ rw space h
  ]

module _ (checks : String → Option Bool) (c : Config) (ip : String) where
  -- What comes in while the IP is locked: requests of other IPs, and its own, which find it locked.
  pub data Waits : Entries → Entries → Type 0 where
    nothing : (es : Entries) → Waits es es
    other :
        (es es' : Entries) (j : String) (header : Header) (now failed_at : ℕ)
        → Waits es es'
        → str_eq j ip ≡ false
        → Waits es (verify checks c j header now failed_at es').1
    own :
        (es es' : Entries) (header : Header) (now failed_at : ℕ)
        → Waits es es'
        → now < (or_fresh (find ip es')).locked_until
        → Waits es (verify checks c ip header now failed_at es').1

  IsDue-concluded :
      (u : ℕ) (j : String) (failed_at : ℕ) (accepted : Option Bool) (es : Entries)
      → str_eq j ip ≡ false
      → IsDue ip u es
      → IsDue ip u (concluded c j failed_at accepted es).1
  unfolding concluded reset_entry record_failure
  IsDue-concluded u j failed_at none es o h = h
  IsDue-concluded u j failed_at (some true) es o h =
      IsDue-evict ip u c.state_max _
        (IsDue-store_last ip u j fresh _ h (λ e. absurd (ground (arith, o, e))))
  IsDue-concluded u j failed_at (some false) es o h =
      IsDue-evict ip u c.state_max _
        (IsDue-store_last ip u j _ _ h (λ e. absurd (ground (arith, o, e))))

  IsDue-other :
      (u : ℕ) (j : String) (header : Header) (now failed_at : ℕ) (es : Entries)
      → str_eq j ip ≡ false
      → IsDue ip u es
      → IsDue ip u (verify checks c j header now failed_at es).1
  unfolding verify enter
  IsDue-other u j header now failed_at es o h =
      let skip : (n : ℕ) → str_eq j ip ≡ true → n ≤ u = λ n e. absurd (ground (arith, o, e)) in
      let entered = IsDue-store_last ip u j (or_fresh (find j es)) es h (skip _) in
      elim (Bool-cases (ltb now (or_fresh (find j es)).locked_until)) [
        | inl shut ↦ rw shut entered
        | inr unshut ↦
            rw unshut (IsDue-concluded u j failed_at (accepts checks c header) _ o entered)
      ]

  IsDue-own :
      (u : ℕ) (header : Header) (now failed_at : ℕ) (es : Entries)
      → now < (or_fresh (find ip es)).locked_until
      → IsDue ip u es
      → IsDue ip u (verify checks c ip header now failed_at es).1
  unfolding verify enter
  IsDue-own u header now failed_at es shut h =
      let locked : ltb now (or_fresh (find ip es)).locked_until ≡ true = ground arith in
      rw locked (IsDue-store_last ip u ip (or_fresh (find ip es)) es h (λ _. IsDue-find ip u es h))

  IsDue-Waits : (u : ℕ) (es es' : Entries) → Waits es es' → IsDue ip u es → IsDue ip u es'
  IsDue-Waits u _ _ (nothing es) h = h
  IsDue-Waits u _ _ (other es es' j header now failed_at w o) h =
      IsDue-other u j header now failed_at es' o (IsDue-Waits u es es' w h)
  IsDue-Waits u _ _ (own es es' header now failed_at w shut) h =
      IsDue-own u header now failed_at es' shut (IsDue-Waits u es es' w h)

  -- A lock ends: if each entry of an IP is locked until `u` at most, then after any requests of other
  -- IPs, and any of its own that are refused as locked, a request of it at `u` or later with the
  -- right name and password is answered with the user.
  pub verify-Waits :
      (u : ℕ) (es es' : Entries) (header : Header) (now failed_at : ℕ)
      → IsDue ip u es
      → Waits es es'
      → u ≤ now
      → accepts checks c header ≡ some true
      → (verify checks c ip header now failed_at es').0 ≡ user c.username
  verify-Waits u es es' header now failed_at h w late right =
      (verify-eq-user_iff checks c ip header now failed_at es').1
        (omega (arith, IsDue-find ip u es' (IsDue-Waits u es es' w h), late), right)
