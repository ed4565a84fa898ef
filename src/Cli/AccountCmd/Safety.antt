-- ===== src/Cli/AccountCmd/Safety.antt =====
-- What `account add` stores, and when: only credentials that were verified or whose verification was
-- skipped, and in plain text only what the user agreed to.
use funding_tool.Prelude.{
  ◌≡◌, ◌≢◌, ◌⊎◌, inl, inr, refl, sym, Bool, true, false, String, Option, List, [], arith,
}
use mathlib.Core.Path.{subst}
use funding_tool.Errors.{Error, Result, ok, config_error, Result-cases}
use funding_tool.Models.{ApiCredentials, PermissionReport}
use funding_tool.Accounts.{Keyring, Store, add}
use funding_tool.Cli.{done, exited}
use funding_tool.Cli.AccountCmd.{
  Warning, AddOptions, Typed, credentials_of, reported, checked, verified_at, account_add, warnings,
}
use funding_tool.Cli.AccountCmd.Outcomes.{
  IsAdded, IsLeft, as_before, RaisesItsOwn, add-Outcome, stored-IsSettled,
}

-- Where the time of the verification comes from: none if it is skipped, and otherwise the report of
-- the exchange says whether it is set.
pub data IsChecked : Bool → Result PermissionReport → Bool → Type 0 where
  skipped : (m : Result PermissionReport) → IsChecked true m false
  live : (r : PermissionReport) → IsChecked false (ok r) r.read_ok

checked-cases :
    (skip : Bool) (verify : ApiCredentials → Result PermissionReport) (c : ApiCredentials)
    → ((v : Bool) × (ws : List Warning) × (checked skip verify c ≡ done (v, ws))
        × IsChecked skip (verify c) v)
      ⊎ (checked skip verify c ≡ exited)
unfolding checked reported
checked-cases true verify c = inl (false, [], refl, skipped (verify c))
checked-cases false verify c = elim (Result-cases (verify c)) [
  | inl (r, e) ↦ inl (r.read_ok, warnings r, rw e refl, rw e (live r))
  | inr (x, e) ↦ inr (rw e refl)
]

module _ {K : Type 0} (kr : Keyring K) (o : AddOptions) (t : Typed)
    (verify : ApiCredentials → Result PermissionReport) (st : Store K) where
  -- The account is new, its credentials are checked, and plain text is agreed to.
  pub record IsStored (st' : Store K) : Type 0 where
    pub verified : Bool
    pub source : IsChecked o.skip_verify (verify (credentials_of o t)) verified
    pub added : IsAdded kr o.name (verified_at verified t.verified_at) t.confirm st st'

  weakened :
      (at : Option String) (st' : Store K)
      → IsAdded kr o.name at false st st'
      → IsAdded kr o.name at t.confirm st st'
  weakened at st' a = record {
    absent = a.absent;
    account = a.account;
    there = a.there;
    time = a.time;
    secrecy = λ p. absurd (ground (arith, (a.secrecy p).1));
  }

  -- With a keyring that does not raise the exception of the store, `account add` stores an account
  -- exactly if it ends without an error. What it stores is a new account under the name; it is marked
  -- as verified just if the exchange confirmed the credentials, and without --skip-verify nothing is
  -- stored whose verification failed; plain text is stored only if there is no keyring and the user
  -- agreed. Otherwise the store, keyring included, is left as it was, but for the key that stays in the
  -- keyring if this raises on the secret.
  pub account_add-IsStored :
      RaisesItsOwn kr
      → (((account_add kr o t verify st).0 ≡ done tt) × IsStored (account_add kr o t verify st).1)
        ⊎ (((account_add kr o t verify st).0 ≢ done tt)
            × ((x : Error) × IsLeft kr o.name
                  (credentials_of o t)
                  st
                  x
                  (account_add kr o t verify st).1))
  unfolding account_add
  account_add-IsStored own =
      let c = credentials_of o t in
      elim (checked-cases o.skip_verify verify c) [
        | inr e ↦ rw (e, account_add) (inr (λ x. cc, (config_error, as_before config_error)))
        | inl (v, ws, e, source) ↦
            let at = verified_at v t.verified_at in
            rw (e, account_add)
              (stored-IsSettled kr o.name c at t.confirm st
                (add kr o.name o.exchange c t.created_at at false st)
                (add kr o.name o.exchange c t.created_at at true) IsStored own
                (add-Outcome kr o.name o.exchange c t.created_at at false st)
                (add-Outcome kr o.name o.exchange c t.created_at at true st)
                (λ st' a. record { verified = v; source = source; added = weakened at st' a })
                (λ agreed st' a. record {
                  verified = v;
                  source = source;
                  added = subst (λ b. IsAdded kr o.name at b st st') (sym agreed) a;
                }))
      ]
