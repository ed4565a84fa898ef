-- ===== src/Accounts/Refs.antt =====
-- keyring_parse reads what keyring_ref writes.
use funding_tool.Prelude.{◌≡◌, refl, ap, true, false, String, arith}
use funding_tool.Errors.{ok}
use funding_tool.Accounts.{
  append, has_colon, rpartition, service_of, keyring_ref, strip_prefix, parsed, keyring_parse,
}

has_colon-append : (s t : String) → has_colon t ≡ true → has_colon (append s t) ≡ true
unfolding has_colon append
has_colon-append String.[] t h = h
has_colon-append (String.◌∷◌ c s) t h = ground (arith, has_colon-append s t h)

rpartition-append :
    (s k : String) → has_colon k ≡ false → rpartition (append s (append ":" k)) ≡ (s, k)
unfolding rpartition append has_colon
rpartition-append String.[] k h = rw h refl
rpartition-append (String.◌∷◌ c s) k h =
    rw (has_colon-append s (append ":" k) refl, rpartition-append s k h) refl

-- The service and the kind come back from the reference of an account whatever its name is, if the
-- kind has no colon.
pub keyring_parse-keyring_ref :
    (name kind : String)
    → has_colon kind ≡ false
    → keyring_parse (keyring_ref name kind) ≡ ok (service_of name, kind)
unfolding keyring_parse keyring_ref parsed strip_prefix append
keyring_parse-keyring_ref name kind h = ap ok (rpartition-append (service_of name) kind h)
