-- ===== src/Audit/Lines.antt =====
-- What a line of the audit log holds.
use funding_tool.Prelude.{
  ◌≡◌, ◌⊎◌, refl, true, Bool-cases, inl, inr, str_eq, eq_iff, if◌then◌else◌, String, Option, none,
  some, List, [], ◌∷◌, arith,
}
use mathlib.Core.Path.{subst}
use mathlib.Core.Option.{map as map_option}
use funding_tool.Errors.{ok, err, value_error, Result-cases}
use funding_tool.Audit.{
  Scalar, Extra, scalar, compound, Entry, is_forbidden, check_keys, scalar_of, scalars, base_record,
  put, update, log,
}

module _ {V : Type 0} where
  unfoldable pub find : String → List (String × V) → Option V
  find k [] = none
  find k ((j, v) ∷ r) = if str_eq j k then some v else find k r

  -- The keys of a dictionary differ.
  unfoldable pub HasKeys : List (String × V) → Type 0
  HasKeys [] = Unit
  HasKeys ((k, v) ∷ r) = (find k r ≡ none) × HasKeys r

abbrev pub or_else : Option Scalar → Option Scalar → Option Scalar
or_else (some v) o = some v
or_else none o = o

find-put :
    (k j : String) (v : Scalar) (r : List (String × Scalar))
    → find j (put k v r) ≡ (if str_eq k j then some v else find j r)
unfolding find put
find-put k j v [] = ground arith
find-put k j v ((i, w) ∷ r) = ground (arith, find-put k j v r, eq_iff i k, eq_iff i j, eq_iff k j)

find-update :
    (j : String) (es r : List (String × Scalar))
    → HasKeys es
    → find j (update es r) ≡ or_else (find j es) (find j r)
unfolding find update HasKeys
find-update j [] r h = refl
find-update j ((k, v) ∷ es) r h =
    ground (arith, find-update j es (put k v r) h.1, find-put k j v r, h.0, eq_iff k j)

-- The extras that are written are those that were given, under the same keys.
find-scalars :
    (j : String) (es : List (String × Extra)) (ss : List (String × Scalar))
    → scalars es ≡ ok ss
    → find j es ≡ map_option scalar (find j ss)
unfolding find scalars scalar_of
find-scalars j [] ss e = ground arith
find-scalars j ((k, compound) ∷ es) ss e = cc
find-scalars j ((k, scalar v) ∷ es) ss e = elim (Result-cases (scalars es)) [
  | inr (x, bad) ↦ absurd (ground (arith, bad, e))
  | inl (rest, good) ↦ ground (arith, good, e, find-scalars j es rest good)
]

HasKeys-scalars :
    (es : List (String × Extra)) (ss : List (String × Scalar))
    → scalars es ≡ ok ss
    → HasKeys es
    → HasKeys ss
unfolding HasKeys scalars scalar_of
HasKeys-scalars [] ss e h = subst HasKeys {x = []} (ground arith) tt
HasKeys-scalars ((k, compound) ∷ es) ss e h = absurd (ground (arith, e))
HasKeys-scalars ((k, scalar v) ∷ es) ss e h = elim (Result-cases (scalars es)) [
  | inr (x, bad) ↦ absurd (ground (arith, bad, e))
  | inl (rest, good) ↦
      subst HasKeys {x = (k, v) ∷ rest} (ground (arith, good, e))
        (ground (arith, find-scalars k es rest good, h.0), HasKeys-scalars es rest good h.1)
]

find-check_keys :
    (j : String) (es : List (String × Extra))
    → check_keys es ≡ ok tt
    → is_forbidden j ≡ true
    → find j es ≡ none
unfolding find check_keys
find-check_keys j [] e h = refl
find-check_keys j ((k, v) ∷ es) e h = ground (arith, e, h, find-check_keys j es, eq_iff k j)

forbidden-cases :
    (j : String)
    → is_forbidden j ≡ true
    → (j ≡ "api_key")
      ⊎ (j ≡ "api_secret")
      ⊎ (j ≡ "master_key")
      ⊎ (j ≡ "master_fingerprint")
      ⊎ (j ≡ "password")
unfolding is_forbidden
forbidden-cases j h = ground (
  arith,
  h,
  eq_iff j "api_key",
  eq_iff j "api_secret",
  eq_iff j "master_key",
  eq_iff j "master_fingerprint",
  eq_iff j "password",
)

find-base_record :
    (ts : String) (e : Entry) (j : String)
    → is_forbidden j ≡ true
    → find j (base_record ts e) ≡ none
unfolding find base_record
find-base_record ts e j h = elim (forbidden-cases j h) [
  | inl k ↦ rw k refl
  | inr (inl k) ↦ rw k refl
  | inr (inr (inl k)) ↦ rw k refl
  | inr (inr (inr (inl k))) ↦ rw k refl
  | inr (inr (inr (inr k))) ↦ rw k refl
]

-- An extra that log does not take.
pub record IsRefused (es : List (String × Extra)) : Type 0 where
  pub key : String
  pub value : Extra
  pub there : find key es ≡ some value
  pub bad : (is_forbidden key ≡ true) ⊎ (value ≡ compound)

IsRefused-cons :
    (k : String) (v : Extra) (es : List (String × Extra))
    → find k es ≡ none
    → IsRefused es
    → IsRefused ((k, v) ∷ es)
unfolding find
IsRefused-cons k v es new r = record {
  key = r.key;
  value = r.value;
  there = ground (arith, r.there, new, eq_iff k r.key);
  bad = r.bad;
}

check_keys-IsRefused :
    (es : List (String × Extra))
    → HasKeys es
    → (check_keys es ≡ ok tt) ⊎ ((check_keys es ≡ err value_error) × IsRefused es)
unfolding check_keys HasKeys find
check_keys-IsRefused [] h = inl refl
check_keys-IsRefused ((k, v) ∷ es) h = elim (Bool-cases (is_forbidden k)) [
  | inl f ↦
      inr
        (rw f refl, record { key = k; value = v; there = ground (arith, eq_iff k k); bad = inl f })
  | inr f ↦ elim (check_keys-IsRefused es h.1) [
    | inl clean ↦ inl (rw f clean)
    | inr (e, r) ↦ inr (rw f e, IsRefused-cons k v es h.0 r)
  ]
]

scalars-IsRefused :
    (es : List (String × Extra))
    → HasKeys es
    → ((ss : List (String × Scalar)) × (scalars es ≡ ok ss))
      ⊎ ((scalars es ≡ err value_error) × IsRefused es)
unfolding scalars scalar_of HasKeys find
scalars-IsRefused [] h = inl ([], refl)
scalars-IsRefused ((k, compound) ∷ es) h =
    inr (
      refl,
      record { key = k; value = compound; there = ground (arith, eq_iff k k); bad = inr refl },
    )
scalars-IsRefused ((k, scalar v) ∷ es) h = elim (scalars-IsRefused es h.1) [
  | inl (ss, e) ↦ inl ((k, v) ∷ ss, rw e refl)
  | inr (e, r) ↦ inr (rw e refl, IsRefused-cons k (scalar v) es h.0 r)
]

-- What a line holds that is written for an entry.
pub record IsLine (ts : String) (e : Entry) (line : List (String × Scalar)) : Type 0 where
  pub no_secrets : (k : String) → is_forbidden k ≡ true → find k line ≡ none
  pub extras : (k : String) (v : Scalar) → find k e.extras ≡ some (scalar v) → find k line ≡ some v
  pub others : (k : String) → find k e.extras ≡ none → find k line ≡ find k (base_record ts e)

written-IsLine :
    (ts : String) (e : Entry) (ss : List (String × Scalar))
    → HasKeys e.extras
    → check_keys e.extras ≡ ok tt
    → scalars e.extras ≡ ok ss
    → IsLine ts e (update ss (base_record ts e))
written-IsLine ts e ss h clean good =
    let found =
      λ (k : String). find-update k ss (base_record ts e) (HasKeys-scalars e.extras ss good h) in
    let given = λ (k : String). find-scalars k e.extras ss good in
    record {
      no_secrets = λ k f.
          ground (
            arith,
            found k,
            given k,
            find-check_keys k e.extras clean f,
            find-base_record ts e k f,
          );
      extras = λ k v there. ground (arith, found k, given k, there);
      others = λ k gone. ground (arith, found k, given k, gone);
    }

-- For extras whose keys differ, log either writes a line or raises a ValueError, and raises it only
-- for an extra with a forbidden key or without a scalar value. A line has no forbidden key; it has
-- each of the extras under its key, and under every other key what the arguments of log give.
pub log-IsLine :
    (ts : String) (e : Entry)
    → HasKeys e.extras
    → ((line : List (String × Scalar)) × (log ts e ≡ ok line) × IsLine ts e line)
      ⊎ ((log ts e ≡ err value_error) × IsRefused e.extras)
unfolding log
log-IsLine ts e h = elim (check_keys-IsRefused e.extras h) [
  | inr (bad, r) ↦ inr (rw bad refl, r)
  | inl clean ↦ elim (scalars-IsRefused e.extras h) [
    | inr (bad, r) ↦ inr (rw (clean, bad) refl, r)
    | inl (ss, good) ↦
        inl
          (update ss (base_record ts e), rw (clean, good) refl, written-IsLine ts e ss h clean good)
  ]
]
