-- ===== src/Auth/Entries.antt =====
-- The entries as a map, and their number.
use funding_tool.Prelude.{
  ℕ, ◌+◌, ◌≤◌, ◌≡◌, ◌≢◌, inl, inr, refl, Bool-cases, str_eq, eq_iff, if◌then◌else◌, String, none,
  some, Option-cases, [], ◌∷◌, ◌++◌, length, length-append, arith,
}
use funding_tool.Auth.{IpState, Entries, find, without, store_last, drop_first, evict}

pub find-append :
    (ip : String) (es : Entries) (j : String) (s : IpState)
    → find ip es ≡ none
    → find ip (es ++ (j, s) ∷ []) ≡ (if str_eq j ip then some s else none)
unfolding find
find-append ip [] j s h = refl
find-append ip ((k, t) ∷ es) j s h = ground (arith, find-append ip es j s)

find-append_some :
    (ip : String) (es : Entries) (j : String) (s t : IpState)
    → find ip es ≡ some t
    → find ip (es ++ (j, s) ∷ []) ≡ some t
unfolding find
find-append_some ip [] j s t h = cc
find-append_some ip ((k, u) ∷ es) j s t h = ground (arith, find-append_some ip es j s t)

pub find-without :
    (ip j : String) (es : Entries)
    → find j (without ip es) ≡ (if str_eq ip j then none else find j es)
unfolding find without
find-without ip j [] = ground arith
find-without ip j ((k, s) ∷ es) =
    ground (arith, find-without ip j es, eq_iff k ip, eq_iff k j, eq_iff ip j)

-- Storing changes the entry of its own IP only.
pub find-store_last :
    (ip j : String) (s : IpState) (es : Entries)
    → find j (store_last ip s es) ≡ (if str_eq ip j then some s else find j es)
unfolding store_last
find-store_last ip j s es = elim (Bool-cases (str_eq ip j)) [
  | inl same ↦ ground (arith, find-without ip j es, find-append j (without ip es) ip s)
  | inr other ↦ elim (Option-cases (find j es)) [
    | inl absent ↦ ground (arith, find-without ip j es, find-append j (without ip es) ip s)
    | inr (t, there) ↦
        ground (arith, find-without ip j es, find-append_some j (without ip es) ip s t)
  ]
]

length-without-le : (ip : String) (es : Entries) → length (without ip es) ≤ length es
unfolding without
length-without-le ip [] = omega arith
length-without-le ip ((k, s) ∷ es) = ground (arith, length-without-le ip es)

length-without_there :
    (ip : String) (es : Entries) → find ip es ≢ none → length (without ip es) + 1 ≤ length es
unfolding without find
length-without_there ip [] h = absurd (h refl)
length-without_there ip ((k, s) ∷ es) h =
    ground (arith, length-without-le ip es, length-without_there ip es)

pub length-store_last-le :
    (ip : String) (s : IpState) (es : Entries) → length (store_last ip s es) ≤ length es + 1
unfolding store_last
length-store_last-le ip s es =
    omega (arith, length-append (without ip es) ((ip, s) ∷ []), length-without-le ip es)

pub length-store_last_there :
    (ip : String) (s : IpState) (es : Entries)
    → find ip es ≢ none
    → length (store_last ip s es) ≤ length es
unfolding store_last
length-store_last_there ip s es h =
    omega (arith, length-append (without ip es) ((ip, s) ∷ []), length-without_there ip es h)

pub length-evict : (m : ℕ) (es : Entries) → length es ≤ m + 1 → length (evict m es) ≤ m
unfolding evict drop_first
length-evict m [] h = ground arith
length-evict m (e ∷ es) h = ground arith
