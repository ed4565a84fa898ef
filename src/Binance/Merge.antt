-- ===== src/Binance/Merge.antt =====
-- The mark price of a funding event: the kline at its time, or the latest one before it.
use funding_tool.Prelude.{
  ℕ, suc, ◌+◌, ◌-◌, ◌≤◌, ◌<◌, ◌≡◌, ◌≢◌, ◌⊎◌, inl, inr, refl, Bool-cases, leb, ◌==◌, Option, none,
  some, Option-cases, List, [], ◌∷◌, get_elem?, arith,
}
use funding_tool.Decimal.{Decimal}
use funding_tool.Binance.{dict_get}
use funding_tool.Binance.Rates.{
  insert_time, sorted_keys, bisect_right, within_tolerance, floor_lookup, mark_for,
}

abbrev In : ℕ → List ℕ → Type 0
In t [] = ⊥
In t (x ∷ xs) = (t ≡ x) ⊎ In t xs

abbrev IsSorted : List ℕ → Type 0
IsSorted [] = Unit
IsSorted (x ∷ xs) = ((t : ℕ) → In t xs → x ≤ t) × IsSorted xs

In-insert_time : (u t : ℕ) (xs : List ℕ) → In u (insert_time t xs) → (u ≡ t) ⊎ In u xs
unfolding insert_time
In-insert_time u t [] h = h
In-insert_time u t (x ∷ xs) h = ground (arith, In-insert_time u t xs)

insert_time-In : (u t : ℕ) (xs : List ℕ) → (u ≡ t) ⊎ In u xs → In u (insert_time t xs)
unfolding insert_time
insert_time-In u t [] h = h
insert_time-In u t (x ∷ xs) h = ground (arith, insert_time-In u t xs)

IsSorted-insert_time : (t : ℕ) (xs : List ℕ) → IsSorted xs → IsSorted (insert_time t xs)
unfolding insert_time
IsSorted-insert_time t [] h = (λ u e. absurd e, tt)
IsSorted-insert_time t (x ∷ xs) h = elim (Bool-cases (leb t x)) [
  | inl before ↦ rw before (λ u m. ground (arith, h.0 u), h)
  | inr behind ↦
      rw behind
        (λ u m. ground (arith, In-insert_time u t xs m, h.0 u), IsSorted-insert_time t xs h.1)
]

sorted_keys-IsSorted : (d : List (ℕ × Decimal)) → IsSorted (sorted_keys d)
unfolding sorted_keys
sorted_keys-IsSorted [] = tt
sorted_keys-IsSorted ((t, p) ∷ d) = IsSorted-insert_time t (sorted_keys d) (sorted_keys-IsSorted d)

In-sorted_keys : (t : ℕ) (d : List (ℕ × Decimal)) → dict_get t d ≢ none → In t (sorted_keys d)
unfolding sorted_keys dict_get
In-sorted_keys t [] h = absurd (h refl)
In-sorted_keys t ((u, p) ∷ d) h =
    insert_time-In t u (sorted_keys d) (ground (arith, In-sorted_keys t d))

sorted_keys-In :
    (t : ℕ) (d : List (ℕ × Decimal))
    → In t (sorted_keys d)
    → (p : Decimal) × (dict_get t d ≡ some p)
unfolding sorted_keys dict_get
sorted_keys-In t [] h = absurd h
sorted_keys-In t ((u, p) ∷ d) h = elim (Bool-cases (u == t)) [
  | inl same ↦ (p, rw same)
  | inr other ↦ rw other (sorted_keys-In t d (ground (arith, In-insert_time t u (sorted_keys d) h)))
]

-- Where bisect_right points: behind the last time that is at most `x`.
data Floor (ts : List ℕ) (x : ℕ) : ℕ → Type 0 where
  nothing : ((t : ℕ) → In t ts → x < t) → Floor ts x 0
  last_at :
      (i t : ℕ)
      → get_elem? ts i ≡ some t
      → In t ts
      → t ≤ x
      → ((u : ℕ) → In u ts → u ≤ x → u ≤ t)
      → Floor ts x (suc i)

Floor-cons :
    (y : ℕ) (ys : List ℕ) (x n : ℕ)
    → ((t : ℕ) → In t ys → y ≤ t)
    → y ≤ x
    → Floor ys x n
    → Floor (y ∷ ys) x (suc n)
Floor-cons y ys x n h le (nothing none') =
    last_at 0 y refl (inl refl) le λ u m lt. ground (arith, none' u)
Floor-cons y ys x n h le (last_at i t e m tx top) =
    last_at (suc i) t e (inr m) tx λ u k lt. ground (arith, top u, h t)

bisect_right-Floor : (ts : List ℕ) (x : ℕ) → IsSorted ts → Floor ts x (bisect_right ts x)
unfolding bisect_right
bisect_right-Floor [] x h = nothing λ t m. absurd m
bisect_right-Floor (y ∷ ys) x h = elim (Bool-cases (leb y x)) [
  | inl le ↦ rw le (Floor-cons y ys x _ h.0 (ground arith) (bisect_right-Floor ys x h.1))
  | inr gt ↦ rw gt (nothing λ t m. ground (arith, h.0 t))
]

-- The mark price for a funding time: the price at the latest kline time that is not after it, if
-- that is at most `tol` before; otherwise none, and every kline time up to then is farther back.
pub data IsMark (klines : List (ℕ × Decimal)) (tol ft : ℕ) : Option Decimal → Type 0 where
  found :
      (t : ℕ) (p : Decimal)
      → dict_get t klines ≡ some p
      → t ≤ ft
      → ft ≤ t + tol
      → ((u : ℕ) → dict_get u klines ≢ none → u ≤ ft → u ≤ t)
      → IsMark klines tol ft (some p)
  missing : ((u : ℕ) → dict_get u klines ≢ none → u ≤ ft → u + tol < ft) → IsMark klines tol ft none

floor_lookup-IsMark :
    (klines : List (ℕ × Decimal)) (tol ft n : ℕ)
    → bisect_right (sorted_keys klines) ft ≡ n
    → Floor (sorted_keys klines) ft n
    → IsMark klines tol ft (floor_lookup klines (sorted_keys klines) tol ft)
unfolding floor_lookup within_tolerance
floor_lookup-IsMark klines tol ft n e (nothing far) =
    rw (e, floor_lookup)
      (missing λ u has le. absurd (omega (arith, far u (In-sorted_keys u klines has))))
floor_lookup-IsMark klines tol ft n e (last_at i t at m le top) =
    let (p, price) = sorted_keys-In t klines m in
    rw (e, floor_lookup)
      (rw at (elim (Bool-cases (leb (ft - t) tol)) [
        | inl near ↦
            rw (near, within_tolerance)
              (rw price (
                found t p price le (ground arith)
                  λ u has lt. top u (In-sorted_keys u klines has) lt))
        | inr far ↦
            rw (far, within_tolerance)
              (missing λ u has lt. ground (arith, top u (In-sorted_keys u klines has) lt))
      ]))

-- `_merge` takes for each funding time exactly the mark price that `IsMark` describes, whether a
-- kline stands at the time itself or the bisection finds one before it.
pub mark_for-IsMark :
    (klines : List (ℕ × Decimal)) (tol ft : ℕ)
    → IsMark klines tol ft (mark_for klines (sorted_keys klines) tol ft)
unfolding mark_for
mark_for-IsMark klines tol ft = elim (Option-cases (dict_get ft klines)) [
  | inl no_exact ↦
      rw (no_exact, mark_for)
        (floor_lookup-IsMark klines tol ft _ refl
          (bisect_right-Floor (sorted_keys klines) ft (sorted_keys-IsSorted klines)))
  | inr (p, exact) ↦
      rw (exact, mark_for) (found ft p exact (omega arith) (omega arith) λ u has lt. lt)
]
