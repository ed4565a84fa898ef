-- ===== src/Paging/Complete.antt =====
-- The loop collects every row of the range, exactly once and in order.
use funding_tool.Prelude.{
  ℕ, zero, suc, ◌-◌, ◌≤◌, ◌<◌, ◌≡◌, refl, sym, ap, ◌∙◌, Bool-cases, inl, inr, ◌&&◌, leb, ltb,
  if◌then◌else◌, List, [], ◌∷◌, ◌++◌, length, take, drop, take-append-drop, take_short, All, arith,
}
use funding_tool.Errors.{Result, ok}
use funding_tool.Paging.{last, use_batch, pages, fetch_pages}

module _ {Row : Type 0} (time_of : Row → ℕ) where
  -- The rows from `lo` to `hi`.
  unfoldable pub window : ℕ → ℕ → List Row → List Row
  window lo hi [] = []
  window lo hi (r ∷ rs) =
      let rest = window lo hi rs in
      if leb lo (time_of r) && leb (time_of r) hi then r ∷ rest else rest

  -- Strictly ascending times.
  abbrev pub Ascends : List Row → Type 0
  Ascends [] = Unit
  Ascends (r ∷ rs) = All (λ x. time_of r < time_of x) rs × Ascends rs

  All-window :
      (t lo hi : ℕ) (rs : List Row)
      → All (λ x. t < time_of x) rs
      → All (λ x. t < time_of x) (window lo hi rs)
  unfolding window
  All-window t lo hi [] h = tt
  All-window t lo hi (r ∷ rs) h = elim (Bool-cases (leb lo (time_of r) && leb (time_of r) hi)) [
    | inl i ↦ rw i (h.0, All-window t lo hi rs h.1)
    | inr o ↦ rw o (All-window t lo hi rs h.1)
  ]

  pub Ascends-window : (lo hi : ℕ) (rs : List Row) → Ascends rs → Ascends (window lo hi rs)
  unfolding window
  Ascends-window lo hi [] h = tt
  Ascends-window lo hi (r ∷ rs) h = elim (Bool-cases (leb lo (time_of r) && leb (time_of r) hi)) [
    | inl i ↦ rw i (All-window (time_of r) lo hi rs h.0, Ascends-window lo hi rs h.1)
    | inr o ↦ rw o (Ascends-window lo hi rs h.1)
  ]

  pub window_empty : (lo hi : ℕ) (rs : List Row) → hi < lo → window lo hi rs ≡ []
  unfolding window
  window_empty lo hi [] h = refl
  window_empty lo hi (r ∷ rs) h = ground (arith, window_empty lo hi rs)

  pub window-window :
      (lo lo' hi : ℕ) (rs : List Row)
      → lo ≤ lo'
      → window lo' hi (window lo hi rs) ≡ window lo' hi rs
  unfolding window
  window-window lo lo' hi [] h = refl
  window-window lo lo' hi (r ∷ rs) h = ground (arith, window-window lo lo' hi rs)

  pub All-of_window :
      (lo hi : ℕ) (rs : List Row) → All (λ x. (lo ≤ time_of x) × (time_of x ≤ hi)) (window lo hi rs)
  unfolding window
  All-of_window lo hi [] = tt
  All-of_window lo hi (r ∷ rs) = elim (Bool-cases (leb lo (time_of r) && leb (time_of r) hi)) [
    | inl i ↦ rw i ((ground arith, ground arith), All-of_window lo hi rs)
    | inr o ↦ rw o (All-of_window lo hi rs)
  ]

  window-All :
      (lo hi : ℕ) (rs : List Row)
      → All (λ x. lo < time_of x) rs
      → All (λ x. time_of x ≤ hi) rs
      → window (suc lo) hi rs ≡ rs
  unfolding window
  window-All lo hi [] h k = refl
  window-All lo hi (r ∷ rs) h k = ground (arith, window-All lo hi rs)

  last_le :
      (r : Row) (n : ℕ) (rs : List Row)
      → Ascends (r ∷ rs)
      → time_of r ≤ time_of (last r (take n rs))
  unfolding last
  last_le r zero rs h = omega arith
  last_le r (suc n) [] h = omega arith
  last_le r (suc n) (x ∷ xs) h = omega (arith, last_le x n xs h.1)

  -- What lies behind the last row of a page is the rest of the list.
  window_page :
      (hi : ℕ) (r : Row) (n : ℕ) (rs : List Row)
      → Ascends (r ∷ rs)
      → All (λ x. time_of x ≤ hi) (r ∷ rs)
      → window (suc (time_of (last r (take n rs)))) hi (r ∷ rs) ≡ drop n rs
  unfolding window last
  window_page hi r zero rs h k = ground (arith, window-All (time_of r) hi rs h.0 k.1)
  window_page hi r (suc n) [] h k = ground arith
  window_page hi r (suc n) (x ∷ xs) h k =
      ground (arith, last_le x n xs h.1, window_page hi x n xs h.1 k.1)

  All-upper :
      (lo hi : ℕ) (rs : List Row)
      → All (λ x. (lo ≤ time_of x) × (time_of x ≤ hi)) rs
      → All (λ x. time_of x ≤ hi) rs
  All-upper lo hi [] h = tt
  All-upper lo hi (r ∷ rs) h = (h.0.1, All-upper lo hi rs h.1)

module _ {Row S : Type 0} (time_of : Row → ℕ) (n : ℕ) (extend : S → List Row → S)
    (extend_nil : (a : S) → extend a [] ≡ a)
    (extend_append : (a : S) (xs ys : List Row)
      → extend (extend a xs) ys ≡ extend a (xs ++ ys)) where
  -- One page, if the rounds behind it collect what is left.
  pub page_step :
      (acc : S) (cursor end : ℕ) (w : List Row) (resume : S → ℕ → Result S)
      → Ascends time_of w
      → All (λ x. (cursor ≤ time_of x) × (time_of x ≤ end)) w
      → ((acc' : S) (next : ℕ)
          → cursor < next
          → resume acc' next ≡ ok (extend acc' (window time_of next end w)))
      → use_batch time_of (suc n) extend acc (take (suc n) w) resume ≡ ok (extend acc w)
  unfolding use_batch
  page_step acc cursor end [] resume h k later = ap ok (sym (extend_nil acc))
  page_step acc cursor end (r ∷ rs) resume h k later =
      elim (Bool-cases (ltb (length (r ∷ take n rs)) (suc n))) [
        | inl short ↦ rw (short, use_batch) (rw (take_short n rs (ground arith)))
        | inr full ↦
            rw (full, use_batch)
              (later (extend acc (r ∷ take n rs)) (suc (time_of (last r (take n rs))))
                  (omega (arith, last_le time_of r n rs h, k.0.0))
                ∙ rw
                    (
                      window_page time_of end r n rs h (All-upper time_of cursor end (r ∷ rs) k),
                      extend_append,
                      take-append-drop,
                    )
                    refl)
      ]

-- The server that the loop talks to holds `all`, in strictly ascending order; a request returns the
-- first rows of the range, at most as many as the limit.
module _ {Row S : Type 0} (time_of : Row → ℕ) (n : ℕ) (extend : S → List Row → S)
    (fetch : ℕ → ℕ → Result (List Row)) (extend_nil : (a : S) → extend a [] ≡ a)
    (extend_append : (a : S) (xs ys : List Row) → extend (extend a xs) ys ≡ extend a (xs ++ ys))
    (all : List Row) (ascends : Ascends time_of all)
    (honest : (lo hi : ℕ) → fetch lo hi ≡ ok (take (suc n) (window time_of lo hi all))) where
  pages-window :
      (fuel : ℕ) (acc : S) (cursor end : ℕ)
      → suc end - cursor < fuel
      → pages time_of (suc n) extend fetch fuel acc cursor end
        ≡ ok (extend acc (window time_of cursor end all))
  unfolding pages
  pages-window zero acc cursor end h = elim h [ ]
  pages-window (suc fuel) acc cursor end h = elim (Bool-cases (ltb end cursor)) [
    | inl done ↦
        rw (done, pages)
          (rw (window_empty time_of cursor end all (ground arith)) (ap ok (sym (extend_nil acc))))
    | inr more ↦
        rw (more, pages)
          (rw honest (
            page_step time_of n extend extend_nil extend_append acc cursor end
              (window time_of cursor end all) _ (Ascends-window time_of cursor end all ascends)
              (All-of_window time_of cursor end all)
              λ acc' next lt.
                pages-window fuel acc' next end (ground arith)
                ∙ ap (λ w. ok (extend acc' w))
                    (sym (window-window time_of cursor next end all (omega arith)))))
  ]

  -- Against a server that holds rows of strictly ascending times and answers with the first `suc n` of
  -- a range, `suc n` being the limit, enough rounds are given, and the result is the start value extended by every row of the range,
  -- each once and in order.
  pub fetch_pages-window :
      (acc : S) (start end : ℕ)
      → fetch_pages time_of (suc n) extend fetch acc start end
        ≡ ok (extend acc (window time_of start end all))
  unfolding fetch_pages
  fetch_pages-window acc start end = pages-window _ acc start end (omega arith)
