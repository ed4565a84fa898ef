-- ===== src/Paging.antt =====
-- The paging loop of core/exchanges/binance_usdm.py: a page is fetched from a cursor to the end of
-- the range, and the next one starts a millisecond after the last row. `_fetch_rate_pages` and
-- `_fetch_klines` run this loop, each with its own limit and its own way to add a page.
pub mod Complete
use funding_tool.Prelude.{ℕ, zero, suc, ◌-◌, ltb, List, [], ◌∷◌, length, Bool, true, false}
use funding_tool.Errors.{Result, ok, err, fuel_exhausted, ◌>>=◌}

-- batch[-1], of a batch that is not empty
unfoldable pub last {ℓ} : {A : Type ℓ} → A → List A → A
last x [] = x
last x (y ∷ ys) = last y ys

module _ {Row S : Type 0} (time_of : Row → ℕ) (limit : ℕ) (extend : S → List Row → S) where
  -- One batch, and what follows it: `resume` goes round the loop again.
  unfoldable pub use_batch : S → List Row → (S → ℕ → Result S) → Result S
  use_batch acc [] resume = ok acc
  use_batch acc (r ∷ rs) resume =
      let acc' = extend acc (r ∷ rs) in
      elim (ltb (length (r ∷ rs)) limit) [
        | true ↦ ok acc'
        | false ↦ resume acc' (suc (time_of (last r rs)))
      ]

module _ {Row S : Type 0} (time_of : Row → ℕ) (limit : ℕ) (extend : S → List Row → S)
    (fetch : ℕ → ℕ → Result (List Row)) where
  -- while cursor_ms <= end_ms
  unfoldable pub pages : ℕ → S → ℕ → ℕ → Result S
  pages zero acc cursor end = err fuel_exhausted
  pages (suc fuel) acc cursor end = elim (ltb end cursor) [
    | true ↦ ok acc
    | false ↦ fetch cursor end >>= λ batch.
        use_batch time_of limit extend acc batch (λ acc' next. pages fuel acc' next end)
  ]

  -- Every round but the last moves the cursor, so as many rounds as milliseconds are enough.
  unfoldable pub fetch_pages : S → ℕ → ℕ → Result S
  fetch_pages acc start end = pages (suc (suc end - start)) acc start end
