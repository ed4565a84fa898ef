-- ===== src/Web/Symbols/Fresh.antt =====
-- How long a list of symbols serves the requests that follow it.
use funding_tool.Prelude.{
  ℕ, ◌+◌, ◌≤◌, ◌<◌, ◌≡◌, refl, false, lt→ltb, String, none, some, List, [], ◌∷◌, map, All, arith,
}
use funding_tool.Errors.{Error, Result, ok, err}
use funding_tool.Web.{Handled, returned, failed, raised}
use funding_tool.Web.Symbols.{
  SymbolCache, is_fresh, cached_symbols, first_matches, refreshed, symbols,
}

-- A request: the text asked for, its time, and what the exchange would list then.
pub record SymbolRequest : Type 0 where
  pub q : String
  pub now : ℕ
  pub listed : Result (List String)

-- There is no list, or it was fetched an hour ago or earlier.
abbrev pub IsOld : ℕ → SymbolCache → Type 0
IsOld now none = Unit
IsOld now (some (at, all)) = at + 3600000 ≤ now

is_fresh-IsOld : (now : ℕ) (cache : SymbolCache) → IsOld now cache → is_fresh now cache ≡ false
unfolding is_fresh
is_fresh-IsOld now none h = refl
is_fresh-IsOld now (some (at, all)) h = ground arith

module _ (upper : String → String) where
  unfoldable pub symbols_all :
      List SymbolRequest → SymbolCache → List (Handled (List String)) × SymbolCache
  symbols_all [] cache = ([], cache)
  symbols_all (r ∷ rs) cache =
      let (answer, cache') = symbols upper r.q r.now r.listed cache in
      let (answers, last) = symbols_all rs cache' in (answer ∷ answers, last)

  symbols-fresh :
      (q : String) (now : ℕ) (listed : Result (List String)) (at : ℕ) (all : List String)
      → now < at + 3600000
      → symbols upper q now listed (some (at, all))
        ≡ (returned (first_matches upper q all), some (at, all))
  unfolding symbols is_fresh cached_symbols
  symbols-fresh q now listed at all h = rw (lt→ltb now (at + 3600000) h) refl

  kept :
      (rs : List SymbolRequest) (at : ℕ) (all : List String)
      → All (λ r. r.now < at + 3600000) rs
      → symbols_all rs (some (at, all))
        ≡ (map (λ r. returned (first_matches upper r.q all)) rs, some (at, all))
  unfolding symbols_all
  kept [] at all h = refl
  kept (r ∷ rs) at all h =
      rw (symbols-fresh r.q r.now r.listed at all h.0) (rw (kept rs at all h.1) refl)

  -- A request without a list, or at an hour or more after it was fetched, asks the exchange. If that
  -- lists symbols, it and all requests until an hour later are answered from them, whatever the
  -- exchange would say meanwhile; if it fails, so does the request, and the list is kept as it was.
  pub symbols_all-refetched :
      (r : SymbolRequest) (rs : List SymbolRequest) (cache : SymbolCache) (all : List String)
      → IsOld r.now cache
      → All (λ s. s.now < r.now + 3600000) rs
      → (r.listed ≡ ok all
          → symbols_all (r ∷ rs) cache
            ≡ (map (λ s. returned (first_matches upper s.q all)) (r ∷ rs), some (r.now, all)))
        × ((e : Error)
            → r.listed ≡ err e
            → symbols upper r.q r.now r.listed cache ≡ (failed (raised e), cache))
  unfolding symbols_all symbols refreshed
  symbols_all-refetched r rs cache all stale h =
      let old = is_fresh-IsOld r.now cache stale in
      (λ e. rw old (rw e (rw (kept rs r.now all h) refl)), λ x e. rw old (rw e refl))
