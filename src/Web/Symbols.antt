-- ===== src/Web/Symbols.antt =====
-- web/routes/meta.py: the symbols, from a list that is kept for an hour. `upper` is str.upper; times
-- are readings of the monotonic clock in milliseconds.
pub mod Fresh
use funding_tool.Prelude.{
  ℕ, ◌+◌, Bool, true, false, ◌||◌, ltb, if◌then◌else◌, String, Option, none, some, List, [], ◌∷◌,
  take,
}
use funding_tool.Errors.{Result, ok, err}
use funding_tool.Csrf.{starts_with}
use funding_tool.Web.{raised, Handled, returned, failed}

-- part in s
unfoldable pub contains : String → String → Bool
contains part String.[] = starts_with part ""
contains part (String.◌∷◌ c s) = starts_with part (String.◌∷◌ c s) || contains part s

unfoldable pub matching : String → List String → List String
matching part [] = []
matching part (s ∷ ss) = let rest = matching part ss in if contains part s then s ∷ rest else rest

-- _cache, under its only key "all"
abbrev pub SymbolCache : Type 0
SymbolCache = Option (ℕ × List String)

unfoldable pub is_fresh : ℕ → SymbolCache → Bool
is_fresh now none = false
is_fresh now (some (at, all)) = ltb now (at + 3600000)

unfoldable pub cached_symbols : SymbolCache → List String
cached_symbols none = []
cached_symbols (some (at, all)) = all

unfoldable pub first_matches : (String → String) → String → List String → List String
first_matches upper q all = take 50 (matching (upper q) all)

-- What follows list_symbols.
unfoldable pub refreshed :
    (String → String)
    → String
    → ℕ
    → Result (List String)
    → SymbolCache
    → Handled (List String) × SymbolCache
refreshed upper q now (err e) cache = (failed (raised e), cache)
refreshed upper q now (ok all) cache = (returned (first_matches upper q all), some (now, all))

-- `listed` is what list_symbols returns when it is called.
unfoldable pub symbols :
    (String → String)
    → String
    → ℕ
    → Result (List String)
    → SymbolCache
    → Handled (List String) × SymbolCache
symbols upper q now listed cache =
    if is_fresh now cache
    then (returned (first_matches upper q (cached_symbols cache)), cache)
    else refreshed upper q now listed cache
