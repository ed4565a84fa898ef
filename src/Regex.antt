-- ===== src/Regex.antt =====
-- What infra/log.py uses of re: a pattern of classes of characters, matched with backtracking, and
-- sub, on texts as lists of code points.
pub mod Needs
pub mod Parts
use funding_tool.Prelude.{
  ℕ, zero, suc, ◌+◌, ◌-◌, Bool, ◌==◌, if◌then◌else◌, Option, none, some, List, [], ◌∷◌, ◌++◌,
  length,
}

-- A character of a class; one, or none; as many as there are; sequence, alternation, nothing.
pub data Regex : Type 0 where
  one opt many : (ℕ → Bool) → Regex
  seq alt : Regex → Regex → Regex
  empty : Regex

-- What is kept of a match, and how many characters of it follow that and are dropped.
abbrev pub Match : Type 0
Match = List ℕ × ℕ

-- What follows in a pattern, from the text that is matched and the text that is left.
abbrev pub Rest : Type 0
Rest = List ℕ → List ℕ → Option Match

unfoldable pub or_else : Option Match → Option Match → Option Match
or_else none other = other
or_else (some m) other = some m

unfoldable pub match_many : (ℕ → Bool) → Rest → Rest
match_many p k acc [] = k acc []
match_many p k acc (c ∷ s) =
    or_else (if p c then match_many p k (acc ++ c ∷ []) s else none) (k acc (c ∷ s))

unfoldable pub match : Regex → Rest → Rest
match (one p) k acc [] = none
match (one p) k acc (c ∷ s) = if p c then k (acc ++ c ∷ []) s else none
match (opt p) k acc [] = k acc []
match (opt p) k acc (c ∷ s) = or_else (if p c then k (acc ++ c ∷ []) s else none) (k acc (c ∷ s))
match (many p) k acc s = match_many p k acc s
match (seq r q) k acc s = match r (match q k) acc s
match (alt r q) k acc s = or_else (match r k acc s) (match q k acc s)
match empty k acc s = k acc s

unfoldable pub count_while : (ℕ → Bool) → List ℕ → ℕ
count_while p [] = 0
count_while p (c ∷ s) = if p c then suc (count_while p s) else 0

-- The groups are kept, and the class behind them is dropped.
unfoldable pub finish : (ℕ → Bool) → Rest
finish tail acc s = some (acc, count_while tail s)

-- The groups `r` and behind them as many of a class as there are.
pub record Pattern : Type 0 where
  pub groups : Regex
  pub tail : ℕ → Bool

unfoldable pub match_at : Pattern → List ℕ → Option Match
match_at p s = match p.groups (finish p.tail) [] s

-- pattern.sub(groups + mark, text); the first argument counts what is left of a match. The patterns
-- have no empty match.
unfoldable pub sub_from : Pattern → List ℕ → ℕ → List ℕ → List ℕ
sub_from p mark skip [] = []
sub_from p mark (suc n) (c ∷ s) = sub_from p mark n s
sub_from p mark zero (c ∷ s) = elim (match_at p (c ∷ s)) [
  | none ↦ c ∷ sub_from p mark zero s
  | some (kept, dropped) ↦ kept ++ mark ++ sub_from p mark (length kept + dropped - 1) s
]

unfoldable pub sub : Pattern → List ℕ → List ℕ → List ℕ
sub p mark s = sub_from p mark 0 s
