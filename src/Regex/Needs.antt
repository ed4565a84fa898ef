-- ===== src/Regex/Needs.antt =====
-- A pattern that needs a character of a class has no match where there is none.
use funding_tool.Prelude.{
  ℕ, ◌≡◌, refl, ap, ◌∙◌, ◌⊎◌, inl, inr, Bool, true, false, none, List, [], ◌∷◌, ◌++◌, All, arith,
}
use funding_tool.Regex.{
  Regex, one, opt, many, seq, alt, empty, Rest, or_else, match_many, match, finish, Pattern,
  match_at, sub_from, sub,
}
use funding_tool.Regex.Parts.{sub_from-none}

abbrev pub Needs : (ℕ → Bool) → Regex → Type 0
Needs q (one p) = (c : ℕ) → p c ≡ true → q c ≡ true
Needs q (opt p) = ⊥
Needs q (many p) = ⊥
Needs q (seq r t) = Needs q r ⊎ Needs q t
Needs q (alt r t) = Needs q r × Needs q t
Needs q empty = ⊥

abbrev pub Lacks : (ℕ → Bool) → List ℕ → Type 0
Lacks q s = All (λ c. q c ≡ false) s

module _ (q : ℕ → Bool) where
  abbrev IsNever : Rest → Type 0
  IsNever k = (acc s : List ℕ) → Lacks q s → k acc s ≡ none

  match_many-IsNever : (p : ℕ → Bool) (k : Rest) → IsNever k → IsNever (match_many p k)
  unfolding match_many or_else
  match_many-IsNever p k h acc [] l = h acc [] l
  match_many-IsNever p k h acc (c ∷ s) l =
      ground (arith, match_many-IsNever p k h (acc ++ c ∷ []) s l.1, h acc (c ∷ s) l)

  match-IsNever : (r : Regex) (k : Rest) → IsNever k → IsNever (match r k)
  unfolding match or_else
  match-IsNever (one p) k h acc [] l = refl
  match-IsNever (one p) k h acc (c ∷ s) l = ground (arith, h (acc ++ c ∷ []) s l.1)
  match-IsNever (opt p) k h acc [] l = h acc [] l
  match-IsNever (opt p) k h acc (c ∷ s) l = ground (arith, h (acc ++ c ∷ []) s l.1, h acc (c ∷ s) l)
  match-IsNever (many p) k h acc s l = match_many-IsNever p k h acc s l
  match-IsNever (seq r t) k h acc s l = match-IsNever r (match t k) (match-IsNever t k h) acc s l
  match-IsNever (alt r t) k h acc s l =
      rw (match-IsNever r k h acc s l) (match-IsNever t k h acc s l)
  match-IsNever empty k h acc s l = h acc s l

  Needs-IsNever : (r : Regex) (k : Rest) → Needs q r → IsNever (match r k)
  unfolding match or_else
  Needs-IsNever (one p) k n acc [] l = refl
  Needs-IsNever (one p) k n acc (c ∷ s) l = ground (arith, n c, l.0)
  Needs-IsNever (opt p) k n acc s l = absurd n
  Needs-IsNever (many p) k n acc s l = absurd n
  Needs-IsNever (seq r t) k (inl n) acc s l = Needs-IsNever r (match t k) n acc s l
  Needs-IsNever (seq r t) k (inr n) acc s l =
      match-IsNever r (match t k) (Needs-IsNever t k n) acc s l
  Needs-IsNever (alt r t) k n acc s l =
      rw (Needs-IsNever r k n.0 acc s l) (Needs-IsNever t k n.1 acc s l)
  Needs-IsNever empty k n acc s l = absurd n

  pub sub-Lacks : (p : Pattern) (mark s : List ℕ) → Needs q p.groups → Lacks q s → sub p mark s ≡ s
  unfolding sub sub_from
  sub-Lacks p mark [] n l = refl
  sub-Lacks p mark (c ∷ s) n l =
      sub_from-none p mark c s
        (unfold match_at in Needs-IsNever p.groups (finish p.tail) n [] (c ∷ s) l)
      ∙ ap (◌∷◌ c) (sub-Lacks p mark s n l.1)
