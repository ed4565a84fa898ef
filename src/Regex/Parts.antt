-- ===== src/Regex/Parts.antt =====
-- A match is of a part of the text, and no match goes over a character that no class has.
use funding_tool.Prelude.{
  ℕ, zero, suc, ◌+◌, ◌-◌, ◌≤◌, ◌≡◌, refl, sym, ap, subst, ◌∙◌, ◌⊎◌, inl, inr, Bool, true, false,
  if◌then◌else◌, Option, none, some, Option-cases, List, [], ◌∷◌, ◌++◌, length, length-append, All,
  arith,
}
use mathlib.Core.List.{append_assoc}
use funding_tool.Regex.{
  Regex, one, opt, many, seq, alt, empty, Match, Rest, or_else, match_many, match, count_while,
  finish, Pattern, match_at, sub_from,
}

-- How a match ends: the text is split where the groups end.
abbrev pub Ends : Rest → List ℕ → List ℕ → Match → Type 0
Ends k acc s m =
    (kept : List ℕ) × (left : List ℕ) × (kept ++ left ≡ acc ++ s) × (k kept left ≡ some m)

or_else-some : (a b : Option Match) (m : Match) → or_else a b ≡ some m → (a ≡ some m) ⊎ (b ≡ some m)
unfolding or_else
or_else-some none b m h = inr h
or_else-some (some a) b m h = inl h

next-Ends :
    (k : Rest) (acc : List ℕ) (c : ℕ) (s : List ℕ) (m : Match)
    → Ends k (acc ++ c ∷ []) s m
    → Ends k acc (c ∷ s) m
next-Ends k acc c s m (kept, left, e, f) = (kept, left, e ∙ append_assoc acc (c ∷ []) s, f)

if-some : (b : Bool) (o : Option Match) (m : Match) → (if b then o else none) ≡ some m → o ≡ some m
if-some true o m h = h
if-some false o m h = cc

match_many-Ends :
    (p : ℕ → Bool) (k : Rest) (acc s : List ℕ) (m : Match)
    → match_many p k acc s ≡ some m
    → Ends k acc s m
unfolding match_many
match_many-Ends p k acc [] m h = (acc, [], refl, h)
match_many-Ends p k acc (c ∷ s) m h = elim (or_else-some _ _ m h) [
  | inl e ↦ next-Ends k acc c s m (match_many-Ends p k (acc ++ c ∷ []) s m (if-some (p c) _ m e))
  | inr e ↦ (acc, c ∷ s, refl, e)
]

pub match-Ends :
    (r : Regex) (k : Rest) (acc s : List ℕ) (m : Match) → match r k acc s ≡ some m → Ends k acc s m
unfolding match
match-Ends (one p) k acc [] m h = cc
match-Ends (one p) k acc (c ∷ s) m h =
    next-Ends k acc c s m (acc ++ c ∷ [], s, refl, if-some (p c) _ m h)
match-Ends (opt p) k acc [] m h = (acc, [], refl, h)
match-Ends (opt p) k acc (c ∷ s) m h = elim (or_else-some _ _ m h) [
  | inl e ↦ next-Ends k acc c s m (acc ++ c ∷ [], s, refl, if-some (p c) _ m e)
  | inr e ↦ (acc, c ∷ s, refl, e)
]
match-Ends (many p) k acc s m h = match_many-Ends p k acc s m h
match-Ends (seq r q) k acc s m h =
    let (kept, left, e, f) = match-Ends r (match q k) acc s m h in
    let (kept', left', e', f') = match-Ends q k kept left m f in (kept', left', e' ∙ e, f')
match-Ends (alt r q) k acc s m h = elim (or_else-some _ _ m h) [
  | inl e ↦ match-Ends r k acc s m e
  | inr e ↦ match-Ends q k acc s m e
]
match-Ends empty k acc s m h = (acc, s, refl, h)

-- A character that no class of a pattern has.
abbrev pub Avoids : ℕ → Regex → Type 0
Avoids b (one p) = p b ≡ false
Avoids b (opt p) = p b ≡ false
Avoids b (many p) = p b ≡ false
Avoids b (seq r q) = Avoids b r × Avoids b q
Avoids b (alt r q) = Avoids b r × Avoids b q
Avoids b empty = Unit

module _ (b : ℕ) (y : List ℕ) where
  -- What follows does not see the character, nor what is behind it.
  abbrev IsLocal : Rest → Type 0
  IsLocal k = (acc s : List ℕ) → k acc (s ++ b ∷ y) ≡ k acc s

  match_many-IsLocal :
      (p : ℕ → Bool) (k : Rest) → p b ≡ false → IsLocal k → IsLocal (match_many p k)
  unfolding match_many or_else
  match_many-IsLocal p k a h acc [] = rw a (h acc [])
  match_many-IsLocal p k a h acc (c ∷ s) =
      rw (match_many-IsLocal p k a h (acc ++ c ∷ []) s) (rw (h acc (c ∷ s)) refl)

  match-IsLocal : (r : Regex) (k : Rest) → Avoids b r → IsLocal k → IsLocal (match r k)
  unfolding match or_else
  match-IsLocal (one p) k a h acc [] = rw a refl
  match-IsLocal (one p) k a h acc (c ∷ s) = rw (h (acc ++ c ∷ []) s) refl
  match-IsLocal (opt p) k a h acc [] = rw a (h acc [])
  match-IsLocal (opt p) k a h acc (c ∷ s) = rw (h (acc ++ c ∷ []) s) (rw (h acc (c ∷ s)) refl)
  match-IsLocal (many p) k a h acc s = match_many-IsLocal p k a h acc s
  match-IsLocal (seq r q) k a h acc s =
      match-IsLocal r (match q k) a.0 (match-IsLocal q k a.1 h) acc s
  match-IsLocal (alt r q) k a h acc s =
      rw (match-IsLocal r k a.0 h acc s) (rw (match-IsLocal q k a.1 h acc s) refl)
  match-IsLocal empty k a h acc s = h acc s

  count_while_local :
      (p : ℕ → Bool) → p b ≡ false → (s : List ℕ) → count_while p (s ++ b ∷ y) ≡ count_while p s
  unfolding count_while
  count_while_local p a [] = rw a refl
  count_while_local p a (c ∷ s) = rw (count_while_local p a s) refl

  finish-IsLocal : (p : ℕ → Bool) → p b ≡ false → IsLocal (finish p)
  unfolding finish
  finish-IsLocal p a acc s = rw (count_while_local p a s) refl

  pub match_at_local :
      (p : Pattern)
      → Avoids b p.groups
      → p.tail b ≡ false
      → (s : List ℕ) → match_at p (s ++ b ∷ y) ≡ match_at p s
  unfolding match_at
  match_at_local p a t s = match-IsLocal p.groups (finish p.tail) a (finish-IsLocal p.tail t) [] s

count_while-le : (p : ℕ → Bool) (s : List ℕ) → count_while p s ≤ length s
unfolding count_while
count_while-le p [] = omega arith
count_while-le p (c ∷ s) = ground (arith, count_while-le p s)

-- A match is no longer than the text.
pub match_at-le :
    (p : Pattern) (s kept : List ℕ) (dropped : ℕ)
    → match_at p s ≡ some (kept, dropped)
    → length kept + dropped ≤ length s
unfolding match_at finish
match_at-le p s kept dropped h =
    let (kept', left, e, f) = match-Ends p.groups (finish p.tail) [] s (kept, dropped) h in
    let same : kept' ≡ kept = cc in
    let rest : count_while p.tail left ≡ dropped = cc in
    omega (arith, ap length e, ap length same, length-append kept' left, count_while-le p.tail left)

pub sub_from-none :
    (p : Pattern) (mark : List ℕ) (c : ℕ) (s : List ℕ)
    → match_at p (c ∷ s) ≡ none
    → sub_from p mark 0 (c ∷ s) ≡ c ∷ sub_from p mark 0 s
unfolding sub_from
sub_from-none p mark c s e = rw (e, sub_from) refl

pub sub_from-some :
    (p : Pattern) (mark : List ℕ) (c : ℕ) (s kept : List ℕ) (dropped : ℕ)
    → match_at p (c ∷ s) ≡ some (kept, dropped)
    → sub_from p mark 0 (c ∷ s) ≡ kept ++ mark ++ sub_from p mark (length kept + dropped - 1) s
unfolding sub_from
sub_from-some p mark c s kept dropped e = rw (e, sub_from) refl

-- What is put for a text with a character that no match has: the two sides are done apart.
pub sub_from-append :
    (p : Pattern) (mark : List ℕ) (b : ℕ) (y : List ℕ)
    → match_at p [] ≡ none
    → Avoids b p.groups
    → p.tail b ≡ false
    → (n : ℕ) (x : List ℕ) → n ≤ length x
    → sub_from p mark n (x ++ b ∷ y) ≡ sub_from p mark n x ++ b ∷ sub_from p mark 0 y
unfolding sub_from
sub_from-append p mark b y some_char a t zero [] h =
    sub_from-none p mark b y (match_at_local b y p a t [] ∙ some_char)
sub_from-append p mark b y some_char a t (suc n) [] h = elim h [ ]
sub_from-append p mark b y some_char a t (suc n) (c ∷ x) h =
    sub_from-append p mark b y some_char a t n x (omega arith)
sub_from-append p mark b y some_char a t zero (c ∷ x) h =
    let there = match_at_local b y p a t (c ∷ x) in
    elim (Option-cases (match_at p (c ∷ x))) [
      | inl e ↦
          sub_from-none p mark c (x ++ b ∷ y) (there ∙ e)
          ∙ ap (◌∷◌ c) (sub_from-append p mark b y some_char a t zero x (omega arith))
          ∙ ap (λ s. s ++ b ∷ sub_from p mark 0 y) (sym (sub_from-none p mark c x e))
      | inr ((kept, dropped), e) ↦
          let short : length kept + dropped ≤ suc (length x) =
            match_at-le p (c ∷ x) kept dropped e in
          sub_from-some p mark c (x ++ b ∷ y) kept dropped (there ∙ e)
          ∙ ap (λ s. kept ++ mark ++ s)
              (sub_from-append p mark b y some_char a t (length kept + dropped - 1) x (omega arith))
          ∙ sym (
              append_assoc (kept ++ mark) (sub_from p mark (length kept + dropped - 1) x)
                (b ∷ sub_from p mark 0 y))
          ∙ ap (λ s. s ++ b ∷ sub_from p mark 0 y) (sym (sub_from-some p mark c x kept dropped e))
    ]

-- A text that lies in a match is dropped.
pub sub_from_all :
    (p : Pattern) (mark : List ℕ) (n : ℕ) (s : List ℕ) → length s ≤ n → sub_from p mark n s ≡ []
unfolding sub_from
sub_from_all p mark n [] h = refl
sub_from_all p mark zero (c ∷ s) h = absurd (omega arith)
sub_from_all p mark (suc n) (c ∷ s) h = sub_from_all p mark n s (omega arith)

All-++ :
    (P : ℕ → Type 0) (xs ys : List ℕ)
    → (All P (xs ++ ys) → All P xs × All P ys) × (All P xs → All P ys → All P (xs ++ ys))
All-++ P [] ys = (λ h. (tt, h), λ _ h. h)
All-++ P (x ∷ xs) ys =
    let ih = All-++ P xs ys in (λ h. ((h.0, (ih.0 h.1).0), (ih.0 h.1).1), λ h k. (h.0, ih.1 h.1 k))

kept-All :
    (P : ℕ → Type 0) (p : Pattern) (s kept : List ℕ) (dropped : ℕ)
    → match_at p s ≡ some (kept, dropped)
    → All P s
    → All P kept
unfolding match_at finish
kept-All P p s kept dropped h all =
    let (kept', left, e, f) = match-Ends p.groups (finish p.tail) [] s (kept, dropped) h in
    let same : kept' ≡ kept = cc in
    subst (All P) same ((All-++ P kept' left).0 (subst (All P) (sym e) all)).0

-- A class that has the characters of a text and of the mark has those of what is put for it.
pub sub_from-All :
    (P : ℕ → Type 0) (p : Pattern) (mark : List ℕ)
    → All P mark
    → (n : ℕ) (s : List ℕ) → All P s
    → All P (sub_from p mark n s)
unfolding sub_from
sub_from-All P p mark m n [] h = tt
sub_from-All P p mark m (suc n) (c ∷ s) h = sub_from-All P p mark m n s h.1
sub_from-All P p mark m zero (c ∷ s) h = elim (Option-cases (match_at p (c ∷ s))) [
  | inl e ↦
      subst (All P) (sym (sub_from-none p mark c s e)) (h.0, sub_from-All P p mark m zero s h.1)
  | inr ((kept, dropped), e) ↦ subst (All P) (sym (sub_from-some p mark c s kept dropped e)) (
      (All-++ P (kept ++ mark) _).1
        ((All-++ P kept mark).1 (kept-All P p (c ∷ s) kept dropped e h) m)
        (sub_from-All P p mark m (length kept + dropped - 1) s h.1))
]
