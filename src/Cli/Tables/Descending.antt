-- ===== src/Cli/Tables/Descending.antt =====
-- The order of the totals by symbol: the largest amount first.
use mathlib.Core.List.Perm
use mathlib.Core.List.{Perm}
use funding_tool.Prelude.{
  ℕ, ◌≡◌, refl, ◌≤◌, ◌-◌, Bool, true, false, not, ◌==◌, if◌then◌else◌, Bool-cases, inl, inr, List,
  [], ◌∷◌, All, arith,
}
use funding_tool.Prelude.Int.{ℤ, pos, negsuc, min_ℤ}
use funding_tool.Decimal.{Decimal, aligned, digits, excess, rounded, fix}
use funding_tool.Cli.Tables.{
  signed_le, decimal_le, Item, insert_item, sorted_items, larger_first, negated,
}

min_ℤ_comm : (a b : ℤ) → min_ℤ a b ≡ min_ℤ b a
unfolding min_ℤ
min_ℤ_comm (pos m) (pos n) = ground arith
min_ℤ_comm (pos m) (negsuc n) = ground arith
min_ℤ_comm (negsuc m) (pos n) = ground arith
min_ℤ_comm (negsuc m) (negsuc n) = ground arith

signed_le_total :
    (s : Bool) (x : ℕ) (t : Bool) (y : ℕ) → signed_le s x t y ≡ false → signed_le t y s x ≡ true
unfolding signed_le
signed_le_total true x true y h = ground arith
signed_le_total true x false y h = cc
signed_le_total false x true y h = refl
signed_le_total false x false y h = ground arith

decimal_le_total : (a b : Decimal) → decimal_le a b ≡ false → decimal_le b a ≡ true
unfolding decimal_le
decimal_le_total a b h =
    rw (min_ℤ_comm b.exp a.exp) (
      signed_le_total a.neg (aligned a (min_ℤ a.exp b.exp)) b.neg (aligned b (min_ℤ a.exp b.exp)) h)

-- An item may stand in front of a list whose first item does not go before it.
abbrev Precedes : Item → List Item → Type 0
Precedes x [] = Unit
Precedes x (y ∷ ys) = larger_first x y ≡ true

abbrev IsSorted : List Item → Type 0
IsSorted [] = Unit
IsSorted (x ∷ xs) = Precedes x xs × IsSorted xs

larger_first_total : (x y : Item) → larger_first x y ≡ false → larger_first y x ≡ true
unfolding larger_first
larger_first_total x y h = decimal_le_total (negated x.1) (negated y.1) h

insert_item-Precedes :
    (z x : Item) (ys : List Item)
    → larger_first z x ≡ true
    → Precedes z ys
    → Precedes z (insert_item larger_first x ys)
unfolding insert_item
insert_item-Precedes z x [] h p = h
insert_item-Precedes z x (y ∷ ys) h p = elim (Bool-cases (larger_first x y)) [
  | inl e ↦ rw e h
  | inr e ↦ rw e p
]

insert_item-IsSorted :
    (x : Item) (ys : List Item) → IsSorted ys → IsSorted (insert_item larger_first x ys)
unfolding insert_item
insert_item-IsSorted x [] d = (tt, tt)
insert_item-IsSorted x (y ∷ ys) d = elim (Bool-cases (larger_first x y)) [
  | inl e ↦ rw e (e, d)
  | inr e ↦
      rw e
        (insert_item-Precedes y x ys (larger_first_total x y e) d.0, insert_item-IsSorted x ys d.1)
]

pub sorted_items-IsSorted : (xs : List Item) → IsSorted (sorted_items larger_first xs)
unfolding sorted_items
sorted_items-IsSorted [] = tt
sorted_items-IsSorted (x ∷ xs) =
    insert_item-IsSorted x (sorted_items larger_first xs) (sorted_items-IsSorted xs)

-- One signed number is at least another one.
abbrev IsAtLeast : Bool → ℕ → Bool → ℕ → Type 0
IsAtLeast false x false y = y ≤ x
IsAtLeast false x true y = Unit
IsAtLeast true x false y = (x ≡ 0) × (y ≡ 0)
IsAtLeast true x true y = x ≤ y

-- One decimal is at least another one: their coefficients at the lower of the two exponents.
abbrev pub IsNoLess : Decimal → Decimal → Type 0
IsNoLess a b = let e = min_ℤ a.exp b.exp in IsAtLeast a.neg (aligned a e) b.neg (aligned b e)

-- No amount is less than the one of the next item.
abbrev pub IsDescending : List Item → Type 0
IsDescending [] = Unit
IsDescending (x ∷ []) = Unit
IsDescending (x ∷ y ∷ ys) = IsNoLess x.1 y.1 × IsDescending (y ∷ ys)

-- An amount of at most 28 digits, as sums of the context have.
abbrev pub HasFewDigits : Item → Type 0
HasFewDigits x = digits x.1.coeff x.1.coeff ≤ 28

fix-HasFewDigits : (d : Decimal) → digits d.coeff d.coeff ≤ 28 → fix d ≡ d
unfolding fix rounded excess
fix-HasFewDigits d h =
    let none_beyond : digits d.coeff d.coeff - 28 ≡ 0 = omega arith in rw none_beyond refl

flipped_order :
    (s : Bool) (c x : ℕ) (t : Bool) (d y : ℕ)
    → (c ≡ 0 → x ≡ 0)
    → (d ≡ 0 → y ≡ 0)
    → signed_le (if c == 0 then false else not s) x (if d == 0 then false else not t) y ≡ true
    → IsAtLeast s x t y
unfolding signed_le
flipped_order true c x true d y f g h = ground arith
flipped_order true c x false d y f g h = ground arith
flipped_order false c x true d y f g h = tt
flipped_order false c x false d y f g h = ground arith

aligned-zero : (a : Decimal) (e : ℤ) → a.coeff ≡ 0 → aligned a e ≡ 0
unfolding aligned
aligned-zero a e h = rw h (omega arith)

larger_first-IsNoLess :
    (x y : Item) → HasFewDigits x → HasFewDigits y → larger_first x y ≡ true → IsNoLess x.1 y.1
unfolding larger_first negated decimal_le aligned
larger_first-IsNoLess x y few_x few_y h =
    let e = min_ℤ x.1.exp y.1.exp in
    flipped_order x.1.neg x.1.coeff (aligned x.1 e) y.1.neg y.1.coeff (aligned y.1 e)
      (aligned-zero x.1 e) (aligned-zero y.1 e)
      (rw
        (
          fix-HasFewDigits (record x.1 { neg = if x.1.coeff == 0 then false else not x.1.neg })
              few_x,
          fix-HasFewDigits (record y.1 { neg = if y.1.coeff == 0 then false else not y.1.neg })
              few_y,
        )
        at h)

pub IsSorted-IsDescending : (xs : List Item) → All HasFewDigits xs → IsSorted xs → IsDescending xs
IsSorted-IsDescending [] few s = tt
IsSorted-IsDescending (x ∷ []) few s = tt
IsSorted-IsDescending (x ∷ y ∷ ys) few s =
    (larger_first-IsNoLess x y few.0 few.1.0 s.0, IsSorted-IsDescending (y ∷ ys) few.1 s.1)

All-insert_item :
    (P : Item → Type 0) (first : Item → Item → Bool) (x : Item) (ys : List Item)
    → P x
    → All P ys
    → All P (insert_item first x ys)
unfolding insert_item
All-insert_item P first x [] p ps = (p, tt)
All-insert_item P first x (y ∷ ys) p ps = elim (Bool-cases (first x y)) [
  | inl e ↦ rw e (p, ps)
  | inr e ↦ rw e (ps.0, All-insert_item P first x ys p ps.1)
]

pub All-sorted_items :
    (P : Item → Type 0) (first : Item → Item → Bool) (xs : List Item)
    → All P xs
    → All P (sorted_items first xs)
unfolding sorted_items
All-sorted_items P first [] ps = tt
All-sorted_items P first (x ∷ xs) ps =
    All-insert_item P first x (sorted_items first xs) ps.0 (All-sorted_items P first xs ps.1)

insert_item-perm :
    (first : Item → Item → Bool) (x : Item) (ys : List Item)
    → Perm (insert_item first x ys) (x ∷ ys)
unfolding insert_item
insert_item-perm first x [] = Perm.refl (x ∷ [])
insert_item-perm first x (y ∷ ys) = elim (Bool-cases (first x y)) [
  | inl e ↦ rw e (Perm.refl (x ∷ y ∷ ys))
  | inr e ↦ rw e (Perm.trans (Perm.cons y (insert_item-perm first x ys)) (Perm.swap x y ys))
]

pub sorted_items-perm :
    (first : Item → Item → Bool) (xs : List Item) → Perm (sorted_items first xs) xs
unfolding sorted_items
sorted_items-perm first [] = Perm.refl []
sorted_items-perm first (x ∷ xs) =
    Perm.trans (insert_item-perm first x (sorted_items first xs))
      (Perm.cons x (sorted_items-perm first xs))
