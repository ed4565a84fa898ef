-- ===== src/Cache/Gaps.antt =====
-- missing_ranges: what the gaps cover, and where they lie.
use funding_tool.Prelude.{
  ℕ, ◌+◌, ◌≤◌, ◌<◌, ◌⊎◌, inl, inr, Bool-cases, List, [], ◌∷◌, ◌++◌, All, arith,
}
use funding_tool.Time.{DateTime}
use funding_tool.Models.{FundingEvent}
use funding_tool.Cache.{
  tolerance, exceeds, after_interval, leading_gap, interior_gap, trailing_gap, gaps_after, gaps,
}

-- Some gap contains the instant, its ends included.
abbrev pub InSome : ℕ → List (DateTime × DateTime) → Type 0
InSome t [] = ⊥
InSome t (g ∷ gs) = ((g.0.us ≤ t) × (t ≤ g.1.us)) ⊎ InSome t gs

-- The instant is farther from the event than the tolerance of the event's interval.
abbrev pub IsFar : ℕ → FundingEvent → Type 0
IsFar t ev = (ev.timestamp.us + tolerance ev < t) ⊎ (t + tolerance ev < ev.timestamp.us)

InSome-right : (t : ℕ) (gs hs : List (DateTime × DateTime)) → InSome t hs → InSome t (gs ++ hs)
InSome-right t [] hs h = h
InSome-right t (g ∷ gs) hs h = inr (InSome-right t gs hs h)

InSome-left : (t : ℕ) (gs hs : List (DateTime × DateTime)) → InSome t gs → InSome t (gs ++ hs)
InSome-left t (g ∷ gs) hs (inl h) = inl h
InSome-left t (g ∷ gs) hs (inr h) = inr (InSome-left t gs hs h)
InSome-left t [] hs h = absurd h

in_leading :
    (start : DateTime) (first : FundingEvent) (t : ℕ)
    → start.us ≤ t
    → t + tolerance first < first.timestamp.us
    → InSome t (leading_gap start first)
unfolding leading_gap
in_leading start first t lo hi = ground arith

in_interior :
    (prev nxt : FundingEvent) (t : ℕ)
    → prev.timestamp.us + tolerance prev < t
    → t + tolerance nxt < nxt.timestamp.us
    → InSome t (interior_gap prev nxt)
unfolding interior_gap after_interval
in_interior prev nxt t lo hi = ground arith

in_trailing :
    (last : FundingEvent) (end : DateTime) (t : ℕ)
    → last.timestamp.us + tolerance last < t
    → t ≤ end.us
    → InSome t (trailing_gap last end)
unfolding trailing_gap after_interval
in_trailing last end t lo hi = ground arith

gaps_after_cover :
    (prev : FundingEvent) (rest : List FundingEvent) (end : DateTime) (t : ℕ)
    → prev.timestamp.us + tolerance prev < t
    → t ≤ end.us
    → All (IsFar t) rest
    → InSome t (gaps_after prev rest end)
unfolding gaps_after
gaps_after_cover prev [] end t lo hi far = in_trailing prev end t lo hi
gaps_after_cover prev (nxt ∷ rest) end t lo hi (inl behind, far) =
    InSome-right t (interior_gap prev nxt) _ (gaps_after_cover nxt rest end t behind hi far)
gaps_after_cover prev (nxt ∷ rest) end t lo hi (inr ahead, far) =
    InSome-left t _ _ (in_interior prev nxt t lo ahead)

-- No instant is overlooked: one between `start` and `end` that is farther than 1.5 intervals from
-- every cached event lies in a reported gap.
pub gaps-cover :
    (cached : List FundingEvent) (start end : DateTime) (t : ℕ)
    → start.us ≤ t
    → t ≤ end.us
    → All (IsFar t) cached
    → InSome t (gaps cached start end)
unfolding gaps
gaps-cover [] start end t lo hi far = inl (lo, hi)
gaps-cover (first ∷ rest) start end t lo hi (inl behind, far) =
    InSome-right t (leading_gap start first) _ (gaps_after_cover first rest end t behind hi far)
gaps-cover (first ∷ rest) start end t lo hi (inr ahead, far) =
    InSome-left t _ _ (in_leading start first t lo ahead)

-- The times of the events ascend from `lo`, and stay at or below `hi`.
abbrev pub Within : ℕ → ℕ → List FundingEvent → Type 0
Within lo hi [] = lo ≤ hi
Within lo hi (ev ∷ evs) = (lo ≤ ev.timestamp.us) × Within ev.timestamp.us hi evs

-- Gaps that are not empty, in order, disjoint, and between `lo` and `hi`.
abbrev pub Disjoint : ℕ → ℕ → List (DateTime × DateTime) → Type 0
Disjoint lo hi [] = Unit
Disjoint lo hi (g ∷ gs) = (lo ≤ g.0.us) × (g.0.us < g.1.us) × (g.1.us ≤ hi) × Disjoint g.1.us hi gs

Disjoint-later :
    (lo lo' hi : ℕ) (gs : List (DateTime × DateTime))
    → lo ≤ lo'
    → Disjoint lo' hi gs
    → Disjoint lo hi gs
Disjoint-later lo lo' hi [] h d = tt
Disjoint-later lo lo' hi (g ∷ gs) h d = (omega arith, d.1, d.2, d.3)

Within-le : (lo hi : ℕ) (evs : List FundingEvent) → Within lo hi evs → lo ≤ hi
Within-le lo hi [] h = h
Within-le lo hi (ev ∷ evs) h = omega (arith, Within-le ev.timestamp.us hi evs h.1)

gaps_after-Disjoint :
    (prev : FundingEvent) (rest : List FundingEvent) (end : DateTime)
    → Within prev.timestamp.us end.us rest
    → Disjoint prev.timestamp.us end.us (gaps_after prev rest end)
unfolding gaps_after interior_gap trailing_gap after_interval
gaps_after-Disjoint prev [] end h = ground arith
gaps_after-Disjoint prev (nxt ∷ rest) end h =
    let ih = gaps_after-Disjoint nxt rest end h.1 in
    let le = Within-le nxt.timestamp.us end.us rest h.1 in
    elim (Bool-cases (exceeds nxt.timestamp.us prev.timestamp.us (tolerance prev))) [
      | inl gap ↦ rw gap (omega arith, ground arith, le, ih)
      | inr none' ↦ rw none' (Disjoint-later _ nxt.timestamp.us end.us _ h.0 ih)
    ]

-- Over cached events that ascend within the window the gaps are not empty, lie within the window,
-- and follow one another without overlap.
pub gaps-Disjoint :
    (cached : List FundingEvent) (start end : DateTime)
    → start.us < end.us
    → Within start.us end.us cached
    → Disjoint start.us end.us (gaps cached start end)
unfolding gaps leading_gap
gaps-Disjoint [] start end lt h = (omega arith, lt, omega arith, tt)
gaps-Disjoint (first ∷ rest) start end lt h =
    let ih = gaps_after-Disjoint first rest end h.1 in
    let le = Within-le first.timestamp.us end.us rest h.1 in
    elim (Bool-cases (exceeds first.timestamp.us start.us (tolerance first))) [
      | inl gap ↦ rw gap (omega arith, ground arith, le, ih)
      | inr none' ↦ rw none' (Disjoint-later _ first.timestamp.us end.us _ h.0 ih)
    ]
