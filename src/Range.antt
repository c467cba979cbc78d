-- ===== src/Range.antt =====
-- include/range.h: inclusive ranges of uint64_t values, and how two of them lie to each other.
pub mod Tests
use zeptux.Base.{
  ℕ, ◌+◌, ◌-◌, ◌%◌, ◌^◌, ◌≤◌, ◌<◌, Bool, true, false, ◌&&◌, ◌||◌, ◌≡◌, ◌↔◌, ◌⊎◌, ◌==◌, ltb, leb,
  if◌then◌else◌, arith, refl,
}

-- `range_pair_t`, both ends inclusive.
pub record RangePair : Type 0 where
  pub from : ℕ
  pub to : ℕ

-- `range_interact_t`
pub data RangeInteract : Type 0 where
  separate adjacent overlap coincide : RangeInteract

unfoldable pub range_within : RangePair → ℕ → Bool
range_within range n = leb range.from n && leb n range.to

-- The sums are uint64_t, and wrap.
unfoldable pub range_compare : RangePair → RangePair → RangeInteract
unfolding range_within
range_compare a b =
    let a_from = range_within b a.from in
    let a_to = range_within b a.to in
    let b_from = range_within a b.from in
    let b_to = range_within a b.to in
    if (a_from && a_to) || (b_from && b_to)
    then coincide
    else if b_from || b_to
    then overlap
    else if ((a.to + 1) % 2 ^ 64 == b.from) || ((b.to + 1) % 2 ^ 64 == a.from)
    then adjacent
    else separate

-- A range of uint64_t values that is not empty, and ends below the largest value.
pub record IsRange (r : RangePair) : Type 0 where
  pub ordered : r.from ≤ r.to
  pub fits : r.to + 1 < 2 ^ 64

abbrev pub Contains : RangePair → RangePair → Type 0
Contains a b = (a.from ≤ b.from) × (b.to ≤ a.to)

-- `a` begins first, and they share a value but `b` ends last.
abbrev pub Crosses : RangePair → RangePair → Type 0
Crosses a b = (a.from < b.from) × (b.from ≤ a.to) × (a.to < b.to)

module _ (a b : RangePair) (ra : IsRange a) (rb : IsRange b) where
  coincide_iff : (range_compare a b ≡ coincide) ↔ (Contains b a ⊎ Contains a b)
  unfolding range_compare
  coincide_iff = (λ h. ground arith, λ h. ground arith)

  overlap_iff : (range_compare a b ≡ overlap) ↔ (Crosses a b ⊎ Crosses b a)
  unfolding range_compare
  overlap_iff = (λ h. ground arith, λ h. ground arith)

  adjacent_iff : (range_compare a b ≡ adjacent) ↔ ((a.to + 1 ≡ b.from) ⊎ (b.to + 1 ≡ a.from))
  unfolding range_compare
  adjacent_iff = (λ h. ground arith, λ h. ground arith)

  separate_iff : (range_compare a b ≡ separate) ↔ ((a.to + 1 < b.from) ⊎ (b.to + 1 < a.from))
  unfolding range_compare
  separate_iff = (λ h. ground arith, λ h. ground arith)

  -- For ranges that are not empty and end below 2 ^ 64 - 1, each answer of `range_compare` is
  -- given exactly when it should be: one range contains the other; they share values and neither
  -- contains the other; one begins right behind the other; a gap lies between them.
  pub range_compare_lem :
      ((range_compare a b ≡ coincide) ↔ (Contains b a ⊎ Contains a b))
      × ((range_compare a b ≡ overlap) ↔ (Crosses a b ⊎ Crosses b a))
      × ((range_compare a b ≡ adjacent) ↔ ((a.to + 1 ≡ b.from) ⊎ (b.to + 1 ≡ a.from)))
      × ((range_compare a b ≡ separate) ↔ ((a.to + 1 < b.from) ⊎ (b.to + 1 < a.from)))
  range_compare_lem = (coincide_iff, overlap_iff, adjacent_iff, separate_iff)

-- Where one range begins at 0 and the other ends at 2 ^ 64 - 1, the sum wraps: with a gap of any
-- size between them the two are called adjacent.
pub range_compare_wraps :
    (a b : RangePair)
    → a.from ≡ 0
    → b.to ≡ 2 ^ 64 - 1
    → a.to + 1 < b.from
    → b.from ≤ b.to
    → range_compare a b ≡ adjacent
unfolding range_compare
range_compare_wraps a b p q r s = ground arith
