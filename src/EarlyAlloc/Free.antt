-- ===== src/EarlyAlloc/Free.antt =====
-- `early_page_free` gives back what the allocator took.
use zeptux.Base.{
  ◌^◌, ℕ, zero, suc, ◌/◌, ◌<◌, true, false, not, List, [], ◌∷◌, Option, some, ◌≡◌, ◌≢◌, refl, sym,
  ap, ◌∙◌, subst, ◌==◌, if◌then◌else◌, arith, Bool-cases, inl, inr, ==_self, length, get_or,
  get_or-set,
}
use zeptux.Bitmap.Defs.{bitmap_is_set}
use zeptux.Bitmap.View.{member-clear, is_set-member}
use zeptux.EarlyAlloc.{
  EarlyPageAllocSpan, EarlyPageAllocState, EarlyAllocType, no_span, span_at, in_span, find_span,
  phys_to_span_offset, free_in, free_page, early_alloc, early_page_free,
}
use zeptux.EarlyAlloc.Laws.{Allocated, AllValid, AllocResult, taken, early_alloc-Allocated}

find_span-first :
    (spans : List EarlyPageAllocSpan) (pa i : ℕ)
    → i < length spans
    → in_span (get_or spans i no_span) pa ≡ true
    → ((k : ℕ) → k < length spans → k ≢ i → in_span (get_or spans k no_span) pa ≡ false)
    → find_span spans pa ≡ some i
unfolding find_span
find_span-first [] pa i h inside out = absurd (omega arith)
find_span-first (span ∷ spans) pa zero h inside out = rw inside refl
find_span-first (span ∷ spans) pa (suc i) h inside out =
    let first : in_span span pa ≡ false = out 0 (omega arith) (λ e. absurd (omega arith)) in
    let rest =
      find_span-first spans pa i (omega arith) inside
        (λ k lt ne. out (suc k) (omega arith) λ e. ne (omega arith)) in
    rw (first, rest) refl

-- What the call that returned `pa` did.
allocated :
    (s : EarlyPageAllocState) (ty : EarlyAllocType) (pa : ℕ) (t : EarlyPageAllocState)
    → AllValid s.spans
    → early_alloc s ty ≡ some (pa, t)
    → Allocated s pa t
allocated s ty pa t v e = subst (AllocResult s) e (early_alloc-Allocated s ty v)

-- What a free leaves behind: the pages that are taken in `s`, and their number.
pub record GivenBack (s : EarlyPageAllocState) (r : Option EarlyPageAllocState) : Type 0 where
  pub final : EarlyPageAllocState
  pub returns : r ≡ some final
  pub same_taken : (k j : ℕ) → taken (span_at final k) j ≡ taken (span_at s k) j
  pub same_count : final.num_allocated_pages ≡ s.num_allocated_pages

-- The page's own span, and no other, holds its address.
abbrev pub OnlyIn : EarlyPageAllocState → ℕ → ℕ → Type 0
OnlyIn s pa i = (k : ℕ) → k < length s.spans → k ≢ i → in_span (span_at s k) pa ≡ false

module _ (s : EarlyPageAllocState) (pa : ℕ) (t : EarlyPageAllocState) (a : Allocated s pa t)
    (only : OnlyIn s pa a.span) (count : s.num_allocated_pages < 2 ^ 64) where
  found : find_span t.spans pa ≡ some a.span
  found = find_span-first t.spans pa a.span (omega (arith, a.same_length, a.span_inside)) inside out
    where
      inside : in_span (span_at t a.span) pa ≡ true
      inside = ground (arith, a.same_start, a.same_pages, a.address, a.offset_inside)

      out : (k : ℕ) → k < length t.spans → k ≢ a.span → in_span (span_at t k) pa ≡ false
      out k h ne = rw (a.others k (λ e. ne (sym e))) (only k (omega (arith, a.same_length)) ne)

  offset_back : phys_to_span_offset (span_at t a.span) pa ≡ a.offset
  unfolding phys_to_span_offset
  offset_back = omega (arith, a.same_start, a.address)

  was_set : bitmap_is_set (span_at t a.span).alloc_bitmap a.offset ≡ true
  was_set =
      is_set-member (span_at t a.span).alloc_bitmap a.offset
      ∙ a.now a.offset
      ∙ (rw (==_self a.offset) refl)

  final_state : EarlyPageAllocState
  final_state = free_page t a.span a.offset

  freed : free_in t pa a.span ≡ some final_state
  unfolding free_in final_state
  freed = rw (offset_back, was_set) refl

  room : a.offset / 64 < length (span_at t a.span).alloc_bitmap.words
  room =
      let v = a.still_valid in
      omega (arith, v.bitmap.size, v.bitmap.enough, v.bits, a.same_pages, a.offset_inside)

  toggled :
      (j : ℕ)
      → (if a.offset == j then not (taken (span_at t a.span) j) else taken (span_at t a.span) j)
        ≡ taken (span_at s a.span) j
  toggled j = elim (Bool-cases (a.offset == j)) [
    | inl here ↦
        let e : j ≡ a.offset = ground arith in
        rw (e, ==_self a.offset, a.now a.offset, ==_self a.offset) (sym a.was_free)
    | inr other ↦ rw (other, a.now j, other) refl
  ]

  bits_back : (k j : ℕ) → taken (span_at final_state k) j ≡ taken (span_at s k) j
  unfolding final_state free_page
  bits_back k j = elim (Bool-cases (a.span == k)) [
    | inl same ↦
        let e : k ≡ a.span = ground arith in
        rw
          (
            e,
            get_or-set t.spans a.span a.span _ no_span
                (omega (arith, a.same_length, a.span_inside)),
            ==_self a.span,
          )
          (member-clear (span_at t a.span).alloc_bitmap a.offset j room ∙ toggled j)
    | inr other ↦
        rw
          (
            get_or-set t.spans a.span k _ no_span (omega (arith, a.same_length, a.span_inside)),
            other,
          )
          (ap (λ x. taken x j) (a.others k (ground arith)))
  ]

  free-GivenBack : GivenBack s (early_page_free t pa)
  unfolding early_page_free final_state free_page
  free-GivenBack = record {
    final = final_state;
    returns = rw (found, early_page_free) freed;
    same_taken = bits_back;
    same_count = omega (arith, a.counted, count);
  }

-- No address lies in two spans.
abbrev pub AreDisjoint : EarlyPageAllocState → Type 0
AreDisjoint s =
    (i k pa : ℕ) → k ≢ i → in_span (span_at s i) pa ≡ true → in_span (span_at s k) pa ≡ false

own_span :
    (s : EarlyPageAllocState) (pa : ℕ) (t : EarlyPageAllocState) (a : Allocated s pa t)
    → in_span (span_at s a.span) pa ≡ true
own_span s pa t a = ground (arith, a.address, a.offset_inside)

-- Where the allocator returned a page, freeing it does not panic, and leaves the pages taken that
-- were taken before, and their number. The spans are valid, no address lies in two of them,
-- and the count is a uint64_t.
pub early_page_free-GivenBack :
    (s : EarlyPageAllocState) (ty : EarlyAllocType) (pa : ℕ) (t : EarlyPageAllocState)
    → AllValid s.spans
    → AreDisjoint s
    → s.num_allocated_pages < 2 ^ 64
    → early_alloc s ty ≡ some (pa, t)
    → GivenBack s (early_page_free t pa)
early_page_free-GivenBack s ty pa t v disjoint count e =
    let a = allocated s ty pa t v e in
    free-GivenBack s pa t a (λ k _ ne. disjoint a.span k pa ne (own_span s pa t a)) count
