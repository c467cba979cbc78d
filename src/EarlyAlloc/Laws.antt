-- ===== src/EarlyAlloc/Laws.antt =====
-- `alloc` and `early_page_free`: which page is taken, and that freeing gives it back.
use zeptux.Base.{
  ◌%◌, ℕ, zero, suc, ◌+◌, ◌-◌, ◌*◌, ◌^◌, ◌≤◌, ◌<◌, Bool, true, false, not, ◌||◌, List, [], ◌∷◌,
  Option, some, none, ◌≡◌, ◌≢◌, refl, sym, ap, ◌∙◌, subst, ◌==◌, if◌then◌else◌, arith, Option-cases,
  inl, inr, ==_self, length, get_or, set, get_or-set, length-set,
}
use zeptux.Word.{shl}
use zeptux.Word.Scan.{First}
use zeptux.Bitmap.Defs.{Bitmap, bitmap_first_clear, bitmap_set}
use zeptux.Bitmap.View.{member, IsValid, member-set}
use zeptux.Bitmap.Ops.{set-IsValid}
use zeptux.Bitmap.Search.{bitmap_first_clear-First}
use zeptux.EarlyAlloc.{
  EarlyPageAllocSpan, EarlyPageAllocState, EarlyAllocType, normal, ephemeral, pagetable, physblock,
  no_span, span_at, mark_span, mark_page_allocated, span_offset_to_pa, first_free, take_page,
  early_alloc,
}

-- A span whose bitmap has a bit for each of its pages, and which ends below 2 ^ 64.
pub record SpanIsValid (span : EarlyPageAllocSpan) : Type 0 where
  pub bitmap : IsValid span.alloc_bitmap
  pub bits : span.alloc_bitmap.num_bits ≡ span.num_pages
  pub room : span.start + span.num_pages * 4096 < 2 ^ 64

abbrev pub AllValid : List EarlyPageAllocSpan → Type 0
AllValid spans = (k : ℕ) → k < length spans → SpanIsValid (get_or spans k no_span)

abbrev pub taken : EarlyPageAllocSpan → ℕ → Bool
taken span j = member span.alloc_bitmap j

abbrev pub IsFull : EarlyPageAllocSpan → Type 0
IsFull span = (j : ℕ) → j < span.num_pages → taken span j ≡ true

-- The lowest free page of the first span that has one, or no free page.
abbrev Lowest : List EarlyPageAllocSpan → ℕ → Option (ℕ × ℕ) → Type 0
Lowest spans base none = (k : ℕ) → k < length spans → IsFull (get_or spans k no_span)
Lowest spans base (some (i, offset)) =
    (base ≤ i)
    × (i < base + length spans)
    × (offset < (get_or spans (i - base) no_span).num_pages)
    × (taken (get_or spans (i - base) no_span) offset ≡ false)
    × ((j : ℕ) → j < offset → taken (get_or spans (i - base) no_span) j ≡ true)
    × ((k : ℕ) → k < i - base → IsFull (get_or spans k no_span))

true_of_clear : (b : Bool) → not b ≡ false → b ≡ true
true_of_clear true e = refl
true_of_clear false e = sym e

false_of_clear : (b : Bool) → not b ≡ true → b ≡ false
false_of_clear true e = sym e
false_of_clear false e = refl

abbrev FirstClear : Bitmap → Option ℕ → Type 0
FirstClear b o = First (λ i. not (member b i)) 0 b.num_bits o

-- One span more in front, which is full.
Lowest-full :
    (span : EarlyPageAllocSpan) (spans : List EarlyPageAllocSpan) (base : ℕ) (o : Option (ℕ × ℕ))
    → IsFull span
    → Lowest spans (base + 1) o
    → Lowest (span ∷ spans) base o
Lowest-full span spans base none full low = λ k h. by_index k h
  where
    by_index : (k : ℕ) → k < suc (length spans) → IsFull (get_or (span ∷ spans) k no_span)
    by_index zero h = full
    by_index (suc k) h = low k (omega arith)
Lowest-full span spans base (some (i, offset)) full (a, b, c, d, e, f) =
    let s : i - base ≡ suc (i - (base + 1)) = omega arith in
    rw s (omega arith, omega arith, c, d, e, earlier)
  where
    earlier : (k : ℕ) → k < suc (i - (base + 1)) → IsFull (get_or (span ∷ spans) k no_span)
    earlier zero h = full
    earlier (suc k) h = f k (omega arith)

first_free-Lowest :
    (spans : List EarlyPageAllocSpan) (base : ℕ)
    → AllValid spans
    → Lowest spans base (first_free spans base)
unfolding first_free
first_free-Lowest [] base v = λ k h. absurd (omega arith)
first_free-Lowest (span ∷ spans) base v =
    let here = v 0 (omega arith) in
    let search = bitmap_first_clear-First span.alloc_bitmap here.bitmap in
    elim (Option-cases (bitmap_first_clear span.alloc_bitmap)) [
      | inl e ↦
          let full : FirstClear span.alloc_bitmap none =
            subst (FirstClear span.alloc_bitmap) e search in
          rw (e, first_free)
            (Lowest-full span spans base _
              (λ j h. true_of_clear _ (full j (omega arith) (omega (arith, here.bits))))
              (first_free-Lowest spans (base + 1) (λ k h. v (suc k) (omega arith))))
      | inr (offset, e) ↦
          let found : FirstClear span.alloc_bitmap (some offset) =
            subst (FirstClear span.alloc_bitmap) e search in
          let (a, b, c, d) = found in
          let z : base - base ≡ 0 = omega arith in
          rw (e, first_free, z)
            (
              omega arith,
              omega arith,
              omega (arith, here.bits),
              false_of_clear _ c,
              λ j h. true_of_clear _ (d j (omega arith) h),
              λ k h. absurd (omega arith),
            )
    ]

-- Page `offset` of span `i` went from free to taken, and is at address `pa`.
pub record Allocated (s : EarlyPageAllocState) (pa : ℕ) (t : EarlyPageAllocState) : Type 0 where
  pub span : ℕ
  pub offset : ℕ
  pub span_inside : span < length s.spans
  pub offset_inside : offset < (span_at s span).num_pages
  pub address : pa ≡ (span_at s span).start + offset * 4096
  pub was_free : taken (span_at s span) offset ≡ false
  pub lowest : (j : ℕ) → j < offset → taken (span_at s span) j ≡ true
  pub earlier_full : (k : ℕ) → k < span → IsFull (span_at s k)
  pub now : (j : ℕ) → taken (span_at t span) j ≡ (offset == j || taken (span_at s span) j)
  pub others : (k : ℕ) → span ≢ k → span_at t k ≡ span_at s k
  pub counted : t.num_allocated_pages ≡ (s.num_allocated_pages + 1) % 2 ^ 64
  pub still_valid : SpanIsValid (span_at t span)
  pub same_start : (span_at t span).start ≡ (span_at s span).start
  pub same_pages : (span_at t span).num_pages ≡ (span_at s span).num_pages
  pub same_length : length t.spans ≡ length s.spans

abbrev pub AllocResult : EarlyPageAllocState → Option (ℕ × EarlyPageAllocState) → Type 0
AllocResult s none = (k : ℕ) → k < length s.spans → IsFull (span_at s k)
AllocResult s (some (pa, t)) = Allocated s pa t

pub mark_page_allocated-fields :
    (s : EarlyPageAllocState) (i offset : ℕ) (ty : EarlyAllocType)
    → ((mark_page_allocated s i offset ty).spans
        ≡ set s.spans i (mark_span (span_at s i) offset ty))
      × ((mark_page_allocated s i offset ty).num_allocated_pages
          ≡ (s.num_allocated_pages + 1) % 2 ^ 64)
unfolding mark_page_allocated
mark_page_allocated-fields s i offset normal = (refl, refl)
mark_page_allocated-fields s i offset ephemeral = (refl, refl)
mark_page_allocated-fields s i offset pagetable = (refl, refl)
mark_page_allocated-fields s i offset physblock = (refl, refl)

pub mark_span-fields :
    (span : EarlyPageAllocSpan) (offset : ℕ) (ty : EarlyAllocType)
    → ((mark_span span offset ty).alloc_bitmap ≡ bitmap_set span.alloc_bitmap offset)
      × ((mark_span span offset ty).start ≡ span.start)
      × ((mark_span span offset ty).num_pages ≡ span.num_pages)
unfolding mark_span
mark_span-fields span offset normal = (refl, refl, refl)
mark_span-fields span offset ephemeral = (refl, refl, refl)
mark_span-fields span offset pagetable = (refl, refl, refl)
mark_span-fields span offset physblock = (refl, refl, refl)

pub mark_span-SpanIsValid :
    (span : EarlyPageAllocSpan) (offset : ℕ) (ty : EarlyAllocType)
    → SpanIsValid span
    → offset < span.num_pages
    → SpanIsValid (mark_span span offset ty)
unfolding bitmap_set
mark_span-SpanIsValid span offset ty v h =
    let (bitmap_eq, start_eq, pages_eq) = mark_span-fields span offset ty in
    record {
      bitmap = rw bitmap_eq (set-IsValid span.alloc_bitmap offset v.bitmap (omega (arith, v.bits)));
      bits = ap (λ (b : Bitmap). b.num_bits) bitmap_eq ∙ v.bits ∙ sym pages_eq;
      room = omega (arith, v.room, start_eq, pages_eq);
    }

take_page-Allocated :
    (s : EarlyPageAllocState) (ty : EarlyAllocType) (o : Option (ℕ × ℕ))
    → AllValid s.spans
    → Lowest s.spans 0 o
    → AllocResult s (take_page s ty o)
unfolding take_page span_offset_to_pa shl
take_page-Allocated s ty none v low = low
take_page-Allocated s ty (some (i, offset)) v (a, b, c, d, e, f) =
    let z : i - 0 ≡ i = omega arith in
    let span = span_at s i in
    let ok = v i (omega arith) in
    let (spans_eq, count_eq) = mark_page_allocated-fields s i offset ty in
    let (bitmap_eq, start_eq, pages_eq) = mark_span-fields span offset ty in
    let marked = mark_span span offset ty in
    let after : (k : ℕ)
        → span_at (mark_page_allocated s i offset ty) k ≡ (if i == k then marked else span_at s k) =
      λ k.
        ap (λ ss. get_or ss k no_span) spans_eq
        ∙ get_or-set s.spans i k marked no_span (omega arith) in
    let here : span_at (mark_page_allocated s i offset ty) i ≡ marked =
      after i ∙ (rw (==_self i) refl) in
    let inside : offset < span.num_pages = subst (λ k. offset < (span_at s k).num_pages) z c in
    record {
      span = i;
      offset = offset;
      span_inside = omega arith;
      offset_inside = inside;
      address = omega (arith, ok.room, inside);
      was_free = subst (λ k. taken (span_at s k) offset ≡ false) z d;
      lowest = subst (λ k. (j : ℕ) → j < offset → taken (span_at s k) j ≡ true) z e;
      earlier_full = λ k h. f k (omega arith);
      now = λ j. rw here (
          rw bitmap_eq (
            member-set span.alloc_bitmap offset j
              (omega (arith, ok.bitmap.size, ok.bitmap.enough, ok.bits, inside))));
      others = λ k ne. after k ∙ (let n : (i == k) ≡ false = ground arith in rw n refl);
      counted = count_eq;
      still_valid = rw here (mark_span-SpanIsValid span offset ty ok inside);
      same_start = ap (λ (x : EarlyPageAllocSpan). x.start) here ∙ start_eq;
      same_pages = ap (λ (x : EarlyPageAllocSpan). x.num_pages) here ∙ pages_eq;
      same_length = ap length spans_eq ∙ length-set s.spans i marked;
    }

-- `alloc` takes the lowest free page of the first span that has a free page, marks this page and
-- no other, and counts it; it panics only when every page of every span is taken. The spans are
-- to be valid, and the span of the page stays valid.
pub early_alloc-Allocated :
    (s : EarlyPageAllocState) (ty : EarlyAllocType)
    → AllValid s.spans
    → AllocResult s (early_alloc s ty)
unfolding early_alloc
early_alloc-Allocated s ty v =
    take_page-Allocated s ty (first_free s.spans 0) v (first_free-Lowest s.spans 0 v)
