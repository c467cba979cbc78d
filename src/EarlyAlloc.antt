-- ===== src/EarlyAlloc.antt =====
-- early/mem.c and include/early_mem.h: the scratch allocator and the early page allocator, which
-- keeps a bitmap of pages for each span of RAM. A panic is `none`.
pub mod Laws
pub mod Free
pub mod Setup
pub mod Reserve
pub mod InUse
pub mod Tests
use zeptux.Base.{
  ℕ, zero, suc, ◌+◌, ◌-◌, ◌*◌, ◌/◌, ◌%◌, ◌^◌, Bool, true, false, not, ◌&&◌, ◌||◌, List, [], ◌∷◌,
  Option, some, none, ◌==◌, ltb, leb, if◌then◌else◌, get_or, set,
}
use zeptux.Word.{shl, shr}
use zeptux.Bitmap.Defs.{
  Bitmap, bitmap_set, bitmap_clear, bitmap_is_set, bitmap_first_clear,
  bitmap_zero_string_longer_than,
}
use zeptux.Page.Address.{page_size, page_shift, kernel_elf_address_phys}

-- `struct scratch_alloc_state`
pub record ScratchAllocState : Type 0 where
  pub start : ℕ
  pub pages : ℕ

abbrev pub early_max_scratch_pages : ℕ
early_max_scratch_pages = 1024

unfoldable pub early_scratch_alloc_init : ScratchAllocState
early_scratch_alloc_init = record {
  start = kernel_elf_address_phys - early_max_scratch_pages * page_size;
  pages = 0;
}

-- The address of the page, which is zeroed.
unfoldable pub early_scratch_page_alloc : ScratchAllocState → Option (ℕ × ScratchAllocState)
early_scratch_page_alloc s =
    if leb early_max_scratch_pages s.pages
    then none
    else some (s.start + page_size * s.pages, record s { pages = s.pages + 1 })

-- `n++` and `n--` of a uint64_t.
abbrev pub increment : ℕ → ℕ
increment n = (n + 1) % 2 ^ 64

abbrev pub decrement : ℕ → ℕ
decrement n = (n + 2 ^ 64 - 1) % 2 ^ 64

-- `enum early_alloc_type`
pub data EarlyAllocType : Type 0 where
  normal ephemeral pagetable physblock : EarlyAllocType

-- `struct early_page_alloc_span`
pub record EarlyPageAllocSpan : Type 0 where
  pub start : ℕ
  pub num_pages : ℕ
  pub num_allocated_pages : ℕ
  pub alloc_bitmap : Bitmap
  pub ephemeral_bitmap : Bitmap
  pub pagetable_bitmap : Bitmap
  pub physblock_bitmap : Bitmap

-- `struct early_page_alloc_state`; `num_spans` is the length of the list.
pub record EarlyPageAllocState : Type 0 where
  pub total_pages : ℕ
  pub num_allocated_pages : ℕ
  pub num_ephemeral_pages : ℕ
  pub num_pagetable_pages : ℕ
  pub num_physblock_pages : ℕ
  pub spans : List EarlyPageAllocSpan

abbrev pub no_bits : Bitmap
no_bits = record { num_bits = 0; num_words = 0; words = [] }

abbrev pub no_span : EarlyPageAllocSpan
no_span = record {
  start = 0;
  num_pages = 0;
  num_allocated_pages = 0;
  alloc_bitmap = no_bits;
  ephemeral_bitmap = no_bits;
  pagetable_bitmap = no_bits;
  physblock_bitmap = no_bits;
}

abbrev pub span_at : EarlyPageAllocState → ℕ → EarlyPageAllocSpan
span_at s i = get_or s.spans i no_span

-- `start <= pa && pa < start + num_pages * PAGE_SIZE`; a span is taken to end below 2 ^ 64.
abbrev pub in_span : EarlyPageAllocSpan → ℕ → Bool
in_span span pa = leb span.start pa && ltb pa (span.start + span.num_pages * page_size)

-- The index of the span; the NULL is `none`.
unfoldable pub find_span : List EarlyPageAllocSpan → ℕ → Option ℕ
find_span [] pa = none
find_span (span ∷ spans) pa =
    let later : Option ℕ = elim (find_span spans pa) [ some i ↦ some (suc i) | none ↦ none ] in
    if in_span span pa then some 0 else later

unfoldable pub phys_to_span_offset : EarlyPageAllocSpan → ℕ → ℕ
phys_to_span_offset span pa = shr (pa - span.start) page_shift

unfoldable pub span_offset_to_pa : EarlyPageAllocSpan → ℕ → ℕ
span_offset_to_pa span offset = (span.start + shl offset page_shift) % 2 ^ 64

-- The bitmap of the type, with its bit set.
unfoldable pub mark_span : EarlyPageAllocSpan → ℕ → EarlyAllocType → EarlyPageAllocSpan
mark_span span offset ty =
    let marked = record span {
      alloc_bitmap = bitmap_set span.alloc_bitmap offset;
      num_allocated_pages = increment span.num_allocated_pages;
    } in
    elim ty [
      | normal ↦ marked
      | ephemeral ↦ record marked { ephemeral_bitmap = bitmap_set span.ephemeral_bitmap offset }
      | pagetable ↦ record marked { pagetable_bitmap = bitmap_set span.pagetable_bitmap offset }
      | physblock ↦ record marked { physblock_bitmap = bitmap_set span.physblock_bitmap offset }
    ]

unfoldable pub mark_page_allocated :
    EarlyPageAllocState → ℕ → ℕ → EarlyAllocType → EarlyPageAllocState
mark_page_allocated s i offset ty =
    let marked = record s {
      num_allocated_pages = increment s.num_allocated_pages;
      spans = set s.spans i (mark_span (span_at s i) offset ty);
    } in
    elim ty [
      | normal ↦ marked
      | ephemeral ↦ record marked { num_ephemeral_pages = increment s.num_ephemeral_pages }
      | pagetable ↦ record marked { num_pagetable_pages = increment s.num_pagetable_pages }
      | physblock ↦ record marked { num_physblock_pages = increment s.num_physblock_pages }
    ]

-- A page of the span `i`, unless it is taken already.
unfoldable pub alloc_in : EarlyPageAllocState → EarlyAllocType → ℕ → ℕ → Option EarlyPageAllocState
alloc_in s ty pa i =
    let offset = phys_to_span_offset (span_at s i) pa in
    if bitmap_is_set (span_at s i).alloc_bitmap offset
    then none
    else some (mark_page_allocated s i offset ty)

unfoldable pub alloc_at : EarlyPageAllocState → ℕ → EarlyAllocType → Option EarlyPageAllocState
alloc_at s pa ty = elim (find_span s.spans pa) [ some i ↦ alloc_in s ty pa i | none ↦ none ]

-- The first span with a free page, and the page.
unfoldable pub first_free : List EarlyPageAllocSpan → ℕ → Option (ℕ × ℕ)
first_free [] i = none
first_free (span ∷ spans) i = elim (bitmap_first_clear span.alloc_bitmap) [
  | some offset ↦ some (i, offset)
  | none ↦ first_free spans (i + 1)
]

unfoldable pub take_page :
    EarlyPageAllocState → EarlyAllocType → Option (ℕ × ℕ) → Option (ℕ × EarlyPageAllocState)
take_page s ty none = none
take_page s ty (some (i, offset)) =
    some (span_offset_to_pa (span_at s i) offset, mark_page_allocated s i offset ty)

-- `alloc`
unfoldable pub early_alloc : EarlyPageAllocState → EarlyAllocType → Option (ℕ × EarlyPageAllocState)
early_alloc s ty = take_page s ty (first_free s.spans 0)

unfoldable pub early_page_alloc : EarlyPageAllocState → Option (ℕ × EarlyPageAllocState)
early_page_alloc s = early_alloc s normal

-- The bit in one of the three bitmaps by type, taken back.
abbrev pub cleared : Bitmap → ℕ → Bitmap
cleared b offset = if bitmap_is_set b offset then bitmap_clear b offset else b

-- A count that goes down with it.
abbrev pub lowered : Bitmap → ℕ → ℕ → ℕ
lowered b offset n = if bitmap_is_set b offset then decrement n else n

unfoldable pub free_page : EarlyPageAllocState → ℕ → ℕ → EarlyPageAllocState
free_page s i offset =
    let span = span_at s i in
    let freed = record span {
      num_allocated_pages = decrement span.num_allocated_pages;
      alloc_bitmap = bitmap_clear span.alloc_bitmap offset;
      ephemeral_bitmap = cleared span.ephemeral_bitmap offset;
      pagetable_bitmap = cleared span.pagetable_bitmap offset;
      physblock_bitmap = cleared span.physblock_bitmap offset;
    } in
    record s {
      num_allocated_pages = decrement s.num_allocated_pages;
      num_ephemeral_pages = lowered span.ephemeral_bitmap offset s.num_ephemeral_pages;
      num_pagetable_pages = lowered span.pagetable_bitmap offset s.num_pagetable_pages;
      num_physblock_pages = lowered span.physblock_bitmap offset s.num_physblock_pages;
      spans = set s.spans i freed;
    }

unfoldable pub free_in : EarlyPageAllocState → ℕ → ℕ → Option EarlyPageAllocState
free_in s pa i =
    let offset = phys_to_span_offset (span_at s i) pa in
    if not (bitmap_is_set (span_at s i).alloc_bitmap offset)
    then none
    else some (free_page s i offset)

unfoldable pub early_page_free : EarlyPageAllocState → ℕ → Option EarlyPageAllocState
early_page_free s pa = elim (find_span s.spans pa) [ some i ↦ free_in s pa i | none ↦ none ]

-- The pages from `offset` on, `left` of them.
unfoldable pub mark_pages : ℕ → EarlyPageAllocState → ℕ → ℕ → EarlyPageAllocState
mark_pages zero s i offset = s
mark_pages (suc left) s i offset =
    mark_pages left (mark_page_allocated s i offset normal) i (offset + 1)

unfoldable pub first_run : List EarlyPageAllocSpan → ℕ → ℕ → Option (ℕ × ℕ)
first_run [] pages i = none
first_run (span ∷ spans) pages i = elim (bitmap_zero_string_longer_than span.alloc_bitmap pages) [
  | some offset ↦ some (i, offset)
  | none ↦ first_run spans pages (i + 1)
]

unfoldable pub take_run :
    EarlyPageAllocState → ℕ → Option (ℕ × ℕ) → Option (ℕ × EarlyPageAllocState)
take_run s pages none = none
take_run s pages (some (i, offset)) =
    let t = mark_pages pages s i offset in some (span_offset_to_pa (span_at t i) offset, t)

-- `sizeof(uint64_t)` is 8; the count is taken as no less than 0.
unfoldable pub early_pages_alloc : EarlyPageAllocState → ℕ → Option (ℕ × EarlyPageAllocState)
early_pages_alloc s pages =
    if ltb 8 pages then none else take_run s pages (first_run s.spans pages 0)
