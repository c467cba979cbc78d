-- ===== src/EarlyAlloc/Setup.antt =====
-- early/mem.c: the early page allocator made from the memory map, and the pages that are in use
-- already taken from it.
use zeptux.Base.{
  ℕ, zero, suc, ◌+◌, ◌-◌, ◌*◌, ◌%◌, ◌^◌, true, false, List, Option, some, none, ◌>>=◌, ◌==◌, get_or,
  set, replicate,
}
use zeptux.Word.{shr, is_aligned}
use zeptux.Bitmap.Defs.{Bitmap, bitmap_calc_words, bitmap_calc_size, bitmap_init}
use zeptux.E820.Defs.{EarlyBootInfo, entry_of, e820_type_ram}
use zeptux.Page.Address.{
  page_size, page_shift, bytes_to_pages, virt_to_phys, phys_next_page, phys_prev_page,
  kernel_elf_address_phys, kernel_direct_map_base,
}
use zeptux.EarlyAlloc.{
  ScratchAllocState, early_scratch_page_alloc, EarlyAllocType, normal, ephemeral,
  EarlyPageAllocSpan, EarlyPageAllocState, no_span, alloc_at,
}

abbrev pub kernel_stack_address_phys : ℕ
kernel_stack_address_phys = 0x80000

abbrev pub kernel_stack_pages : ℕ
kernel_stack_pages = 4

-- KERNEL_DIRECT_MAP_BASE + 0x6000
abbrev pub early_boot_info_address : ℕ
early_boot_info_address = kernel_direct_map_base + 0x6000

abbrev pub early_pgd : ℕ
early_pgd = 0x1000

abbrev pub early_pud_direct_map : ℕ
early_pud_direct_map = 0x3000

abbrev pub early_pud_kernel_elf : ℕ
early_pud_kernel_elf = 0x4000

abbrev pub early_video_buffer_address_phys : ℕ
early_video_buffer_address_phys = 0x7000

unfoldable pub early_page_alloc_ephemeral_at : EarlyPageAllocState → ℕ → Option EarlyPageAllocState
early_page_alloc_ephemeral_at s pa = alloc_at s pa ephemeral

unfoldable pub early_page_alloc_at : EarlyPageAllocState → ℕ → Option EarlyPageAllocState
early_page_alloc_at s pa = alloc_at s pa normal

-- More scratch pages; they lie behind the ones before.
unfoldable pub more_pages : ℕ → ScratchAllocState → Option ScratchAllocState
more_pages zero scratch = some scratch
more_pages (suc left) scratch = do
  (pa, next) ← early_scratch_page_alloc scratch
  more_pages left next

-- A bitmap of `num_pages` bits in zeroed scratch pages. It is at the first one's address, and its
-- array is taken to be as long as it needs to be.
unfoldable pub alloc_bitmap : ℕ → ScratchAllocState → Option (Bitmap × ScratchAllocState)
alloc_bitmap num_pages scratch =
    let bitmap_pages = bytes_to_pages (bitmap_calc_size num_pages) in
    let zeroed : Bitmap = record {
      num_bits = 0;
      num_words = 0;
      words = replicate (bitmap_calc_words num_pages) 0;
    } in
    do
      (pa, first) ← early_scratch_page_alloc scratch
      rest ← more_pages (bitmap_pages - 1) first
      some (bitmap_init zeroed num_pages, rest)

-- The number of scratch pages, the span and the scratch allocator.
unfoldable pub alloc_span_bitmaps :
    EarlyPageAllocSpan → ScratchAllocState → Option (ℕ × EarlyPageAllocSpan × ScratchAllocState)
alloc_span_bitmaps span scratch = do
  (alloc, s1) ← alloc_bitmap span.num_pages scratch
  (ephemerals, s2) ← alloc_bitmap span.num_pages s1
  (pagetables, s3) ← alloc_bitmap span.num_pages s2
  (physblocks, s4) ← alloc_bitmap span.num_pages s3
  some (
    bytes_to_pages (bitmap_calc_size span.num_pages) * 4 % 2 ^ 64,
    record span {
      alloc_bitmap = alloc;
      ephemeral_bitmap = ephemerals;
      pagetable_bitmap = pagetables;
      physblock_bitmap = physblocks;
    },
    s4,
  )

-- `left` pages are taken from `pa` on, upwards or downwards.
unfoldable pub take_pages_up :
    ℕ → EarlyAllocType → ℕ → EarlyPageAllocState → Option EarlyPageAllocState
take_pages_up zero ty pa s = some s
take_pages_up (suc left) ty pa s = do
  next ← alloc_at s pa ty
  take_pages_up left ty (phys_next_page pa) next

unfoldable pub take_pages_down :
    ℕ → EarlyAllocType → ℕ → EarlyPageAllocState → Option EarlyPageAllocState
take_pages_down zero ty pa s = some s
take_pages_down (suc left) ty pa s = do
  next ← alloc_at s pa ty
  take_pages_down left ty (phys_prev_page pa) next

unfoldable pub alloc_init_pages :
    EarlyBootInfo → ℕ → ℕ → EarlyPageAllocState → Option EarlyPageAllocState
alloc_init_pages info first_scratch_page num_scratch_pages s = do
  s1 ← take_pages_up num_scratch_pages ephemeral first_scratch_page s
  s2 ← take_pages_down kernel_stack_pages normal kernel_stack_address_phys s1
  s3 ← early_page_alloc_at s2 (virt_to_phys early_boot_info_address)
  s4 ← take_pages_up (bytes_to_pages info.kernel_elf_size_bytes) normal kernel_elf_address_phys s3
  s5 ← early_page_alloc_ephemeral_at s4 early_pgd
  s6 ← early_page_alloc_ephemeral_at s5 early_pud_direct_map
  s7 ← early_page_alloc_ephemeral_at s6 early_pud_kernel_elf
  s8 ← early_page_alloc_at s7 early_video_buffer_address_phys
  early_page_alloc_at s8 (early_video_buffer_address_phys + 0x1000)

-- The loop over the E820 entries, from `i` on: the spans so far, the place of the next one and the
-- number of scratch pages.
unfoldable pub make_spans :
    ℕ
    → EarlyBootInfo
    → ℕ
    → ℕ
    → ℕ
    → List EarlyPageAllocSpan
    → ScratchAllocState
    → Option (ℕ × List EarlyPageAllocSpan × ScratchAllocState)
make_spans zero info i span_index pages spans scratch = some (pages, spans, scratch)
make_spans (suc left) info i span_index pages spans scratch =
    let entry = entry_of info.e820_entries i in
    let empty = record (get_or spans span_index no_span) {
      start = entry.base;
      num_pages = shr entry.size page_shift;
    } in
    elim (entry.ty == e820_type_ram) [
      | true ↦ do
        (used, span, rest) ← alloc_span_bitmaps empty scratch
        make_spans left info (i + 1) (span_index + 1) ((pages + used) % 2 ^ 64)
            (set spans span_index span) rest
      | false ↦ make_spans left info (i + 1) span_index pages spans scratch
    ]

unfoldable pub early_page_alloc_init :
    EarlyBootInfo → ScratchAllocState → Option (EarlyPageAllocState × ScratchAllocState)
early_page_alloc_init info scratch = do
  (first_scratch_page, s1) ← early_scratch_page_alloc scratch
  elim (is_aligned info.total_avail_ram_bytes page_size) [
    | false ↦ none
    | true ↦ do
      (num_scratch_pages, spans, s2) ←
          make_spans info.num_e820_entries info 0 0 1 (replicate info.num_ram_spans no_span) s1
      let empty : EarlyPageAllocState = record {
        total_pages = bytes_to_pages info.total_avail_ram_bytes;
        num_allocated_pages = 0;
        num_ephemeral_pages = 0;
        num_pagetable_pages = 0;
        num_physblock_pages = 0;
        spans = spans;
      }
      final ← alloc_init_pages info first_scratch_page num_scratch_pages empty
      some (final, s2)
  ]
