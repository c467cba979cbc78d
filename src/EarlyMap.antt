-- ===== src/EarlyMap.antt =====
-- early/mem.c and include/early_mem.h: zeroed pages of the early page allocator, and the page
-- tables that are made of them from the memory map and the headers of the kernel's image.
pub mod Start
pub mod Sections
pub mod Physblocks
pub mod Tests
use zeptux.Base.{
  ℕ, zero, suc, ◌+◌, ◌-◌, ◌*◌, ◌/◌, ◌%◌, ◌^◌, Bool, true, false, not, ◌&&◌, ◌||◌, Option, some,
  none, ◌==◌, ltb, leb, if◌then◌else◌, bit_or,
}
use zeptux.Word.{align, align_up, is_aligned, is_mask_set}
use zeptux.E820.Defs.{EarlyBootInfo, entry_of, e820_type_ram}
use zeptux.Elf.{Bytes, ElfHeader, ElfSectionHeader, sect_header, elf_sht_nobits}
use zeptux.Strings.{memcpy}
use zeptux.Page.Address.{
  page_size, phys_to_virt, bytes_to_pages, phys_next_page, virt_next_page, phys_to_pfn,
  kernel_elf_address,
}
use zeptux.Page.Entry.{Memory, map_kernel, map_device, map_code, map_readonly, map_skip_if_mapped}
use zeptux.Page.Map.{Mapping, PageAllocators, done, panicked, out_of_fuel, map_page_range}
use zeptux.Page.Map as PageMap
use zeptux.EarlyAlloc.{
  EarlyPageAllocState, EarlyAllocType, normal, ephemeral, pagetable, physblock, early_alloc,
  early_pages_alloc,
}
use zeptux.Phys.{
  Outcome, returns, panics, unfinished, ◌>>=◌, kernel_mem_map_address, sizeof_physblock,
}

-- A panic is an outcome here.
abbrev pub or_panic {ℓ} : {A : Type ℓ} → Option A → Outcome A
or_panic none = panics
or_panic (some a) = returns a

unfoldable pub zero_page : Memory → ℕ → Memory
zero_page memory pa =
    λ a. if leb (phys_to_virt pa) a && ltb a (phys_to_virt pa + page_size) then 0 else memory a

-- A page of the type, with zeros.
unfoldable pub alloc_zeroed :
    EarlyAllocType → Memory → EarlyPageAllocState → Option (ℕ × Memory × EarlyPageAllocState)
alloc_zeroed ty memory pool = zeroed (early_alloc pool ty)
  where
    zeroed : Option (ℕ × EarlyPageAllocState) → Option (ℕ × Memory × EarlyPageAllocState)
    zeroed none = none
    zeroed (some (pa, rest)) = some (pa, zero_page memory pa, rest)

unfoldable pub early_pagetable_alloc :
    Memory → EarlyPageAllocState → Option (ℕ × Memory × EarlyPageAllocState)
early_pagetable_alloc = alloc_zeroed pagetable

unfoldable pub early_physblock_page_alloc :
    Memory → EarlyPageAllocState → Option (ℕ × Memory × EarlyPageAllocState)
early_physblock_page_alloc = alloc_zeroed physblock

unfoldable pub early_page_alloc_zero :
    Memory → EarlyPageAllocState → Option (ℕ × Memory × EarlyPageAllocState)
early_page_alloc_zero = alloc_zeroed normal

unfoldable pub early_page_alloc_ephemeral : EarlyPageAllocState → Option (ℕ × EarlyPageAllocState)
early_page_alloc_ephemeral pool = early_alloc pool ephemeral

abbrev pub early_allocators : PageAllocators EarlyPageAllocState
early_allocators = record {
  pud = early_pagetable_alloc;
  pmd = early_pagetable_alloc;
  ptd = early_pagetable_alloc;
}

-- The bytes of the image, the words of the page tables, and the allocator. The two memories are
-- taken not to overlap.
pub record EarlyMemory : Type 0 where
  pub image : Bytes
  pub tables : Memory
  pub pool : EarlyPageAllocState

abbrev pub mapped :
    EarlyMemory → PageMap.Outcome (Mapping EarlyPageAllocState) → Outcome EarlyMemory
mapped m (done s) = returns (record m { tables = s.memory; pool = s.pool })
mapped m panicked = panics
mapped m out_of_fuel = unfinished

-- `_map_page_range` with the early allocators.
unfoldable pub map_early : ℕ → ℕ → ℕ → ℕ → ℕ → ℕ → EarlyMemory → Outcome EarlyMemory
map_early fuel pgd va pa num_pages flags m =
    mapped m (map_page_range early_allocators flags fuel pgd va pa num_pages m.tables m.pool)

-- The rounds left, and the entry of the next one.
unfoldable pub map_direct_from : ℕ → ℕ → EarlyBootInfo → ℕ → ℕ → EarlyMemory → Outcome EarlyMemory
map_direct_from zero fuel info pgd i m = returns m
map_direct_from (suc left) fuel info pgd i m =
    let entry = entry_of info.e820_entries i in
    elim (entry.ty == e820_type_ram) [
      | true ↦ do
        next ←
            map_early fuel pgd (phys_to_virt entry.base) entry.base (bytes_to_pages entry.size)
              map_kernel m
        map_direct_from left fuel info pgd (i + 1) next
      | false ↦ map_direct_from left fuel info pgd (i + 1) m
    ]

unfoldable pub early_map_direct : ℕ → EarlyBootInfo → ℕ → EarlyMemory → Outcome EarlyMemory
early_map_direct fuel info pgd m = map_direct_from info.num_e820_entries fuel info pgd 0 m

abbrev pub elf_shf_write : ℕ
elf_shf_write = 1

abbrev pub elf_shf_execinstr : ℕ
elf_shf_execinstr = 4

unfoldable pub section_flags : ElfSectionHeader → ℕ
section_flags sect =
    let flags =
      if not (is_mask_set sect.flags elf_shf_write)
      then bit_or map_kernel map_readonly
      else map_kernel in
    if is_mask_set sect.flags elf_shf_execinstr then bit_or flags map_code else flags

-- The physical address of a section; one without bytes in the file gets pages with a copy.
unfoldable pub section_pages : ElfSectionHeader → ℕ → EarlyMemory → Outcome (ℕ × EarlyMemory)
section_pages sect elf_pa m =
    let num_pages = bytes_to_pages sect.size in
    elim (sect.type == elf_sht_nobits) [
      | true ↦ do
        (pa, rest) ← or_panic (early_pages_alloc m.pool num_pages)
        returns (
          pa,
          record m {
            image = memcpy (page_size * num_pages) m.image (phys_to_virt pa) sect.addr;
            pool = rest;
          },
        )
      | false ↦ returns ((elf_pa + sect.offset) % 2 ^ 64, m)
    ]

-- A round of the loop in `early_map_kernel_elf`.
unfoldable pub map_section : ℕ → ElfSectionHeader → ℕ → ℕ → EarlyMemory → Outcome EarlyMemory
map_section fuel sect elf_pa pgd m = elim (sect.addr == 0) [
  | true ↦ returns m
  | false ↦ do
    (pa, next) ← section_pages sect elf_pa m
    elim (not (is_aligned sect.addr page_size) || not (is_aligned pa page_size)) [
      | true ↦ panics
      | false ↦ map_early fuel pgd sect.addr pa (bytes_to_pages sect.size) (section_flags sect) next
    ]
]

unfoldable pub map_sections : ℕ → ℕ → ElfHeader → ℕ → ℕ → ℕ → EarlyMemory → Outcome EarlyMemory
map_sections zero fuel header i elf_pa pgd m = returns m
map_sections (suc left) fuel header i elf_pa pgd m = do
  next ← map_section fuel (sect_header m.image header i) elf_pa pgd m
  map_sections left fuel header (i + 1) elf_pa pgd next

-- The header stands at KERNEL_ELF_ADDRESS, where it is always loaded. The flags of the two last
-- mappings are `MAP_KERNEL | MAP_READONLY | MAP_SKIP_IF_MAPPED`.
unfoldable pub early_map_kernel_elf : ℕ → ElfHeader → ℕ → ℕ → EarlyMemory → Outcome EarlyMemory
early_map_kernel_elf fuel header elf_pa pgd m =
    let once = map_kernel + map_readonly + map_skip_if_mapped in
    elim (is_aligned kernel_elf_address page_size) [
      | false ↦ panics
      | true ↦ do
        m1 ← map_sections header.shnum fuel header 0 elf_pa pgd m
        m2 ← map_early fuel pgd kernel_elf_address elf_pa 1 once m1
        map_early fuel pgd ((kernel_elf_address + header.shoff) % 2 ^ 64)
            ((elf_pa + header.shoff) % 2 ^ 64) 2 once m2
    ]

-- The virtual addresses of the pages that hold the physblocks of `num_pages` pages from `start`
-- on: the first, and the end behind the last.
unfoldable pub physblock_pages : ℕ → ℕ → ℕ × ℕ
physblock_pages start num_pages =
    let start_addr = (kernel_mem_map_address + phys_to_pfn start * sizeof_physblock) % 2 ^ 64 in
    let end_addr = (start_addr + num_pages * sizeof_physblock) % 2 ^ 64 in
    (align start_addr page_size, align_up end_addr page_size)

-- The loop over these pages, on a round for each.
unfoldable pub map_physblocks : ℕ → ℕ → ℕ → ℕ → ℕ → EarlyMemory → Outcome EarlyMemory
map_physblocks zero fuel pgd va end_va m = if ltb va end_va then unfinished else returns m
map_physblocks (suc left) fuel pgd va end_va m = elim (ltb va end_va) [
  | false ↦ returns m
  | true ↦ do
    (pa, tables, rest) ← or_panic (early_physblock_page_alloc m.tables m.pool)
    next ← map_early fuel pgd va pa 1 map_kernel (record m { tables = tables; pool = rest })
    map_physblocks left fuel pgd (virt_next_page va) end_va next
]

unfoldable pub alloc_map_physblock : ℕ → ℕ → ℕ → ℕ → EarlyMemory → Outcome EarlyMemory
alloc_map_physblock fuel pgd start num_pages m =
    let (va, end_va) = physblock_pages start num_pages in
    map_physblocks ((end_va - va) / page_size) fuel pgd va end_va m
