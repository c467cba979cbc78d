-- ===== src/EarlyMap/Start.antt =====
-- early/mem.c: the order in which `early_mem_init` sets memory up, from the memory map of the BIOS
-- to the physblocks of all RAM.
use zeptux.Base.{ℕ, ◌+◌, ◌*◌, true, false, ◌&&◌, List, [], ◌∷◌, ltb, leb, if◌then◌else◌, length}
use zeptux.Page.Address.{
  page_size, bytes_to_pages, kernel_elf_address, kernel_elf_address_phys, kernel_direct_map_base,
}
use zeptux.Page.Entry.{Memory, store, map_device}
use zeptux.Video.{early_video_size}
use zeptux.E820.Defs.{
  EarlyBootInfo, early_sort_e820, early_merge_e820, early_normalise_e820, early_set_total_ram,
}
use zeptux.Elf.{header_at}
use zeptux.KernelLog.{KernelGlobal, global_init}
use zeptux.EarlyAlloc.{EarlyPageAllocSpan, ScratchAllocState, early_scratch_alloc_init}
use zeptux.EarlyAlloc.Setup.{early_page_alloc_init, early_pgd}
use zeptux.Phys.{Outcome, returns, panics, ◌>>=◌, Phys}
use zeptux.Phys.Init.{phys_alloc_init_state}
use zeptux.Phys.MemMap.{init_physblock_spans}
use zeptux.Page.Address.{phys_to_virt}
use zeptux.EarlyMap.{
  EarlyMemory, or_panic, early_pagetable_alloc, early_page_alloc_zero, map_early, early_map_direct,
  early_map_kernel_elf, alloc_map_physblock,
}

abbrev pub early_pud_direct0 : ℕ
early_pud_direct0 = 0x2000

abbrev pub video_memory_address_phys : ℕ
video_memory_address_phys = 0xb8000

abbrev pub apic_base_address : ℕ
apic_base_address = 0xffffc10040000000

abbrev pub apic_io_base_address : ℕ
apic_io_base_address = 0xffffc10040001000

abbrev pub io_apic_address_phys : ℕ
io_apic_address_phys = 0xfec00000

-- The table is zeroed and so is the first entry of the PGD; the flush of the TLB has no part here.
unfoldable pub drop_direct0 : Memory → Memory
drop_direct0 memory =
    let table = kernel_direct_map_base + early_pud_direct0 in
    store (λ a. if leb table a && ltb a (table + page_size) then 0 else memory a)
      (kernel_direct_map_base + early_pgd) 0

unfoldable pub early_map_video_range : ℕ → ℕ → EarlyMemory → Outcome EarlyMemory
early_map_video_range fuel pgd m =
    map_early fuel pgd (kernel_direct_map_base + video_memory_address_phys)
      video_memory_address_phys (bytes_to_pages early_video_size) map_device m

unfoldable pub early_map_apic_base : ℕ → EarlyBootInfo → ℕ → EarlyMemory → Outcome EarlyMemory
early_map_apic_base fuel info pgd m = do
  next ← map_early fuel pgd apic_base_address info.apic_base 1 map_device m
  map_early fuel pgd apic_io_base_address io_apic_address_phys 1 map_device next

-- The new PGD, which becomes `kernel_root_pgd`, and the memory.
unfoldable pub early_remap_page_tables : ℕ → EarlyBootInfo → EarlyMemory → Outcome (ℕ × EarlyMemory)
early_remap_page_tables fuel info m = do
  (pgd, tables, pool) ← or_panic (early_pagetable_alloc m.tables m.pool)
  m1 ← early_map_direct fuel info pgd (record m { tables = tables; pool = pool })
  m2 ←
      early_map_kernel_elf fuel (header_at m1.image kernel_elf_address) kernel_elf_address_phys pgd
        m1
  m3 ← early_map_video_range fuel pgd m2
  m4 ← early_map_apic_base fuel info pgd m3
  returns (pgd, m4)

unfoldable pub map_physblock_spans :
    ℕ → ℕ → List EarlyPageAllocSpan → EarlyMemory → Outcome EarlyMemory
map_physblock_spans fuel pgd [] m = returns m
map_physblock_spans fuel pgd (span ∷ spans) m = do
  next ← alloc_map_physblock fuel pgd span.start span.num_pages m
  map_physblock_spans fuel pgd spans next

-- Both passes; the second one reads the bitmaps as the first has left them.
unfoldable pub early_init_mem_map : ℕ → ℕ → EarlyMemory → Phys → Outcome (EarlyMemory × Phys)
early_init_mem_map fuel pgd m phys = do
  next ← map_physblock_spans fuel pgd m.pool.spans m
  described ← init_physblock_spans next.pool.spans phys
  returns (next, described)

-- `sizeof(struct phys_alloc_state)` is 360 and `sizeof(struct phys_alloc_span)` is 16.
unfoldable pub early_init_phys_alloc_state : EarlyMemory → Phys → Outcome (EarlyMemory × Phys)
early_init_phys_alloc_state m phys = elim (ltb page_size (360 + 16 * length m.pool.spans)) [
  | true ↦ panics
  | false ↦ do
    (pa, tables, pool) ← or_panic (early_page_alloc_zero m.tables m.pool)
    returns (
      record m { tables = tables; pool = pool },
      phys_alloc_init_state phys (phys_to_virt pa) pool,
    )
]

unfoldable pub early_init_kernel_global : EarlyMemory → Outcome (EarlyMemory × KernelGlobal)
early_init_kernel_global m = do
  (pa, tables, pool) ← or_panic (early_page_alloc_zero m.tables m.pool)
  returns (record m { tables = tables; pool = pool }, global_init)

-- What is known of memory when it is set up: the root PGD, the early memory, the physical
-- allocator, the global state and the scratch allocator.
pub record Started : Type 0 where
  pub pgd : ℕ
  pub early : EarlyMemory
  pub phys : Phys
  pub global : KernelGlobal
  pub scratch : ScratchAllocState

-- `phys` is the memory of the physblocks before; its physblocks are blank.
unfoldable pub early_mem_init : ℕ → EarlyBootInfo → EarlyMemory → Phys → Outcome Started
early_mem_init fuel info m phys = do
  let tables = drop_direct0 m.tables
  normal ← or_panic (early_normalise_e820 (early_merge_e820 (early_sort_e820 info)))
  counted ← or_panic (early_set_total_ram normal)
  (pool, scratch) ← or_panic (early_page_alloc_init counted early_scratch_alloc_init)
  (pgd, m1) ← early_remap_page_tables fuel counted (record m { tables = tables; pool = pool })
  (m2, global) ← early_init_kernel_global m1
  (m3, state) ← early_init_phys_alloc_state m2 phys
  (m4, described) ← early_init_mem_map fuel pgd m3 state
  returns (record { pgd = pgd; early = m4; phys = described; global = global; scratch = scratch })
