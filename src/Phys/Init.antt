-- ===== src/Phys/Init.antt =====
-- mm/phys.c: the state of the physical allocator as the early one hands it over.
use zeptux.Base.{ℕ, zero, suc, ◌+◌, ◌*◌, true, false, List, [], ◌∷◌, ◌==◌, if◌then◌else◌, map}
use zeptux.Ring.{ListHeap, list_init}
use zeptux.Page.Address.{phys_to_pfn}
use zeptux.EarlyAlloc.{EarlyPageAllocSpan, EarlyPageAllocState}
use zeptux.Phys.{
  Outcome, returns, ◌>>=◌, max_order, physblock_unmanaged, physblock_pagetable, physblock_physblock,
  masked_type, PhysAllocStats, PhysAllocSpan, Phys, add_u64, set_block, set_stats, release_block,
  pfn_to_physblock_lock,
}
use zeptux.Phys.Free.{free_physblock_locked}

-- `rounds` lists are initialised, the first one at `address`.
unfoldable pub init_lists : ℕ → ListHeap → ℕ → ListHeap
init_lists zero h address = h
init_lists (suc i) h address = list_init (init_lists i h address) (address + 16 * i)

unfoldable pub convert_span : EarlyPageAllocSpan → PhysAllocSpan
convert_span early = record { start_pfn = phys_to_pfn early.start; num_pages = early.num_pages }

-- The fields that are not written are those of the memory at `ptr`; the heap has its nodes.
unfoldable pub phys_alloc_init_state : Phys → ℕ → EarlyPageAllocState → Phys
unfolding init_lists convert_span
phys_alloc_init_state m ptr early = record m {
  heap = init_lists (max_order + 1) m.heap ptr;
  state = record m.state { address = ptr; spans = map convert_span early.spans };
}

-- A page in use: the statistics of its type count it.
unfoldable pub count_used : PhysAllocStats → ℕ → PhysAllocStats
count_used stats type =
    if type == physblock_pagetable
    then record stats { num_pagetable_pages = add_u64 stats.num_pagetable_pages 1 }
    else if type == physblock_physblock
    then record stats { num_physblock_pages = add_u64 stats.num_physblock_pages 1 }
    else stats

-- A round of the loop in `phys_alloc_init_span`.
unfoldable pub init_page : Phys → ℕ → Outcome Phys
unfolding pfn_to_physblock_lock free_physblock_locked count_used release_block
init_page m pfn = do
  (block, m1) ← pfn_to_physblock_lock m pfn
  let b = m1.blocks block in
      elim (masked_type b.type == physblock_unmanaged) [
        | true ↦ free_physblock_locked (set_block m1 block (record b { refcount = 1 })) block
        | false ↦
            let stats = count_used m1.state.stats (masked_type b.type) in
            returns (release_block (set_stats m1 stats) block)
      ]

-- The rounds left, and the PFN of the next one.
unfoldable pub init_pages : ℕ → Phys → ℕ → Outcome Phys
unfolding init_page
init_pages zero m pfn = returns m
init_pages (suc left) m pfn = do m1 ← init_page m pfn; init_pages left m1 (add_u64 pfn 1)

unfoldable pub phys_alloc_init_span : Phys → PhysAllocSpan → Outcome Phys
unfolding init_pages
phys_alloc_init_span m span =
    let stats = m.state.stats in
    let total = add_u64 stats.num_4k_pages span.num_pages in
    init_pages span.num_pages (set_stats m (record stats { num_4k_pages = total })) span.start_pfn

unfoldable pub init_spans : Phys → List PhysAllocSpan → Outcome Phys
unfolding phys_alloc_init_span
init_spans m [] = returns m
init_spans m (span ∷ spans) = do m1 ← phys_alloc_init_span m span; init_spans m1 spans

unfoldable pub phys_alloc_init : Phys → Outcome Phys
unfolding init_spans
phys_alloc_init m = init_spans m m.state.spans
