-- ===== src/Phys/MemMap.antt =====
-- early/mem.c: the physblocks of the pages that the early page allocator knows.
use zeptux.Base.{ℕ, zero, suc, ◌+◌, ◌*◌, ◌%◌, ◌^◌, not, List, [], ◌∷◌, if◌then◌else◌}
use zeptux.Ring.{list_node_init}
use zeptux.Bitmap.Defs.{bitmap_is_set}
use zeptux.Page.Address.{page_size}
use zeptux.EarlyAlloc.{EarlyPageAllocSpan}
use zeptux.Phys.{
  Outcome, returns, ◌>>=◌, physblock_pagetable, physblock_physblock, physblock_kernel,
  physblock_movable, Physblock, Phys, node, set_block, set_heap, release_block,
  phys_to_physblock_lock,
}

unfoldable pub span_to_phys : EarlyPageAllocSpan → ℕ → ℕ
span_to_phys span i = (span.start + page_size * i) % 2 ^ 64

-- The type of a page in use. `PHYSBLOCK_KERNEL | PHYSBLOCK_MOVABLE` is their sum.
abbrev pub type_in_use : EarlyPageAllocSpan → ℕ → ℕ
type_in_use span i =
    if bitmap_is_set span.pagetable_bitmap i
    then physblock_pagetable
    else if bitmap_is_set span.physblock_bitmap i
    then physblock_physblock
    else physblock_kernel + physblock_movable

-- What a round writes into the physblock.
unfoldable pub describe : EarlyPageAllocSpan → ℕ → Physblock → Physblock
describe span i block =
    if not (bitmap_is_set span.alloc_bitmap i)
    then block
    else if bitmap_is_set span.ephemeral_bitmap i
    then block
    else record block { type = type_in_use span i; refcount = 1 }

-- A round of the loop in `init_physblock_span`.
unfoldable pub init_physblock : EarlyPageAllocSpan → ℕ → Phys → Outcome Phys
init_physblock span i m = do
  (block, m1) ← phys_to_physblock_lock m (span_to_phys span i)
  let m2 = set_heap m1 (list_node_init m1.heap (node block))
  let m3 = set_block m2 block (describe span i (m2.blocks block))
  returns (release_block m3 block)

-- The rounds left, from `i` on.
unfoldable pub init_physblocks : ℕ → EarlyPageAllocSpan → ℕ → Phys → Outcome Phys
init_physblocks zero span i m = returns m
init_physblocks (suc left) span i m = do
  m1 ← init_physblock span i m
  init_physblocks left span (i + 1) m1

unfoldable pub init_physblock_span : EarlyPageAllocSpan → Phys → Outcome Phys
init_physblock_span span m = init_physblocks span.num_pages span 0 m

-- The second pass of `early_init_mem_map`.
unfoldable pub init_physblock_spans : List EarlyPageAllocSpan → Phys → Outcome Phys
init_physblock_spans [] m = returns m
init_physblock_spans (span ∷ spans) m = do
  m1 ← init_physblock_span span m
  init_physblock_spans spans m1
