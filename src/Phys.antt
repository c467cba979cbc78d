-- ===== src/Phys.antt =====
-- mm/phys.c and include/mm.h: the physical page allocator. A physblock is named by its PFN: the
-- memory gives its descriptor, less its list node, which is in the heap of the nodes. A lock is
-- the word of a spinlock, as one processor sees it. An operation returns, panics, waits for
-- ever for a lock (`spins`), or has used up the fuel of a loop that tries again (`unfinished`).
pub mod AllocLaws
pub mod Allocate
pub mod Buddy
pub mod Given
pub mod Init
pub mod Join
pub mod JoinLaws
pub mod Rejoin
pub mod Managed
pub mod MemMap
pub mod MemMapLaws
pub mod MemMapTests
pub mod Refill
pub mod Remove
pub mod Split
pub mod SplitLaws
pub mod Lists
pub mod Tails
pub mod Tiles
pub mod Compact
pub mod CompactRound
pub mod CompactJoin
pub mod CompactLoop
pub mod GiveBack
pub mod Freed
pub mod Retile
pub mod Tests
pub mod FreeTests
pub mod Free
pub mod Alloc
use zeptux.Base.{
  ℕ, zero, suc, ◌+◌, ◌-◌, ◌*◌, ◌/◌, ◌%◌, ◌^◌, ◌≤◌, ◌<◌, Bool, true, false, ◌&&◌, ◌||◌, Option, some,
  none, List, [], ◌∷◌, ◌==◌, ltb, leb, if◌then◌else◌, bit_and, bit_or, bit_xor,
}
use zeptux.Word.{shl}
use zeptux.Ring.{ListHeap}
use zeptux.Spinlock.{spinlock_acquire, spinlock_release}
use zeptux.Page.Address.{phys_to_pfn, pfn_to_phys}

pub data Outcome {ℓ} (A : Type ℓ) : Type ℓ where
  returns : A → Outcome A
  panics spins unfinished : Outcome A

infixl 5 ◌>>=◌
abbrev pub ◌>>=◌ {ℓ κ} : {A : Type ℓ} {B : Type κ} → Outcome A → (A → Outcome B) → Outcome B
returns a >>= f = f a
panics >>= f = panics
spins >>= f = spins
unfinished >>= f = unfinished

abbrev pub max_order : ℕ
max_order = 12

-- 0xffffc00040000000
abbrev pub kernel_mem_map_address : ℕ
kernel_mem_map_address = 2 ^ 64 - 2 ^ 46 + 2 ^ 30

-- `sizeof(struct physblock)`, and where its `node` lies: uint16_t, uint8_t and an enum come first.
abbrev pub sizeof_physblock : ℕ
sizeof_physblock = 32

abbrev pub offsetof_node : ℕ
offsetof_node = 8

-- `physblock_type_t`
abbrev pub physblock_unmanaged : ℕ
physblock_unmanaged = 0

abbrev pub physblock_free : ℕ
physblock_free = 1

abbrev pub physblock_tail : ℕ
physblock_tail = 2

abbrev pub physblock_pagetable : ℕ
physblock_pagetable = 3

abbrev pub physblock_physblock : ℕ
physblock_physblock = 4

abbrev pub physblock_kernel : ℕ
physblock_kernel = 5

abbrev pub physblock_user : ℕ
physblock_user = 6

abbrev pub physblock_movable : ℕ
physblock_movable = 2 ^ 10

abbrev pub physblock_pinned : ℕ
physblock_pinned = 2 ^ 11

-- `type & PHYSBLOCK_TYPE_MASK`
abbrev pub masked_type : ℕ → ℕ
masked_type t = bit_and t 1023

pub record Physblock : Type 0 where
  pub head_offset : ℕ  -- uint16_t
  pub order : ℕ  -- uint8_t
  pub type : ℕ
  pub refcount : ℕ  -- uint32_t
  pub lock : ℕ

-- The fields of `struct phys_alloc_stats`, all uint64_t.
pub record PhysAllocStats : Type 0 where
  pub num_4k_pages : ℕ
  pub num_free_4k_pages : ℕ
  pub num_pagetable_pages : ℕ
  pub num_physblock_pages : ℕ
  pub order_free_pages : ℕ → ℕ

pub record PhysAllocSpan : Type 0 where
  pub start_pfn : ℕ
  pub num_pages : ℕ

-- `struct phys_alloc_state`, at `address`; its free lists are the nodes at its beginning.
pub record PhysAllocState : Type 0 where
  pub address : ℕ
  pub stats : PhysAllocStats
  pub lock : ℕ
  pub spans : List PhysAllocSpan

pub record Phys : Type 0 where
  pub state : PhysAllocState
  pub blocks : ℕ → Physblock
  pub heap : ListHeap

-- `&alloc_state->free_lists[order]`
abbrev pub free_list : Phys → ℕ → ℕ
free_list m order = m.state.address + 16 * order

-- `_pfn_to_physblock_raw`, and `&block->node`.
unfoldable pub pfn_to_physblock_raw : ℕ → ℕ
pfn_to_physblock_raw pfn = (kernel_mem_map_address + pfn * sizeof_physblock) % 2 ^ 64

unfoldable pub physblock_to_pfn : ℕ → ℕ
physblock_to_pfn block = (block + 2 ^ 64 - kernel_mem_map_address) % 2 ^ 64 / sizeof_physblock

unfoldable pub node : ℕ → ℕ
unfolding pfn_to_physblock_raw
node pfn = pfn_to_physblock_raw pfn + offsetof_node

unfoldable pub physblock_to_phys : ℕ → ℕ
unfolding physblock_to_pfn
physblock_to_phys block = pfn_to_phys (physblock_to_pfn block)

abbrev pub set_block : Phys → ℕ → Physblock → Phys
set_block m pfn block = record m { blocks = λ p. if p == pfn then block else m.blocks p }

abbrev pub set_heap : Phys → ListHeap → Phys
set_heap m h = record m { heap = h }

abbrev pub set_stats : Phys → PhysAllocStats → Phys
set_stats m s = record m { state = record m.state { stats = s } }

abbrev pub set_order_free : PhysAllocStats → ℕ → ℕ → PhysAllocStats
set_order_free s order n = record s {
  order_free_pages = λ o. if o == order then n else s.order_free_pages o;
}

-- uint64_t sums and differences.
abbrev pub add_u64 : ℕ → ℕ → ℕ
add_u64 a b = (a + b) % 2 ^ 64

abbrev pub sub_u64 : ℕ → ℕ → ℕ
sub_u64 a b = (a + 2 ^ 64 - b) % 2 ^ 64

-- `spinlock_acquire(&block->lock)` and `spinlock_release(&block->lock)`
unfoldable pub acquire_block : Phys → ℕ → Outcome Phys
unfolding spinlock_acquire
acquire_block m pfn = elim (spinlock_acquire (m.blocks pfn).lock) [
  | some word ↦ returns (set_block m pfn (record (m.blocks pfn) { lock = word }))
  | none ↦ spins
]

unfoldable pub release_block : Phys → ℕ → Phys
unfolding spinlock_release
release_block m pfn =
    set_block m pfn (record (m.blocks pfn) { lock = spinlock_release (m.blocks pfn).lock })

-- The same for `alloc_state->lock`.
unfoldable pub acquire_state : Phys → Outcome Phys
unfolding spinlock_acquire
acquire_state m = elim (spinlock_acquire m.state.lock) [
  | some word ↦ returns (record m { state = record m.state { lock = word } })
  | none ↦ spins
]

unfoldable pub release_state : Phys → Phys
unfolding spinlock_release
release_state m = record m { state = record m.state { lock = spinlock_release m.state.lock } }

-- The block and its PFN name the same physblock where this is called. The offset is a uint8_t.
unfoldable pub physblock_tail_to_head : Phys → ℕ → Outcome (ℕ × Phys)
physblock_tail_to_head m pfn =
    let offset = (m.blocks pfn).head_offset % 2 ^ 8 in
    let head = sub_u64 pfn offset in
    do m1 ← acquire_block (release_block m pfn) head; returns (head, m1)

unfoldable pub pfn_to_physblock_lock : Phys → ℕ → Outcome (ℕ × Phys)
pfn_to_physblock_lock m pfn = do
  m1 ← acquire_block m pfn
  if (m1.blocks pfn).head_offset == 0 then returns (pfn, m1) else physblock_tail_to_head m1 pfn

unfoldable pub phys_to_physblock_lock : Phys → ℕ → Outcome (ℕ × Phys)
unfolding pfn_to_physblock_lock
phys_to_physblock_lock m pa = pfn_to_physblock_lock m (phys_to_pfn pa)

unfoldable pub pfn_to_buddy_pfn : ℕ → ℕ → ℕ
pfn_to_buddy_pfn pfn order = bit_xor pfn (shl 1 order)

-- `none` is -1.
unfoldable pub span_from : List PhysAllocSpan → ℕ → ℕ → Option ℕ
span_from [] i pfn = none
span_from (span ∷ spans) i pfn =
    let rest = span_from spans (i + 1) pfn in
    if leb span.start_pfn pfn && ltb pfn (add_u64 span.start_pfn span.num_pages)
    then some i
    else rest

unfoldable pub pfn_to_span_locked : Phys → ℕ → Option ℕ
unfolding span_from
pfn_to_span_locked m pfn = span_from m.state.spans 0 pfn

-- Round `i` marks the physblock `i` behind the start.
unfoldable pub mark_tails : ℕ → Phys → ℕ → Phys
unfolding spinlock_release
mark_tails zero m start = m
mark_tails (suc i) m start =
    let m1 = mark_tails i m start in
    let block = m1.blocks (start + suc i) in
    set_block m1 (start + suc i) (record block {
      type = physblock_tail;
      head_offset = suc i;
      order = 0;
      lock = spinlock_release block.lock;
    })

-- `_set_tail_physblocks`; the number of blocks is a uint16_t.
unfoldable pub set_tail_physblocks : Phys → ℕ → ℕ → Phys
unfolding mark_tails
set_tail_physblocks m start order =
    let num_blocks = 2 ^ order % 2 ^ 16 in mark_tails (num_blocks - 1) m start
