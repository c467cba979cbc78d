-- ===== src/Phys/Alloc.antt =====
-- mm/phys.c: allocating a physblock, and splitting larger ones where none of its order is free.
use zeptux.Base.{
  ℕ, zero, suc, ◌+◌, ◌-◌, ◌%◌, ◌^◌, Bool, true, false, not, ◌||◌, Option, some, none, ◌==◌, ltb,
  if◌then◌else◌, bit_and, bit_or,
}
use zeptux.Word.{is_mask_set}
use zeptux.Ring.{list_detach, list_push_back, list_empty}
use zeptux.Phys.{
  Outcome, returns, panics, unfinished, ◌>>=◌, max_order, offsetof_node, physblock_free,
  physblock_pagetable, physblock_physblock, physblock_kernel, physblock_user, physblock_movable,
  physblock_pinned, PhysAllocStats, Phys, free_list, node, physblock_to_pfn, set_block, set_heap,
  set_stats, set_order_free, add_u64, sub_u64, acquire_block, release_block, acquire_state,
  release_state, pfn_to_buddy_pfn, set_tail_physblocks, pfn_to_physblock_raw, physblock_to_phys,
}

-- `alloc_flags_t`
abbrev pub alloc_kernel : ℕ
alloc_kernel = 1

abbrev pub alloc_user : ℕ
alloc_user = 2

abbrev pub alloc_pagetable : ℕ
alloc_pagetable = 3

abbrev pub alloc_physblock : ℕ
alloc_physblock = 4

abbrev pub alloc_movable : ℕ
alloc_movable = 2 ^ 10

abbrev pub alloc_pinned : ℕ
alloc_pinned = 2 ^ 11

-- `flags & ALLOC_TYPE_MASK`
abbrev pub alloc_type : ℕ → ℕ
alloc_type flags = bit_and flags 1023

unfoldable pub physblock_type_of : ℕ → Outcome ℕ
physblock_type_of type =
    if type == alloc_kernel
    then returns physblock_kernel
    else if type == alloc_user
    then returns physblock_user
    else if type == alloc_pagetable
    then returns physblock_pagetable
    else if type == alloc_physblock
    then returns physblock_physblock
    else panics

unfoldable pub alloc_flags_to_physblock_type : ℕ → Outcome ℕ
unfolding physblock_type_of
alloc_flags_to_physblock_type flags = do
  type ← physblock_type_of (alloc_type flags)
  let movable = if is_mask_set flags alloc_movable then bit_or type physblock_movable else type in
      returns (if is_mask_set flags alloc_pinned then bit_or movable physblock_pinned else movable)

-- `list_first_element`: from the node back to its physblock.
unfoldable pub first_block : Phys → ℕ → ℕ
unfolding physblock_to_pfn
first_block m order = physblock_to_pfn (m.heap.next (free_list m order) - offsetof_node)

-- The two halves go to the free list of their order.
unfoldable pub file_halves : Phys → ℕ → ℕ → ℕ → Phys
unfolding release_block
file_halves m block buddy new_order =
    let h1 =
      list_push_back (list_detach m.heap (node block)) (free_list m new_order) (node block) in
    let m1 = set_heap m (list_push_back h1 (free_list m new_order) (node buddy)) in
    let stats = m1.state.stats in
    let higher = sub_u64 (stats.order_free_pages (new_order + 1)) 1 in
    let s1 = set_order_free stats (new_order + 1) higher in
    let s2 = set_order_free s1 new_order (add_u64 (s1.order_free_pages new_order) 2) in
    release_block (set_stats m1 s2) block

-- The two halves, less their tails.
unfoldable pub halve : Phys → ℕ → ℕ → ℕ → Phys
halve m block buddy new_order =
    let m1 = set_block m block (record (m.blocks block) { order = new_order }) in
    set_block m1 buddy
      (record (m1.blocks buddy) { order = new_order; type = physblock_free; head_offset = 0 })

-- The new order is a uint8_t.
unfoldable pub split_block_locked : Phys → ℕ → Phys
split_block_locked m block =
    let new_order = ((m.blocks block).order + 2 ^ 8 - 1) % 2 ^ 8 in
    let buddy = pfn_to_buddy_pfn block new_order in
    let m1 = set_tail_physblocks (halve m block buddy new_order) buddy new_order in
    file_halves m1 block buddy new_order

-- The order of the first free list that has an element, in `left` rounds from `order` on.
unfoldable pub first_order : ℕ → Phys → ℕ → Option ℕ
first_order zero m order = none
first_order (suc left) m order =
    let rest = first_order left m (order + 1) in
    if list_empty m.heap (free_list m order) then rest else some order

-- Takes the lock of a block if it is free and of the order, as its list says.
unfoldable pub lock_free : Phys → ℕ → ℕ → Outcome (Bool × Phys)
lock_free m block order = do
  m1 ← acquire_block m block
  let b = m1.blocks block in
      returns (
        if not (b.type == physblock_free) || not (b.order == order)
        then (false, release_block m1 block)
        else (true, m1))

-- The loop that splits; a block that is not what its list says is tried again.
unfoldable pub split_down : ℕ → Phys → ℕ → ℕ → Outcome Phys
split_down zero m target order = unfinished
split_down (suc fuel) m target order = elim (ltb order (target + 1)) [
  | true ↦ returns m
  | false ↦ do
    (free, m1) ← lock_free m (first_block m order) order
    elim free [
      | true ↦ split_down fuel (split_block_locked m1 (first_block m order)) target (order - 1)
      | false ↦ split_down fuel m1 target order
    ]
]

unfoldable pub split_higher_order_blocks : ℕ → Phys → ℕ → Outcome Phys
split_higher_order_blocks fuel m target = elim (first_order (max_order - target) m (target + 1)) [
  | none ↦ panics
  | some order ↦ split_down fuel m target order
]

unfoldable pub count_taken : PhysAllocStats → ℕ → PhysAllocStats
count_taken stats type =
    if type == alloc_pagetable
    then record stats { num_pagetable_pages = add_u64 stats.num_pagetable_pages 1 }
    else if type == alloc_physblock
    then record stats { num_physblock_pages = add_u64 stats.num_physblock_pages 1 }
    else stats

-- The block leaves its list and gets its type; the statistics follow.
unfoldable pub hand_out : Phys → ℕ → ℕ → ℕ → ℕ → Phys
hand_out m block order flags type =
    let b = m.blocks block in
    let m1 = set_heap m (list_detach m.heap (node block)) in
    let taken = record b { type = type; refcount = (b.refcount + 1) % 2 ^ 32 } in
    let m2 = set_block m1 block taken in
    let stats = m2.state.stats in
    let s1 = record stats { num_free_4k_pages = sub_u64 stats.num_free_4k_pages (2 ^ order) } in
    let s2 = set_order_free s1 order (sub_u64 (s1.order_free_pages order) 1) in
    let m3 = set_stats m2 (count_taken s2 (alloc_type flags)) in
    release_state (release_block m3 block)

unfoldable pub take_block : Phys → ℕ → ℕ → ℕ → Outcome (ℕ × Phys)
take_block m block order flags = do
  type ← alloc_flags_to_physblock_type flags
  returns (block, hand_out m block order flags type)

-- The list of the order gets a block, if it has none.
unfoldable pub refill : ℕ → Phys → ℕ → Outcome Phys
refill fuel m order =
    if list_empty m.heap (free_list m order)
    then split_higher_order_blocks fuel m order
    else returns m

-- What follows once there are pages enough: `none` where the block was taken by somebody else.
unfoldable pub alloc_locked : ℕ → Phys → ℕ → ℕ → Outcome (Option ℕ × Phys)
alloc_locked fuel m order flags = do
  m1 ← refill fuel m order
  (free, m2) ← lock_free m1 (first_block m1 order) order
  elim free [
    | true ↦ do
      (block, m3) ← take_block m2 (first_block m1 order) order flags
      returns (some block, m3)
    | false ↦ returns (none, release_state m2)
  ]

unfoldable pub alloc_checked : ℕ → Phys → ℕ → ℕ → Outcome (Option ℕ × Phys)
alloc_checked fuel m order flags = elim (ltb m.state.stats.num_free_4k_pages (2 ^ order)) [
  | true ↦ panics
  | false ↦ alloc_locked fuel m order flags
]

-- The fuel bounds the tries, and the rounds of each.
unfoldable pub phys_alloc_block : ℕ → Phys → ℕ → ℕ → Outcome (ℕ × Phys)
phys_alloc_block zero m order flags = unfinished
phys_alloc_block (suc fuel) m order flags = elim (ltb max_order order) [
  | true ↦ panics
  | false ↦ do
    m1 ← acquire_state m
    (found, m2) ← alloc_checked fuel m1 order flags
    elim found [ some block ↦ returns (block, m2) | none ↦ phys_alloc_block fuel m2 order flags ]
]

unfoldable pub phys_alloc : ℕ → Phys → ℕ → ℕ → Outcome (ℕ × Phys)
unfolding phys_alloc_block pfn_to_physblock_raw physblock_to_phys
phys_alloc fuel m order flags = do
  (block, m1) ← phys_alloc_block fuel m order flags
  returns (physblock_to_phys (pfn_to_physblock_raw block), m1)

unfoldable pub phys_alloc_one : ℕ → Phys → Outcome (ℕ × Phys)
unfolding phys_alloc
phys_alloc_one fuel m = phys_alloc fuel m 0 alloc_kernel
