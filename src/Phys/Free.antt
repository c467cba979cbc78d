-- ===== src/Phys/Free.antt =====
-- mm/phys.c: freeing a physblock, and joining it with its buddy as often as the buddy is free too.
use zeptux.Base.{
  ℕ, zero, suc, ◌+◌, ◌-◌, ◌^◌, Bool, true, false, not, ◌||◌, Option, some, none, ◌==◌, ltb,
  if◌then◌else◌,
}
use zeptux.Ring.{list_detach, list_push_back}
use zeptux.Phys.{
  Outcome, returns, ◌>>=◌, max_order, physblock_free, physblock_pagetable, physblock_physblock,
  masked_type, PhysAllocStats, Phys, free_list, node, set_block, set_heap, set_stats,
  set_order_free, add_u64, sub_u64, acquire_state, release_state, release_block,
  pfn_to_physblock_lock, pfn_to_buddy_pfn, pfn_to_span_locked, set_tail_physblocks,
}
use zeptux.Page.Address.{phys_to_pfn}

-- No buddy where it or the block lies in no span, or where they lie in different ones.
unfoldable pub physblock_to_buddy_lock : Phys → ℕ → Outcome (Option ℕ × Phys)
unfolding pfn_to_buddy_pfn pfn_to_span_locked
physblock_to_buddy_lock m pfn =
    let buddy_pfn = pfn_to_buddy_pfn pfn (m.blocks pfn).order in
    elim (same_span (pfn_to_span_locked m pfn) (pfn_to_span_locked m buddy_pfn)) [
      | true ↦ do (buddy, m1) ← pfn_to_physblock_lock m buddy_pfn; returns (some buddy, m1)
      | false ↦ returns (none, m)
    ]
  where
    same_span : Option ℕ → Option ℕ → Bool
    same_span (some a) (some b) = a == b
    same_span (some a) none = false
    same_span none b = false

-- `_join_physblocks_locked`
unfoldable pub join_physblocks_locked : Phys → ℕ → ℕ → ℕ → Phys
join_physblocks_locked m head tail order =
    let m1 = set_block m head (record (m.blocks head) { order = order }) in
    let h1 = list_detach (list_detach m1.heap (node head)) (node tail) in
    let m2 = set_heap m1 (list_push_back h1 (free_list m order) (node head)) in
    let m3 = set_tail_physblocks m2 head order in
    let stats = m3.state.stats in
    let lower = sub_u64 (stats.order_free_pages (order - 1)) 2 in
    let s1 = set_order_free stats (order - 1) lower in
    set_stats m3 (set_order_free s1 order (add_u64 (s1.order_free_pages order) 1))

-- The rounds of the loop, from `order` on; it gives the block that is free in the end.
unfoldable pub compact_from : ℕ → Phys → ℕ → ℕ → Outcome (ℕ × Phys)
unfolding physblock_to_buddy_lock join_physblocks_locked release_block
compact_from zero m block order = returns (block, m)
compact_from (suc left) m block order = do
  (found, m1) ← physblock_to_buddy_lock m block
  elim found [
    | none ↦ returns (block, m1)
    | some buddy ↦
        let b = m1.blocks buddy in
        elim (not (masked_type b.type == physblock_free) || not (b.order == order)) [
          | true ↦ returns (block, release_block m1 buddy)
          | false ↦ elim (ltb buddy block) [
            | true ↦
                compact_from left (join_physblocks_locked m1 buddy block (order + 1)) buddy
                  (order + 1)
            | false ↦
                compact_from left (join_physblocks_locked m1 block buddy (order + 1)) block
                  (order + 1)
          ]
        ]
  ]

unfoldable pub compact_free_blocks_locked : Phys → ℕ → Outcome (ℕ × Phys)
unfolding compact_from
compact_free_blocks_locked m block =
    let order = (m.blocks block).order in compact_from (max_order - order) m block order

-- The statistics of the pages of one type, as freeing changes them.
unfoldable pub count_freed : PhysAllocStats → ℕ → PhysAllocStats
count_freed stats type =
    if type == physblock_pagetable
    then record stats { num_pagetable_pages = sub_u64 stats.num_pagetable_pages 1 }
    else if type == physblock_physblock
    then record stats { num_physblock_pages = sub_u64 stats.num_physblock_pages 1 }
    else stats

-- The block becomes free and joins the list of its order.
unfoldable pub put_free : Phys → ℕ → Phys
unfolding count_freed
put_free m block =
    let b = m.blocks block in
    let s1 = count_freed m.state.stats (masked_type b.type) in
    let s2 = record s1 { num_free_4k_pages = add_u64 s1.num_free_4k_pages (2 ^ b.order) } in
    let s3 = set_order_free s2 b.order (add_u64 (s2.order_free_pages b.order) 1) in
    let m1 = set_block m block (record b { type = physblock_free }) in
    let m2 = set_heap m1 (list_push_back m1.heap (free_list m1 b.order) (node block)) in
    set_stats m2 s3

-- `goto compact` and what follows.
unfoldable pub finish_free : Phys → ℕ → Outcome Phys
unfolding compact_free_blocks_locked release_state release_block
finish_free m block = do
  (joined, m1) ← compact_free_blocks_locked m block
  returns (release_block (release_state m1) joined)

unfoldable pub free_last : Phys → ℕ → Outcome Phys
unfolding acquire_state put_free finish_free
free_last m block = do
  m1 ← acquire_state m
  elim (masked_type (m1.blocks block).type == physblock_free) [
    | true ↦ finish_free m1 block
    | false ↦ finish_free (put_free m1 block) block
  ]

unfoldable pub free_physblock_locked : Phys → ℕ → Outcome Phys
unfolding free_last release_block
free_physblock_locked m block =
    let b = m.blocks block in
    elim (b.refcount == 0) [
      | true ↦ returns (release_block m block)
      | false ↦ elim (ltb 1 b.refcount) [
        | true ↦
            returns
              (release_block (set_block m block (record b { refcount = b.refcount - 1 })) block)
        | false ↦ free_last (set_block m block (record b { refcount = 0 })) block
      ]
    ]

unfoldable pub phys_free_pfn : Phys → ℕ → Outcome Phys
unfolding pfn_to_physblock_lock free_physblock_locked
phys_free_pfn m pfn = do (block, m1) ← pfn_to_physblock_lock m pfn; free_physblock_locked m1 block

unfoldable pub phys_free : Phys → ℕ → Outcome Phys
unfolding phys_free_pfn
phys_free m pa = phys_free_pfn m (phys_to_pfn pa)
