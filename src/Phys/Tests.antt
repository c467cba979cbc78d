-- ===== src/Phys/Tests.antt =====
-- A memory of eight pages, freed and allocated, and a memory with one block.
use zeptux.Base.{
  ℕ, ◌+◌, ◌-◌, ◌*◌, ◌/◌, ◌^◌, ◌<◌, Option, some, List, [], ◌∷◌, ◌≡◌, ltb, ◌&&◌, ◌↔◌, inr, refl,
  ◌==◌, if◌then◌else◌, arith,
}
use zeptux.Word.{shl, align_up, is_mask_set}
use zeptux.Ring.{
  ListHeap, list_count, count_from, list_init, list_node_init, list_push_back,
  list_node_insert_before, list_detach, list_empty,
}
use zeptux.Spinlock.{spinlock_release, atomic_store_release}
use zeptux.Bitmap.Defs.{Bitmap}
use zeptux.EarlyAlloc.{EarlyPageAllocState}
use zeptux.Phys.{
  physblock_tail, Outcome, returns, panics, ◌>>=◌, physblock_kernel, pfn_to_physblock_lock,
  physblock_tail_to_head, pfn_to_buddy_pfn, set_tail_physblocks, acquire_block, acquire_state,
  release_state, release_block, node, Physblock, PhysAllocStats, Phys, free_list,
}
use zeptux.Phys.Init.{phys_alloc_init, phys_alloc_init_state, init_lists}
use zeptux.Phys.Alloc.{
  phys_alloc_block, split_block_locked, alloc_checked, alloc_locked, refill,
  split_higher_order_blocks, first_order, first_block, lock_free, split_down, halve, file_halves,
  take_block, hand_out, count_taken, alloc_flags_to_physblock_type,
}
use zeptux.Phys.Free.{phys_free_pfn, put_free}
use zeptux.Phys.Lists.{append_to}
use zeptux.Phys.Managed.{IsManaged, locked, split_lists}
use zeptux.Phys.SplitLaws.{split_block_locked-IsManaged}
use zeptux.Phys.AllocLaws.{Allocated}
use zeptux.Phys.Allocate.{phys_alloc_block-Allocated, phys_alloc_block-panics}
use zeptux.Phys.Given.{no_lists, phys_alloc_init_state-IsManaged, IsLoose, put_free-IsManaged}
use zeptux.Phys.Tails.{pfn_to_physblock_lock-tail}
use zeptux.Page.Address.{phys_to_virt, pfn_to_phys, bytes_to_pages}
use zeptux.Kmalloc.{bytes_to_order, order_from}
use zeptux.Kmalloc.OnPhys.{phys_kmalloc, kmalloc-Allocated}

abbrev pub no_stats : PhysAllocStats
no_stats = record {
  num_4k_pages = 0;
  num_free_4k_pages = 0;
  num_pagetable_pages = 0;
  num_physblock_pages = 0;
  order_free_pages = λ o. 0;
}

abbrev pub empty : Physblock
empty = record { head_offset = 0; order = 0; type = 0; refcount = 0; lock = 0 }

abbrev pub no_heap : ListHeap
no_heap = record { prev = λ a. 0; next = λ a. 0 }

abbrev pub base : ℕ
base = 2 ^ 64 - 2 ^ 47

-- The physblocks of `blocks`, a span of eight pages, and no lists yet.
abbrev pub memory : (ℕ → Physblock) → Phys
memory blocks = record {
  state = record {
    address = base;
    stats = no_stats;
    lock = 0;
    spans = record { start_pfn = 16; num_pages = 8 } ∷ [];
  };
  blocks = blocks;
  heap = no_heap;
}

abbrev pub no_bits : Bitmap
no_bits = record { num_bits = 8; num_words = 1; words = 0 ∷ [] }

-- Eight pages at PFN 16.
abbrev pub eight_pages : EarlyPageAllocState
eight_pages = record {
  total_pages = 0;
  num_allocated_pages = 0;
  num_ephemeral_pages = 0;
  num_pagetable_pages = 0;
  num_physblock_pages = 0;
  spans =
      record {
        start = 65536;
        num_pages = 8;
        num_allocated_pages = 0;
        alloc_bitmap = no_bits;
        ephemeral_bitmap = no_bits;
        pagetable_bitmap = no_bits;
        physblock_bitmap = no_bits;
      }
      ∷ [];
}

unfoldable boot : Phys
unfolding init_lists
boot = record (memory (λ p. empty)) { heap = init_lists 13 no_heap base }

-- The number of free pages, and of the blocks on the lists of the orders 0 to 3.
abbrev free_counts : Outcome Phys → Outcome (List (Option ℕ))
free_counts o = do
  m ← o
  returns (
      some m.state.stats.num_free_4k_pages
      ∷ list_count 20 m.heap (free_list m 0)
      ∷ list_count 20 m.heap (free_list m 1)
      ∷ list_count 20 m.heap (free_list m 2)
      ∷ list_count 20 m.heap (free_list m 3)
      ∷ [])

unfoldable after_init : Outcome Phys
unfolding boot phys_alloc_init init_lists
after_init = phys_alloc_init boot

unfoldable after_alloc : Outcome (ℕ × Phys)
unfolding after_init phys_alloc_block
after_alloc = do m ← after_init; phys_alloc_block 20 m 0 1

unfoldable after_free : Outcome Phys
unfolding after_alloc phys_free_pfn
after_free = do (p, m) ← after_alloc; phys_free_pfn m p

-- All eight pages are one block; one page of it is taken; and it is whole again.
joined : free_counts after_init ≡ returns (some 8 ∷ some 0 ∷ some 0 ∷ some 0 ∷ some 1 ∷ [])
unfolding after_init list_count physblock_tail_to_head set_tail_physblocks acquire_block
    release_block pfn_to_buddy_pfn list_push_back list_detach is_mask_set shl
    list_node_insert_before node list_init list_node_init count_from spinlock_release
    atomic_store_release
joined = refl

one_taken :
    free_counts (do (p, m) ← after_alloc; returns m)
    ≡ returns (some 7 ∷ some 1 ∷ some 1 ∷ some 1 ∷ some 0 ∷ [])
unfolding after_alloc list_count alloc_checked alloc_locked refill split_higher_order_blocks
    first_order first_block lock_free split_down split_block_locked halve file_halves take_block
    hand_out count_taken alloc_flags_to_physblock_type list_empty acquire_state release_state
    physblock_tail_to_head set_tail_physblocks acquire_block release_block pfn_to_buddy_pfn
    list_push_back list_detach is_mask_set shl list_node_insert_before node list_init list_node_init
    count_from spinlock_release atomic_store_release
one_taken = refl

given_back : free_counts after_free ≡ returns (some 8 ∷ some 0 ∷ some 0 ∷ some 0 ∷ some 1 ∷ [])
unfolding after_free list_count alloc_checked alloc_locked refill split_higher_order_blocks
    first_order first_block lock_free split_down split_block_locked halve file_halves take_block
    hand_out count_taken alloc_flags_to_physblock_type list_empty acquire_state release_state
    physblock_tail_to_head set_tail_physblocks acquire_block release_block pfn_to_buddy_pfn
    list_push_back list_detach is_mask_set shl list_node_insert_before node list_init list_node_init
    count_from spinlock_release atomic_store_release
given_back = refl

-- A block of eight pages at PFN 16, and its tails.
abbrev pub big : ℕ → Physblock
big p =
    if p == 16
    then record empty { order = 3; refcount = 1 }
    else if ltb 16 p && ltb p 24
    then record empty { type = physblock_tail; head_offset = p - 16 }
    else empty

pub big-quiet : (q : ℕ) → (big q).lock ≡ 0
big-quiet q = ground arith

abbrev pub fresh : Phys
fresh = phys_alloc_init_state (memory big) base eight_pages

phys_alloc_init_state-IsManaged_example :
    IsManaged (phys_alloc_init_state (memory big) base eight_pages) no_lists
phys_alloc_init_state-IsManaged_example =
    phys_alloc_init_state-IsManaged (memory big) base eight_pages (omega arith) big-quiet
      (λ o. refl) refl

pub fresh-IsLoose : IsLoose fresh no_lists 16 3
unfolding phys_alloc_init_state
fresh-IsLoose = record {
  order = refl;
  small = omega arith;
  head_offset = refl;
  aligned = refl;
  fits = omega arith;
  apart = λ i q le at. absurd at;
}

pub fresh_free : fresh.state.stats.num_free_4k_pages + 2 ^ 3 < 2 ^ 64
unfolding phys_alloc_init_state
fresh_free = omega arith

abbrev pub one_block : Phys
one_block = release_block (put_free (locked fresh 16) 16) 16

pub one_block-IsManaged : IsManaged one_block (append_to no_lists 3 16)
one_block-IsManaged =
    put_free-IsManaged fresh no_lists 16 3 phys_alloc_init_state-IsManaged_example fresh-IsLoose
      fresh_free

-- 5000 bytes take two pages of the block.
kmalloc-Allocated_example :
    (p : ℕ) × (n : Phys) × (ys : ℕ → List ℕ) × (phys_kmalloc 14 5000 1 one_block
      ≡ some (phys_to_virt (pfn_to_phys p), n))
    × Allocated one_block n (append_to no_lists 3 16) ys p 1 1029
unfolding put_free release_block phys_alloc_init_state bytes_to_order shl bytes_to_pages align_up
    order_from
kmalloc-Allocated_example =
    kmalloc-Allocated 13 one_block (append_to no_lists 3 16) 5000 1 3 refl one_block-IsManaged refl
      (omega arith) (omega arith) (16, [], refl) (omega arith)

-- One page of the block is taken, for the kernel.
phys_alloc_block-Allocated_example :
    (p : ℕ) × (n : Phys) × (ys : ℕ → List ℕ) × (phys_alloc_block 14 one_block 0 1 ≡ returns (p, n))
    × Allocated one_block n (append_to no_lists 3 16) ys p 0 physblock_kernel
unfolding put_free release_block phys_alloc_init_state alloc_flags_to_physblock_type is_mask_set
phys_alloc_block-Allocated_example =
    phys_alloc_block-Allocated 13 one_block (append_to no_lists 3 16) 0 3 1 physblock_kernel
      one_block-IsManaged refl (omega arith) (omega arith) (16, [], refl) refl (omega arith)

phys_alloc_block-panics_example : phys_alloc_block 1 fresh 2 1 ≡ panics
unfolding phys_alloc_init_state
phys_alloc_block-panics_example =
    phys_alloc_block-panics 0 fresh no_lists 2 1 phys_alloc_init_state-IsManaged_example refl
      (inr (λ i lo hi. refl))

split_block_locked-IsManaged_example :
    IsManaged
      (split_block_locked (locked one_block 16) 16)
      (split_lists (append_to no_lists 3 16) 2 16 [])
split_block_locked-IsManaged_example =
    split_block_locked-IsManaged one_block (append_to no_lists 3 16) 2 16 [] one_block-IsManaged
      (omega arith) refl

-- A block of 512 pages at PFN 512, whose page 300 is looked up.
abbrev tails : ℕ → Physblock
tails p = if p == 812 then record empty { head_offset = 300 } else empty

tails-quiet : (q : ℕ) → (tails q).lock ≡ 0
tails-quiet q = ground arith

pfn_to_physblock_lock-tail_example :
    (k : Phys) × (pfn_to_physblock_lock (memory tails) (512 + 300)
      ≡ returns (512 + 300 / 256 * 256, k))
    × ((k.blocks (512 + 300 / 256 * 256)).lock ≡ 1)
    × ((512 + 300 / 256 * 256 ≡ 512) ↔ (300 < 256))
pfn_to_physblock_lock-tail_example =
    pfn_to_physblock_lock-tail (memory tails) 512 300 tails-quiet refl (omega arith) (omega arith)
