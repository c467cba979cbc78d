-- ===== src/Phys/FreeTests.antt =====
-- A block of eight pages: two halves of it that are joined again, and the whole given back.
use zeptux.Base.{
  ◌≢◌, ℕ, ◌+◌, ◌^◌, ◌<◌, some, List, [], ◌≡◌, subst, Bool-cases, ltb, ◌≤◌, inl, inr, refl, ◌==◌,
  arith,
}
use zeptux.Word.{shl}
use zeptux.Spinlock.{spinlock_release, atomic_store_release}
use zeptux.Phys.{
  masked_type, physblock_free, span_from, mark_tails, returns, pfn_to_buddy_pfn,
  set_tail_physblocks, release_block, Phys,
}
use zeptux.Phys.Init.{phys_alloc_init_state}
use zeptux.Phys.Alloc.{split_block_locked, halve, file_halves}
use zeptux.Phys.Free.{put_free, phys_free_pfn, compact_free_blocks_locked}
use zeptux.Phys.Lists.{append_to}
use zeptux.Phys.Managed.{IsManaged, locked, split_lists}
use zeptux.Phys.SplitLaws.{split_block_locked-IsManaged}
use zeptux.Phys.Join.{IsTail}
use zeptux.Phys.Tiles.{IsTiled}
use zeptux.Phys.Compact.{CompactsTo}
use zeptux.Phys.CompactLoop.{compact_free_blocks_locked-CompactsTo}
use zeptux.Phys.JoinLaws.{Changed, whole_again}
use zeptux.Phys.Rejoin.{Rejoined, join_physblocks_locked-IsManaged}
use zeptux.Phys.Given.{no_lists, phys_alloc_init_state-IsManaged}
use zeptux.Page.Address.{phys_to_pfn}
use zeptux.Phys.Freed.{Freed, phys_free_pfn-Freed}
use zeptux.Phys.Tests.{
  one_block, one_block-IsManaged, big, big-quiet, memory, base, fresh, fresh-IsLoose, fresh_free,
  eight_pages,
}

abbrev two_halves : Phys
two_halves = split_block_locked (locked one_block 16) 16

abbrev half_lists : ℕ → List ℕ
half_lists = split_lists (append_to no_lists 3 16) 2 16 []

two_halves-IsManaged : IsManaged two_halves half_lists
two_halves-IsManaged =
    split_block_locked-IsManaged one_block (append_to no_lists 3 16) 2 16 [] one_block-IsManaged
      (omega arith) refl

tails_of_16 : (r : ℕ) → 16 < r → r < 16 + 2 ^ 2 → IsTail 16 r (two_halves.blocks r)
unfolding split_block_locked halve file_halves set_tail_physblocks release_block pfn_to_buddy_pfn
    shl spinlock_release atomic_store_release put_free phys_alloc_init_state mark_tails
tails_of_16 r lo hi = elim (Bool-cases (r == 17)) [
  | inl e ↦
      let at : 17 ≡ r = ground arith in
      subst (λ t. IsTail 16 t (two_halves.blocks t)) at
        (record { type = refl; head_offset = refl; unlocked = refl })
  | inr e ↦ elim (Bool-cases (r == 18)) [
    | inl f ↦
        let at : 18 ≡ r = ground arith in
        subst (λ t. IsTail 16 t (two_halves.blocks t)) at
          (record { type = refl; head_offset = refl; unlocked = refl })
    | inr f ↦
        let at : 19 ≡ r = ground arith in
        subst (λ t. IsTail 16 t (two_halves.blocks t)) at
          (record { type = refl; head_offset = refl; unlocked = refl })
  ]
]

tails_of_20 : (r : ℕ) → 20 < r → r < 20 + 2 ^ 2 → IsTail 20 r (two_halves.blocks r)
unfolding split_block_locked halve file_halves set_tail_physblocks release_block pfn_to_buddy_pfn
    shl spinlock_release atomic_store_release put_free phys_alloc_init_state mark_tails
tails_of_20 r lo hi = elim (Bool-cases (r == 21)) [
  | inl e ↦
      let at : 21 ≡ r = ground arith in
      subst (λ t. IsTail 20 t (two_halves.blocks t)) at
        (record { type = refl; head_offset = refl; unlocked = refl })
  | inr e ↦ elim (Bool-cases (r == 22)) [
    | inl f ↦
        let at : 22 ≡ r = ground arith in
        subst (λ t. IsTail 20 t (two_halves.blocks t)) at
          (record { type = refl; head_offset = refl; unlocked = refl })
    | inr f ↦
        let at : 23 ≡ r = ground arith in
        subst (λ t. IsTail 20 t (two_halves.blocks t)) at
          (record { type = refl; head_offset = refl; unlocked = refl })
  ]
]

two_heads :
    ((two_halves.blocks 16).order ≡ 2)
    × ((two_halves.blocks 16).head_offset ≡ 0)
    × ((two_halves.blocks 20).order ≡ 2)
    × ((two_halves.blocks 20).head_offset ≡ 0)
unfolding split_block_locked halve file_halves set_tail_physblocks release_block pfn_to_buddy_pfn
    shl spinlock_release atomic_store_release put_free phys_alloc_init_state mark_tails
two_heads = (refl, refl, refl, refl)

in_span : (q i : ℕ) → span_from two_halves.state.spans 0 q ≡ some i → (16 ≤ q) × (q < 24)
unfolding split_block_locked halve file_halves set_tail_physblocks release_block pfn_to_buddy_pfn
    shl spinlock_release atomic_store_release put_free phys_alloc_init_state mark_tails span_from
    phys_to_pfn
in_span q i e = (ground (arith, e), ground (arith, e))

two_halves-IsTiled : IsTiled two_halves half_lists
two_halves-IsTiled q i e =
    let (lo, hi) = in_span q i e in
    let (a, b, c, d) = two_heads in
    elim (Bool-cases (ltb q 20)) [
      | inl left ↦ (
        16,
        2,
        record {
          small = omega arith;
          low = lo;
          high = ground arith;
          aligned = refl;
          order = a;
          head_offset = b;
          tails = tails_of_16;
          listed = λ f. inl refl;
        },
      )
      | inr right ↦ (
        20,
        2,
        record {
          small = omega arith;
          low = ground arith;
          high = ground arith;
          aligned = refl;
          order = c;
          head_offset = d;
          tails = tails_of_20;
          listed = λ f. inr (inl refl);
        },
      )
    ]

-- From the left half, the two are joined, and then there is no buddy in the span.
compact_free_blocks_locked-CompactsTo_example :
    CompactsTo two_halves half_lists (compact_free_blocks_locked (locked two_halves 16) 16)
compact_free_blocks_locked-CompactsTo_example =
    compact_free_blocks_locked-CompactsTo two_halves half_lists 2 16 two_halves-IsManaged
      two_halves-IsTiled (omega arith) (inl refl)

-- The two halves of the block are joined again.
join_physblocks_locked-IsManaged_example :
    (ys : ℕ → List ℕ) × IsManaged
      (whole_again (split_block_locked (locked one_block 16) 16) 16 2)
      ys
    × Rejoined (split_lists (append_to no_lists 3 16) 2 16 []) ys 2 16
    × Changed
        (split_block_locked (locked one_block 16) 16)
        (whole_again (split_block_locked (locked one_block 16) 16) 16 2)
        2
        16
join_physblocks_locked-IsManaged_example =
    join_physblocks_locked-IsManaged (split_block_locked (locked one_block 16) 16)
      (split_lists (append_to no_lists 3 16) 2 16 []) 2 16 two_halves-IsManaged (omega arith) refl
      (inl refl) (inr (inl refl))

fresh_span : (q i : ℕ) → span_from fresh.state.spans 0 q ≡ some i → (16 ≤ q) × (q < 24)
unfolding phys_alloc_init_state span_from phys_to_pfn
fresh_span q i e = (ground (arith, e), ground (arith, e))

fresh-IsManaged : IsManaged fresh no_lists
fresh-IsManaged =
    phys_alloc_init_state-IsManaged (memory big) base eight_pages (omega arith) big-quiet
      (λ o. refl) refl

fresh_tails : (r : ℕ) → 16 < r → r < 16 + 2 ^ 3 → IsTail 16 r (fresh.blocks r)
unfolding phys_alloc_init_state
fresh_tails r lo hi = record {
  type = ground arith;
  head_offset = ground arith;
  unlocked = ground arith;
}

fresh_block : ((fresh.blocks 16).order ≡ 3) × ((fresh.blocks 16).head_offset ≡ 0)
unfolding phys_alloc_init_state
fresh_block = (refl, refl)

fresh_in_use : masked_type (fresh.blocks 16).type ≢ physblock_free
unfolding phys_alloc_init_state
fresh_in_use e = omega (arith, e)

fresh_once : ((fresh.blocks 16).refcount ≡ 1) × (fresh.state.lock ≡ 0)
unfolding phys_alloc_init_state
fresh_once = (refl, refl)

fresh-IsTiled : IsTiled fresh no_lists
fresh-IsTiled q i e =
    let (lo, hi) = fresh_span q i e in
    (
      16,
      3,
      record {
        small = omega arith;
        low = lo;
        high = omega arith;
        aligned = refl;
        order = fresh_block.0;
        head_offset = fresh_block.1;
        tails = fresh_tails;
        listed = λ f. absurd (fresh_in_use f);
      },
    )

phys_free_pfn-Freed_example :
    (k : Phys) × (ys : ℕ → List ℕ) × (phys_free_pfn fresh 16 ≡ returns k)
    × Freed fresh k no_lists ys 16 3
phys_free_pfn-Freed_example =
    phys_free_pfn-Freed fresh no_lists 16 3 fresh-IsManaged fresh-IsTiled fresh-IsLoose fresh_once.0
      fresh_in_use fresh_once.1 fresh_free
