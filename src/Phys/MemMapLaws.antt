-- ===== src/Phys/MemMapLaws.antt =====
-- What the physblocks of a span say after they are initialised.
use zeptux.Base.{
  ℕ, zero, suc, ◌+◌, ◌*◌, ◌/◌, ◌%◌, ◌^◌, ◌≤◌, ◌<◌, Bool, not, ◌&&◌, ◌||◌, ◌≡◌, ◌≢◌, ◌⊎◌, inl, inr,
  refl, sym, subst, ◌∙◌, ◌==◌, if◌then◌else◌, Bool-cases, arith, ==_self,
}
use zeptux.Ring.{list_node_init}
use zeptux.Spinlock.{spinlock_acquire, spinlock_release, atomic_store_release}
use zeptux.Bitmap.View.{member, is_set-member}
use zeptux.Page.Address.{phys_to_pfn}
use zeptux.EarlyAlloc.{EarlyPageAllocSpan}
use zeptux.Phys.{
  returns, physblock_unmanaged, physblock_pagetable, physblock_physblock, masked_type, Physblock,
  Phys, node, set_block, set_heap, release_block, acquire_block, pfn_to_physblock_lock,
  phys_to_physblock_lock,
}
use zeptux.Phys.MemMap.{
  span_to_phys, describe, init_physblock, init_physblocks, init_physblock_span,
}

-- The PFN of page `i` of a span.
abbrev pub page : EarlyPageAllocSpan → ℕ → ℕ
page span i = span.start / 4096 + i

span_to_phys-page :
    (span : EarlyPageAllocSpan) (i : ℕ)
    → span.start % 4096 ≡ 0
    → span.start + 4096 * i < 2 ^ 64
    → phys_to_pfn (span_to_phys span i) ≡ page span i
unfolding span_to_phys phys_to_pfn
span_to_phys-page span i al lt = omega arith

-- Zeroed, as the pages for the physblocks are.
pub record IsBlank (b : Physblock) : Type 0 where
  pub type : b.type ≡ 0
  pub refcount : b.refcount ≡ 0
  pub head_offset : b.head_offset ≡ 0
  pub lock : b.lock ≡ 0

pfn_to_physblock_lock-free :
    (m : Phys) (p : ℕ)
    → IsBlank (m.blocks p)
    → pfn_to_physblock_lock m p ≡ returns (p, set_block m p (record (m.blocks p) { lock = 1 }))
unfolding pfn_to_physblock_lock acquire_block spinlock_acquire
pfn_to_physblock_lock-free m p b = rw (acquire_block, b.lock, ==_self p, b.head_offset) refl

-- The memory after the round for the block `p`.
after : EarlyPageAllocSpan → ℕ → ℕ → Phys → Phys
after span i p m =
    let m1 = set_block m p (record (m.blocks p) { lock = 1 }) in
    let m2 = set_heap m1 (list_node_init m1.heap (node p)) in
    release_block (set_block m2 p (describe span i (m2.blocks p))) p

init_physblock-after :
    (m : Phys) (span : EarlyPageAllocSpan) (i : ℕ)
    → span.start % 4096 ≡ 0
    → span.start + 4096 * i < 2 ^ 64
    → IsBlank (m.blocks (page span i))
    → init_physblock span i m ≡ returns (after span i (page span i) m)
unfolding init_physblock phys_to_physblock_lock after
init_physblock-after m span i al lt b =
    rw (span_to_phys-page span i al lt, pfn_to_physblock_lock-free m (page span i) b) refl

after_here :
    (span : EarlyPageAllocSpan) (i p : ℕ) (m : Phys)
    → (after span i p m).blocks p
      ≡ record (describe span i (record (m.blocks p) { lock = 1 })) { lock = 0 }
unfolding after release_block spinlock_release atomic_store_release
after_here span i p m = rw (==_self p) refl

after_others :
    (span : EarlyPageAllocSpan) (i p q : ℕ) (m : Phys)
    → q ≢ p
    → (after span i p m).blocks q ≡ m.blocks q
unfolding after release_block
after_others span i p q m ne = ground arith

after_state : (span : EarlyPageAllocSpan) (i p : ℕ) (m : Phys) → (after span i p m).state ≡ m.state
unfolding after release_block
after_state span i p m = refl

-- The page goes to the physical allocator: it is free, or will be given up.
abbrev pub handed_over : EarlyPageAllocSpan → ℕ → Bool
handed_over span i = not (member span.alloc_bitmap i) || member span.ephemeral_bitmap i

-- What the physblock of page `i` says of the page.
pub record Describes (span : EarlyPageAllocSpan) (i : ℕ) (b : Physblock) : Type 0 where
  pub unmanaged : (masked_type b.type == physblock_unmanaged) ≡ handed_over span i
  pub pagetable :
      (masked_type b.type == physblock_pagetable)
      ≡ (not (handed_over span i) && member span.pagetable_bitmap i)
  pub physblock : (masked_type b.type == physblock_physblock) ≡ (
      not (handed_over span i)
      && (not (member span.pagetable_bitmap i) && member span.physblock_bitmap i))
  -- PHYSBLOCK_KERNEL (5) with PHYSBLOCK_MOVABLE (bit 10).
  pub kernel : (b.type == 5 + 2 ^ 10) ≡ (
      not (handed_over span i)
      && (not (member span.pagetable_bitmap i) && not (member span.physblock_bitmap i)))
  pub referenced : b.refcount ≡ (if handed_over span i then 0 else 1)
  pub head_offset : b.head_offset ≡ 0
  pub unlocked : b.lock ≡ 0

describe-Describes :
    (span : EarlyPageAllocSpan) (i : ℕ) (b : Physblock)
    → IsBlank b
    → Describes span i (record (describe span i (record b { lock = 1 })) { lock = 0 })
unfolding describe
describe-Describes span i b blank =
    let a = is_set-member span.alloc_bitmap i in
    let e = is_set-member span.ephemeral_bitmap i in
    let p = is_set-member span.pagetable_bitmap i in
    let q = is_set-member span.physblock_bitmap i in
    record {
      unmanaged = ground (arith, a, e, p, q, blank.type);
      pagetable = ground (arith, a, e, p, q, blank.type);
      physblock = ground (arith, a, e, p, q, blank.type);
      kernel = ground (arith, a, e, p, q, blank.type);
      referenced = ground (arith, a, e, p, q, blank.refcount);
      head_offset = ground (arith, blank.head_offset);
      unlocked = refl;
    }

-- The pages from `i` on, `left` of them, have their physblocks; nothing else has changed, but for
-- the list nodes.
pub record Described (left : ℕ) (span : EarlyPageAllocSpan) (i : ℕ) (m n : Phys) : Type 0 where
  pub blocks : (k : ℕ) → i ≤ k → k < i + left → Describes span k (n.blocks (page span k))
  pub others : (q : ℕ) → (q < page span i) ⊎ (page span i + left ≤ q) → n.blocks q ≡ m.blocks q
  pub state : n.state ≡ m.state

init_physblocks-Described :
    (left : ℕ) (span : EarlyPageAllocSpan) (i : ℕ) (m : Phys)
    → span.start % 4096 ≡ 0
    → span.start + 4096 * (i + left) ≤ 2 ^ 64
    → ((k : ℕ) → i ≤ k → k < i + left → IsBlank (m.blocks (page span k)))
    → (n : Phys) × (init_physblocks left span i m ≡ returns n) × Described left span i m n
unfolding init_physblocks
init_physblocks-Described zero span i m al lt blank =
    (m, refl, record { blocks = λ k a b. absurd (omega arith); others = λ q h. refl; state = refl })
init_physblocks-Described (suc left) span i m al lt blank =
    let p = page span i in
    let m1 = after span i p m in
    let first = blank i (omega arith) (omega arith) in
    let (n, runs, rest) = init_physblocks-Described left span (i + 1) m1 al (omega arith) (λ k a b.
      subst IsBlank (sym (after_others span i p (page span k) m (omega arith)))
        (blank k (omega arith) (omega arith))) in
    (
      n,
      rw (init_physblock-after m span i al (omega arith) first) runs,
      record {
        blocks = λ k a b. elim (Bool-cases (i == k)) [
          | inl e ↦
              subst (λ j. Describes span j (n.blocks (page span j))) (ground arith)
                (subst (Describes span i)
                  (sym (rest.others p (inl (omega arith)) ∙ after_here span i p m))
                  (describe-Describes span i (m.blocks p) first))
          | inr e ↦ rest.blocks k (ground arith) (omega arith)
        ];
        others = λ q out.
            rest.others q (elim out [ inl z ↦ inl (omega arith) | inr z ↦ inr (omega arith) ])
            ∙ after_others span i p q m (λ z. ground (arith, z, out));
        state = rest.state ∙ after_state span i p m;
      },
    )

-- On zeroed physblocks `init_physblock_span` returns, and then the physblock of each page of the
-- span says what its bitmaps say of the page: it is left unmanaged, with no reference, just when
-- the page is free or ephemeral; otherwise it has one reference and the type of a page table, if
-- that bitmap has the page, or else of a page of physblocks, if that bitmap has it, or else of
-- movable kernel memory. No lock is held, no other physblock has changed, nor the state of
-- the allocator. The span is page-aligned and ends at 2 ^ 64 at most.
pub init_physblock_span-Described :
    (span : EarlyPageAllocSpan) (m : Phys)
    → span.start % 4096 ≡ 0
    → span.start + 4096 * span.num_pages ≤ 2 ^ 64
    → ((k : ℕ) → k < span.num_pages → IsBlank (m.blocks (page span k)))
    → (n : Phys) × (init_physblock_span span m ≡ returns n) × Described span.num_pages span 0 m n
unfolding init_physblock_span
init_physblock_span-Described span m al fits blank =
    init_physblocks-Described span.num_pages span 0 m al (omega arith)
      (λ k a b. blank k (omega arith))
