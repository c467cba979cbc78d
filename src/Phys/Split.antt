-- ===== src/Phys/Split.antt =====
-- What splitting a block in two halves leaves in the memory.
use zeptux.Base.{
  ℕ, zero, suc, ◌+◌, ◌-◌, ◌*◌, ◌%◌, ◌^◌, ◌≤◌, ◌<◌, ◌≡◌, ◌≢◌, ◌⊎◌, inl, inr, refl, ap, ap₂, ◌∙◌,
  ◌==◌, arith, if◌then◌else◌,
}
use native.Mathlib.Nat.{pow-suc}
use zeptux.Ring.{ListHeap, list_detach, list_push_back}
use zeptux.Spinlock.{spinlock_release, atomic_store_release}
use zeptux.Phys.{
  max_order, physblock_free, Physblock, PhysAllocState, Phys, free_list, node, add_u64, sub_u64,
  mark_tails, set_tail_physblocks, release_block,
}
use zeptux.Phys.Buddy.{pfn_to_buddy_pfn-Buddies, two_pow_lt, two_pow_pos}
use zeptux.Phys.Alloc.{file_halves, halve, split_block_locked}

-- One block less of the order `n + 1`, two more of the order `n`.
abbrev pub recount : (ℕ → ℕ) → ℕ → ℕ → ℕ
recount counts n o =
    if o == n
    then add_u64 (if n == n + 1 then sub_u64 (counts (n + 1)) 1 else counts n) 2
    else if o == n + 1
    then sub_u64 (counts (n + 1)) 1
    else counts o

-- Marking tails touches nothing but the tails.
pub record Marked (i : ℕ) (m k : Phys) (start : ℕ) : Type 0 where
  pub state : k.state ≡ m.state
  pub heap : k.heap ≡ m.heap
  pub others : (q : ℕ) → (q ≤ start) ⊎ (start + i < q) → k.blocks q ≡ m.blocks q
  pub locks : (q : ℕ) → (m.blocks q).lock ≡ 0 → (k.blocks q).lock ≡ 0

mark_tails-Marked : (i : ℕ) (m : Phys) (start : ℕ) → Marked i m (mark_tails i m start) start
unfolding mark_tails spinlock_release atomic_store_release
mark_tails-Marked zero m start = record {
  state = refl;
  heap = refl;
  others = λ q h. refl;
  locks = λ q z. z;
}
mark_tails-Marked (suc i) m start =
    let r = mark_tails-Marked i m start in
    record {
      state = r.state;
      heap = r.heap;
      others = λ q h. ground (arith, r.others q);
      locks = λ q z. ground (arith, r.locks q);
    }

pub set_tail_physblocks-Marked :
    (m : Phys) (start order : ℕ)
    → order ≤ max_order
    → Marked (2 ^ order - 1) m (set_tail_physblocks m start order) start
unfolding set_tail_physblocks
set_tail_physblocks-Marked m start order le =
    let e : 2 ^ order % 2 ^ 16 ≡ 2 ^ order = omega (arith, two_pow_lt order 16 (omega arith)) in
    rw e (mark_tails-Marked (2 ^ order - 1) m start)

-- The block at `p` of the order `n + 1` in the memory `m`, as `k` has it in two halves.
pub record Halved (m k : Phys) (p n : ℕ) : Type 0 where
  pub heap :
      k.heap
      ≡ list_push_back
          (list_push_back (list_detach m.heap (node p)) (free_list m n) (node p))
          (free_list m n)
          (node (p + 2 ^ n))
  pub state : k.state ≡ record m.state {
    stats = record m.state.stats { order_free_pages = recount m.state.stats.order_free_pages n };
  }
  pub left : k.blocks p ≡ record (m.blocks p) { order = n; lock = 0 }
  pub right :
      k.blocks (p + 2 ^ n)
      ≡ record (m.blocks (p + 2 ^ n)) { order = n; type = physblock_free; head_offset = 0 }
  pub others : (q : ℕ) → (q < p) ⊎ (p + 2 ^ (n + 1) ≤ q) → k.blocks q ≡ m.blocks q
  pub locks : (q : ℕ) → q ≢ p → (m.blocks q).lock ≡ 0 → (k.blocks q).lock ≡ 0

-- `k` has the blocks of `m` with the lock of the block at `p` released.
record Filed (m k : Phys) (p n : ℕ) : Type 0 where
  heap :
      k.heap
      ≡ list_push_back
          (list_push_back (list_detach m.heap (node p)) (free_list m n) (node p))
          (free_list m n)
          (node (p + 2 ^ n))
  state : k.state ≡ record m.state {
    stats = record m.state.stats { order_free_pages = recount m.state.stats.order_free_pages n };
  }
  block : k.blocks p ≡ record (m.blocks p) { lock = 0 }
  others : (q : ℕ) → q ≢ p → k.blocks q ≡ m.blocks q

file_halves-Filed : (m : Phys) (p n : ℕ) → Filed m (file_halves m p (p + 2 ^ n) n) p n
unfolding file_halves release_block spinlock_release atomic_store_release
file_halves-Filed m p n = record {
  heap = refl;
  state = refl;
  block = ground arith;
  others = λ q ne. ground arith;
}

halve_left :
    (m : Phys) (p n : ℕ) → (halve m p (p + 2 ^ n) n).blocks p ≡ record (m.blocks p) { order = n }
unfolding halve
halve_left m p n = ground (arith, two_pow_pos n)

halve_right :
    (m : Phys) (p n : ℕ)
    → (halve m p (p + 2 ^ n) n).blocks (p + 2 ^ n)
      ≡ record (m.blocks (p + 2 ^ n)) { order = n; type = physblock_free; head_offset = 0 }
unfolding halve
halve_right m p n = ground (arith, two_pow_pos n)

halve_others :
    (m : Phys) (p n q : ℕ) → q ≢ p → q ≢ p + 2 ^ n → (halve m p (p + 2 ^ n) n).blocks q ≡ m.blocks q
unfolding halve
halve_others m p n q a b = ground arith

halve_locks :
    (m : Phys) (p n q : ℕ) → (m.blocks q).lock ≡ 0 → ((halve m p (p + 2 ^ n) n).blocks q).lock ≡ 0
unfolding halve
halve_locks m p n q z = ground arith

halve_rest :
    (m : Phys) (p n : ℕ)
    → ((halve m p (p + 2 ^ n) n).heap ≡ m.heap) × ((halve m p (p + 2 ^ n) n).state ≡ m.state)
unfolding halve
halve_rest m p n = (refl, refl)

pub two_pow_next : (n : ℕ) → 2 ^ (n + 1) ≡ 2 ^ n + 2 ^ n
two_pow_next n = let e : n + 1 ≡ suc n = omega arith in rw e (omega (arith, pow-suc 2 n))

pub split_block_locked-Halved :
    (m : Phys) (p n : ℕ)
    → (m.blocks p).order ≡ suc n
    → n < max_order
    → p % 2 ^ (n + 1) ≡ 0
    → p < 2 ^ 40
    → Halved m (split_block_locked m p) p n
unfolding split_block_locked
split_block_locked-Halved m p n o lt al small =
    let e : ((m.blocks p).order + 2 ^ 8 - 1) % 2 ^ 8 ≡ n = omega arith in
    let (twice, halves) = pfn_to_buddy_pfn-Buddies n p (omega arith) (omega arith) in
    let (buddy, back) = halves al in
    let h = halve m p (p + 2 ^ n) n in
    let k = set_tail_physblocks h (p + 2 ^ n) n in
    let tails = set_tail_physblocks-Marked h (p + 2 ^ n) n (omega arith) in
    let filed = file_halves-Filed k p n in
    let (same_heap, same_state) = halve_rest m p n in
    let heap : k.heap ≡ m.heap = tails.heap ∙ same_heap in
    let state : k.state ≡ m.state = tails.state ∙ same_state in
    let pos = two_pow_pos n in
    let double = two_pow_next n in
    rw (e, buddy)
      (record {
        heap =
            filed.heap
            ∙ ap₂
                (λ (hp : ListHeap) (st : PhysAllocState).
                  list_push_back
                    (list_push_back (list_detach hp (node p)) (st.address + 16 * n) (node p))
                    (st.address + 16 * n) (node (p + 2 ^ n)))
                heap state;
        state =
            filed.state
            ∙ ap
                (λ (st : PhysAllocState). record st {
                  stats = record st.stats {
                    order_free_pages = recount st.stats.order_free_pages n;
                  };
                })
                state;
        left =
            filed.block
            ∙ ap (λ (b : Physblock). record b { lock = 0 })
                (tails.others p (inl (omega arith)) ∙ halve_left m p n);
        right =
            filed.others (p + 2 ^ n) (λ z. omega (arith, z))
            ∙ tails.others (p + 2 ^ n) (inl (omega arith))
            ∙ halve_right m p n;
        locks = λ q ne z.
            ap (λ (b : Physblock). b.lock) (filed.others q ne)
            ∙ tails.locks q (halve_locks m p n q z);
        others = λ q out.
            filed.others q (λ z. ground (arith, z, out))
            ∙ tails.others q (elim out [ inl b ↦ inl (omega arith) | inr a ↦ inr (omega arith) ])
            ∙ halve_others m p n q (λ z. ground (arith, z, out)) (λ z. ground (arith, z, out));
      })
