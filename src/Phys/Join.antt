-- ===== src/Phys/Join.antt =====
-- What joining two blocks leaves in the memory.
use zeptux.Base.{
  ℕ, zero, suc, ◌+◌, ◌-◌, ◌%◌, ◌^◌, ◌≤◌, ◌<◌, ◌≡◌, ◌≢◌, ◌⊎◌, inl, inr, refl, ap, ◌∙◌, ◌==◌, arith,
  if◌then◌else◌, Bool-cases,
}
use zeptux.Ring.{list_detach, list_push_back}
use zeptux.Spinlock.{spinlock_release, atomic_store_release}
use zeptux.Phys.{
  max_order, physblock_tail, Physblock, PhysAllocState, Phys, free_list, node, add_u64, sub_u64,
  mark_tails, set_tail_physblocks, set_block, set_heap,
}
use zeptux.Phys.Free.{join_physblocks_locked}
use zeptux.Phys.Buddy.{two_pow_lt, two_pow_pos}
use zeptux.Phys.Split.{set_tail_physblocks-Marked}

-- A tail of the block at `start`.
pub record IsTail (start q : ℕ) (b : Physblock) : Type 0 where
  pub type : b.type ≡ physblock_tail
  pub head_offset : b.head_offset ≡ q - start
  pub unlocked : b.lock ≡ 0

mark_tails-IsTail :
    (i : ℕ) (m : Phys) (start q : ℕ)
    → start < q
    → q ≤ start + i
    → IsTail start q ((mark_tails i m start).blocks q)
unfolding mark_tails spinlock_release atomic_store_release
mark_tails-IsTail zero m start q a b = absurd (omega arith)
mark_tails-IsTail (suc i) m start q a b = elim (Bool-cases (q == start + suc i)) [
  | inl last ↦ rw last (record { type = refl; head_offset = ground arith; unlocked = refl })
  | inr before ↦ rw before (mark_tails-IsTail i m start q a (ground arith))
]

set_tail_physblocks-IsTail :
    (m : Phys) (start order q : ℕ)
    → order ≤ max_order
    → start < q
    → q < start + 2 ^ order
    → IsTail start q ((set_tail_physblocks m start order).blocks q)
unfolding set_tail_physblocks
set_tail_physblocks-IsTail m start order q le a b =
    let e : 2 ^ order % 2 ^ 16 ≡ 2 ^ order = omega (arith, two_pow_lt order 16 (omega arith)) in
    rw e (mark_tails-IsTail (2 ^ order - 1) m start q a (omega arith))

-- Two blocks less of the order `n`, one more of the order `n + 1`.
abbrev pub rejoin : (ℕ → ℕ) → ℕ → ℕ → ℕ
rejoin counts n o =
    if o == n + 1
    then add_u64 (if n + 1 == n then sub_u64 (counts n) 2 else counts (n + 1)) 1
    else if o == n
    then sub_u64 (counts n) 2
    else counts o

-- The blocks of the order `n` at `p` and behind it in the memory `m`, as `k` has them in one.
pub record Joined (m k : Phys) (p n : ℕ) : Type 0 where
  pub heap :
      k.heap
      ≡ list_push_back
          (list_detach (list_detach m.heap (node p)) (node (p + 2 ^ n)))
          (free_list m (n + 1))
          (node p)
  pub state : k.state ≡ record m.state {
    stats = record m.state.stats { order_free_pages = rejoin m.state.stats.order_free_pages n };
  }
  pub head : k.blocks p ≡ record (m.blocks p) { order = n + 1 }
  pub tails : (q : ℕ) → p < q → q < p + 2 ^ (n + 1) → IsTail p q (k.blocks q)
  pub others : (q : ℕ) → (q < p) ⊎ (p + 2 ^ (n + 1) ≤ q) → k.blocks q ≡ m.blocks q

-- The memory before the tails are marked.
raised : Phys → ℕ → ℕ → Phys
raised m p n =
    let m1 = set_block m p (record (m.blocks p) { order = n + 1 }) in
    set_heap m1 (
      list_push_back (list_detach (list_detach m1.heap (node p)) (node (p + 2 ^ n)))
        (free_list m (n + 1)) (node p))

raised_head : (m : Phys) (p n : ℕ) → (raised m p n).blocks p ≡ record (m.blocks p) { order = n + 1 }
unfolding raised
raised_head m p n = ground arith

raised_others : (m : Phys) (p n q : ℕ) → q ≢ p → (raised m p n).blocks q ≡ m.blocks q
unfolding raised
raised_others m p n q ne = ground arith

pub join_physblocks_locked-Joined :
    (m : Phys) (p n : ℕ)
    → n < max_order
    → Joined m (join_physblocks_locked m p (p + 2 ^ n) (n + 1)) p n
unfolding join_physblocks_locked raised
join_physblocks_locked-Joined m p n lt =
    let e : n + 1 - 1 ≡ n = omega arith in
    let k = set_tail_physblocks (raised m p n) p (n + 1) in
    let marked = set_tail_physblocks-Marked (raised m p n) p (n + 1) (omega arith) in
    let pos = two_pow_pos (n + 1) in
    rw e (record {
      heap = marked.heap;
      state =
          ap
            (λ (st : PhysAllocState). record st {
              stats = record st.stats { order_free_pages = rejoin st.stats.order_free_pages n };
            })
            marked.state;
      head = marked.others p (inl (omega arith)) ∙ raised_head m p n;
      tails = λ q a b. set_tail_physblocks-IsTail (raised m p n) p (n + 1) q (omega arith) a b;
      others = λ q out.
          marked.others q (elim out [ inl b ↦ inl (omega arith) | inr a ↦ inr (omega arith) ])
          ∙ raised_others m p n q (λ z. ground (arith, z, out));
    })
