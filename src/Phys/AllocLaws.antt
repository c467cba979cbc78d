-- ===== src/Phys/AllocLaws.antt =====
-- What an allocation of the physical allocator gives, and when it panics.
use zeptux.Base.{
  ℕ, suc, ◌+◌, ◌%◌, ◌^◌, ◌≤◌, List, ◌∷◌, ◌≡◌, ◌≢◌, ◌⊎◌, inl, inr, refl, sym, ap, subst, ◌∙◌, ◌==◌,
  arith, length, Bool-cases, if-elim,
}
use zeptux.Ring.{ListHeap, list_detach}
use zeptux.Spinlock.{spinlock_release, atomic_store_release}
use zeptux.Phys.{
  max_order, Physblock, PhysAllocStats, Phys, node, release_state, release_block, sub_u64,
}
use zeptux.Phys.Alloc.{alloc_type, count_taken, hand_out}
use zeptux.Phys.Lists.{In, set_list, IsLists, In-detached, detached_gone, detach-IsLists}
use zeptux.Phys.Managed.{
  IsFreeBlock, IsManaged, locked, pages_in, pages_in-detach, length-le-pages_in, Covers,
}

count_taken_rest :
    (s : PhysAllocStats) (type : ℕ)
    → ((count_taken s type).num_free_4k_pages ≡ s.num_free_4k_pages)
      × ((count_taken s type).order_free_pages ≡ s.order_free_pages)
unfolding count_taken
count_taken_rest s type = ground arith

-- The memory `k` after the block at `p`, with its lock held, was taken from `m`.
record Taken (m k : Phys) (p o t : ℕ) : Type 0 where
  heap : k.heap ≡ list_detach m.heap (node p)
  address : k.state.address ≡ m.state.address
  unlocked : k.state.lock ≡ 0
  free : k.state.stats.num_free_4k_pages ≡ sub_u64 m.state.stats.num_free_4k_pages (2 ^ o)
  here : k.state.stats.order_free_pages o ≡ sub_u64 (m.state.stats.order_free_pages o) 1
  counts : (i : ℕ) → i ≢ o → k.state.stats.order_free_pages i ≡ m.state.stats.order_free_pages i
  block :
      k.blocks p
      ≡ record (m.blocks p) { type = t; refcount = ((m.blocks p).refcount + 1) % 2 ^ 32; lock = 0 }
  others : (q : ℕ) → q ≢ p → k.blocks q ≡ m.blocks q

hand_out-Taken : (m : Phys) (p o flags t : ℕ) → Taken m (hand_out m p o flags t) p o t
unfolding hand_out release_block release_state spinlock_release atomic_store_release
hand_out-Taken m p o flags t =
    let rest = λ (s : PhysAllocStats). count_taken_rest s (alloc_type flags) in
    record {
      heap = refl;
      address = refl;
      unlocked = refl;
      free = (rest _).0;
      here = ap (λ (f : ℕ → ℕ). f o) (rest _).1 ∙ ground arith;
      counts = λ i ne. ap (λ (f : ℕ → ℕ). f i) (rest _).1 ∙ ground arith;
      block = ground arith;
      others = λ q ne. ground arith;
    }

-- The block at `p` is the caller's: `ys` are the lists that are left.
pub record Allocated (m k : Phys) (xs ys : ℕ → List ℕ) (p o t : ℕ) : Type 0 where
  pub managed : IsManaged k ys
  pub unlocked : k.state.lock ≡ 0
  pub free : k.state.stats.num_free_4k_pages + 2 ^ o ≡ m.state.stats.num_free_4k_pages
  pub type : (k.blocks p).type ≡ t
  pub order : (k.blocks p).order ≡ o
  pub aligned : p % 2 ^ o ≡ 0
  pub apart : (i q : ℕ) → i ≤ max_order → In q (ys i) → (q + 2 ^ i ≤ p) ⊎ (p + 2 ^ o ≤ q)
  pub was_free : (j r : ℕ) × (j ≤ max_order) × In r (xs j) × (r ≤ p) × (p + 2 ^ o ≤ r + 2 ^ j)

module _ (m : Phys) (xs : ℕ → List ℕ) (o p : ℕ) (ps : List ℕ) (flags t : ℕ) (ok : IsManaged m xs)
    (lo : o ≤ max_order) (e : xs o ≡ p ∷ ps) where
  first : In p (xs o)
  first = subst (λ zs. In p zs) (sym e) (inl refl)

  abbrev result : Phys
  result = hand_out (locked m p) p o flags t

  taken : Taken (locked m p) result p o t
  taken = hand_out-Taken (locked m p) p o flags t

  enough : pages_in (set_list xs o ps) 13 + 2 ^ o ≡ m.state.stats.num_free_4k_pages
  enough = omega (arith, pages_in-detach xs o p ps lo e, ok.total)

  kept : (q : ℕ) → q ≢ p → result.blocks q ≡ m.blocks q
  kept q ne =
      taken.others q ne
      ∙ if-elim (λ (b : Physblock). b ≡ m.blocks q) (q == p) (λ z. ground (arith, ne)) (λ z. refl)

  gone : (i q : ℕ) → i ≤ max_order → In q (set_list xs o ps i) → q ≢ p
  gone i q le at same =
      detached_gone ok.lists o p ps i lo le e (subst (λ r. In r (set_list xs o ps i)) same at)

  hand_out-IsManaged : IsManaged result (set_list xs o ps)
  hand_out-IsManaged = record {
    lists =
        subst (λ (h : ListHeap). IsLists h result.state.address (set_list xs o ps)) (sym taken.heap)
          (subst (λ (a : ℕ). IsLists (list_detach m.heap (node p)) a (set_list xs o ps))
            (sym taken.address) (detach-IsLists ok.lists o p ps lo e));
    block = λ i q le at.
        subst (λ (b : Physblock). IsFreeBlock b i q) (sym (kept q (gone i q le at)))
          (ok.block i q le (In-detached xs o i p q ps e at));
    apart = λ i j q r li lj at there.
        ok.apart i j q r li lj (In-detached xs o i p q ps e at) (In-detached xs o j p r ps e there);
    quiet = λ q. elim (Bool-cases (q == p)) [
      | inl z ↦
          let same : q ≡ p = ground arith in
          ap (λ r. (result.blocks r).lock) same ∙ ap (λ (b : Physblock). b.lock) taken.block
      | inr z ↦ ap (λ (b : Physblock). b.lock) (kept q (λ f. ground arith)) ∙ ok.quiet q
    ];
    count = λ i le. elim (Bool-cases (i == o)) [
      | inl z ↦
          let same : i ≡ o = ground arith in
          let l : length (xs o) ≡ suc (length ps) = ap length e in
          let c = ok.count o lo in
          let most = length-le-pages_in xs o 13 (omega arith) in
          subst (λ r. result.state.stats.order_free_pages r ≡ length (set_list xs o ps r))
            (sym same)
            (if-elim (λ (zs : List ℕ). result.state.stats.order_free_pages o ≡ length zs) (o == o)
              (λ y. omega (arith, taken.here, ok.total, ok.bounded)) (λ y. ground arith))
      | inr z ↦
          if-elim (λ (zs : List ℕ). result.state.stats.order_free_pages i ≡ length zs) (i == o)
            (λ y. ground arith) (λ y. taken.counts i (λ f. ground arith) ∙ ok.count i le)
    ];
    total = omega (arith, taken.free, enough, ok.bounded);
    bounded = omega (arith, taken.free);
  }

  hand_out_apart :
      (i q : ℕ) → i ≤ max_order → In q (set_list xs o ps i) → (q + 2 ^ i ≤ p) ⊎ (p + 2 ^ o ≤ q)
  hand_out_apart i q le at =
      let old = In-detached xs o i p q ps e at in
      let ne = gone i q le at in
      ground (arith, ok.apart i o q p le lo old first, ok.apart o i p q lo le first old)

  pub hand_out-Allocated :
      (os : ℕ → List ℕ) → Covers os xs → Allocated m result os (set_list xs o ps) p o t
  hand_out-Allocated os covers =
      let here : (locked m p).blocks p ≡ record (m.blocks p) { lock = 1 } = ground arith in
      let free = ok.block o p lo first in
      record {
        managed = hand_out-IsManaged;
        unlocked = taken.unlocked;
        free = omega (arith, taken.free, enough, ok.bounded);
        type = ap (λ (b : Physblock). b.type) taken.block;
        order =
            ap (λ (b : Physblock). b.order) taken.block
            ∙ ap (λ (b : Physblock). b.order) here
            ∙ free.order;
        aligned = free.aligned;
        apart = hand_out_apart;
        was_free = covers o p lo first;
      }
