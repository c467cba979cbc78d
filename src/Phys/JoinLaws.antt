-- ===== src/Phys/JoinLaws.antt =====
-- Joining a free block with its buddy keeps the state of the physical allocator well-formed.
use zeptux.Base.{
  ℕ, ◌+◌, ◌%◌, ◌^◌, ◌≤◌, ◌<◌, List, ◌∷◌, ◌++◌, ◌≡◌, ◌≢◌, ◌⊎◌, inl, inr, refl, sym, ap, subst, ◌∙◌,
  ◌==◌, arith, Bool-cases, if-elim, ltb, if◌then◌else◌, length,
}
use zeptux.Ring.{ListHeap, list_detach, list_push_back}
use zeptux.Spinlock.{spinlock_release, atomic_store_release}
use zeptux.Phys.{max_order, Physblock, PhysAllocState, Phys, free_list, node, release_block}
use zeptux.Phys.Buddy.{two_pow_pos}
use zeptux.Phys.Free.{join_physblocks_locked}
use zeptux.Phys.Lists.{In, set_list, append_to, IsLists, In-pushed, push-IsLists}
use zeptux.Phys.Split.{two_pow_next}
use zeptux.Phys.Join.{IsTail, Joined, rejoin, join_physblocks_locked-Joined}
use zeptux.Phys.Remove.{In-removed, remove-IsLists, length-removed, pages_in-removed}
use zeptux.Phys.Managed.{
  IsFreeBlock, IsManaged, locked, pages_in, pages_in-append_to, length-append_to,
  length-le-pages_in,
}

-- The memory with the locks of both blocks held.
abbrev pub both_locked : Phys → ℕ → ℕ → Phys
both_locked m p n = locked (locked m p) (p + 2 ^ n)

-- The memory after the join, and with the lock of the block released.
abbrev pub whole_again : Phys → ℕ → ℕ → Phys
whole_again m p n =
    release_block (join_physblocks_locked (both_locked m p n) p (p + 2 ^ n) (n + 1)) p

pub locked_here :
    (m : Phys) (p n : ℕ) → (both_locked m p n).blocks p ≡ record (m.blocks p) { lock = 1 }
locked_here m p n = ground (arith, two_pow_pos n)

locked_others :
    (m : Phys) (p n q : ℕ) → q ≢ p → q ≢ p + 2 ^ n → (both_locked m p n).blocks q ≡ m.blocks q
locked_others m p n q a b = ground arith

released_here : (m : Phys) (p : ℕ) → (release_block m p).blocks p ≡ record (m.blocks p) { lock = 0 }
unfolding release_block spinlock_release atomic_store_release
released_here m p = ground arith

released_others : (m : Phys) (p q : ℕ) → q ≢ p → (release_block m p).blocks q ≡ m.blocks q
unfolding release_block
released_others m p q ne = ground arith

released_rest :
    (m : Phys) (p : ℕ) → ((release_block m p).heap ≡ m.heap) × ((release_block m p).state ≡ m.state)
unfolding release_block
released_rest m p = (refl, refl)

-- The physblocks of the memory `k`, where `m` has a block of the order `n` at `p` and one behind it.
pub record Changed (m k : Phys) (n p : ℕ) : Type 0 where
  pub head : k.blocks p ≡ record (m.blocks p) { order = n + 1; lock = 0 }
  pub tails : (q : ℕ) → p < q → q < p + 2 ^ (n + 1) → IsTail p q (k.blocks q)
  pub others : (q : ℕ) → (q < p) ⊎ (p + 2 ^ (n + 1) ≤ q) → k.blocks q ≡ m.blocks q
  pub spans : k.state.spans ≡ m.state.spans
  pub free : k.state.stats.num_free_4k_pages ≡ m.state.stats.num_free_4k_pages

module _ (m : Phys) (xs : ℕ → List ℕ) (n p : ℕ) (us vs ws zs : List ℕ) (ok : IsManaged m xs)
    (lt : n < max_order) (al : p % 2 ^ (n + 1) ≡ 0) (left : xs n ≡ us ++ p ∷ vs)
    (right : us ++ vs ≡ ws ++ (p + 2 ^ n) ∷ zs) (left_in : In p (xs n))
    (right_in : In (p + 2 ^ n) (xs n)) where
  abbrev one : ℕ → List ℕ
  one = set_list xs n (us ++ vs)

  abbrev pub two : ℕ → List ℕ
  two = set_list one n (ws ++ zs)

  abbrev after : ℕ → List ℕ
  after = append_to two (n + 1) p

  right_here : one n ≡ ws ++ (p + 2 ^ n) ∷ zs
  right_here = if-elim (λ ys. ys ≡ ws ++ (p + 2 ^ n) ∷ zs) (n == n) (λ e. right) (λ e. ground arith)

  one-IsLists : IsLists (list_detach m.heap (node p)) m.state.address one
  one-IsLists = remove-IsLists ok.lists n p us vs (omega arith) left

  two-IsLists :
      IsLists (list_detach (list_detach m.heap (node p)) (node (p + 2 ^ n))) m.state.address two
  two-IsLists = remove-IsLists one-IsLists n (p + 2 ^ n) ws zs (omega arith) right_here

  -- On a list after both removals: on it before, and neither of the two.
  removed : (i q : ℕ) → i ≤ max_order → In q (two i) → In q (xs i) × (q ≢ p) × (q ≢ p + 2 ^ n)
  removed i q le at =
      let (a, b) = In-removed one-IsLists n (p + 2 ^ n) ws zs (omega arith) right_here i q le at in
      let (c, d) = In-removed ok.lists n p us vs (omega arith) left i q le a in (c, d, b)

  pub cases :
      (i q : ℕ)
      → i ≤ max_order
      → In q (after i)
      → (In q (xs i) × (q ≢ p) × (q ≢ p + 2 ^ n)) ⊎ ((i ≡ n + 1) × (p ≡ q))
  cases i q le at = elim (In-pushed two (n + 1) i p q at) [
    | inl old ↦ inl (removed i q le old)
    | inr new ↦ inr new
  ]

  left_free : IsFreeBlock (m.blocks p) n p
  left_free = ok.block n p (omega arith) left_in

  right_free : IsFreeBlock (m.blocks (p + 2 ^ n)) n (p + 2 ^ n)
  right_free = ok.block n (p + 2 ^ n) (omega arith) right_in

  -- Another free block lies before the two or behind them.
  away :
      (i q : ℕ)
      → i ≤ max_order
      → In q (xs i)
      → q ≢ p
      → q ≢ p + 2 ^ n
      → (q + 2 ^ i ≤ p) ⊎ (p + 2 ^ (n + 1) ≤ q)
  away i q le at ne nr =
      let double = two_pow_next n in
      elim (Bool-cases (ltb q p)) [
        | inl before ↦ elim (Bool-cases (ltb p (q + 2 ^ i))) [
          | inl reaches ↦
              absurd
                (ne (ok.apart i n q p le (omega arith) at left_in (ground arith) (ground arith)))
          | inr stops ↦ inl (ground arith)
        ]
        | inr behind ↦ elim (Bool-cases (ltb q (p + 2 ^ n))) [
          | inl within ↦ absurd (
              ne (sym (ok.apart n i p q (omega arith) le left_in at (ground arith) (ground arith))))
          | inr beyond ↦ elim (Bool-cases (ltb q (p + 2 ^ (n + 1)))) [
            | inl within ↦ absurd (
                nr (
                  sym (
                    ok.apart n i (p + 2 ^ n) q (omega arith) le right_in at (ground arith)
                      (ground arith))))
            | inr outside ↦ inr (ground arith)
          ]
        ]
      ]

  joined :
      Joined
        (both_locked m p n)
        (join_physblocks_locked (both_locked m p n) p (p + 2 ^ n) (n + 1))
        p
        n
  joined = join_physblocks_locked-Joined (both_locked m p n) p n lt

  outside : (q : ℕ) → (q < p) ⊎ (p + 2 ^ (n + 1) ≤ q) → (whole_again m p n).blocks q ≡ m.blocks q
  outside q out =
      let pos = two_pow_pos n in
      let double = two_pow_next n in
      released_others _ p q (λ z. ground (arith, z, out))
      ∙ joined.others q out
      ∙ locked_others m p n q (λ z. ground (arith, z, out)) (λ z. ground (arith, z, out))

  kept :
      (i q : ℕ)
      → i ≤ max_order
      → In q (xs i)
      → q ≢ p
      → q ≢ p + 2 ^ n
      → (whole_again m p n).blocks q ≡ m.blocks q
  kept i q le at ne nr =
      let pos = two_pow_pos i in
      outside q (elim (away i q le at ne nr) [ inl b ↦ inl (omega arith) | inr a ↦ inr a ])

  head : (whole_again m p n).blocks p ≡ record (m.blocks p) { order = n + 1; lock = 0 }
  head =
      released_here _ p
      ∙ ap (λ (b : Physblock). record b { lock = 0 })
          (joined.head ∙ ap (λ (b : Physblock). record b { order = n + 1 }) (locked_here m p n))

  head_free : IsFreeBlock ((whole_again m p n).blocks p) (n + 1) p
  head_free = record {
    type = ap (λ (b : Physblock). b.type) head ∙ left_free.type;
    order = ap (λ (b : Physblock). b.order) head;
    head_offset = ap (λ (b : Physblock). b.head_offset) head ∙ left_free.head_offset;
    aligned = al;
    fits = omega (arith, right_free.fits, two_pow_next n);
  }

  blocks_apart :
      (i j q r : ℕ)
      → i ≤ max_order
      → j ≤ max_order
      → In q (after i)
      → In r (after j)
      → q ≤ r
      → r < q + 2 ^ i
      → q ≡ r
  blocks_apart i j q r li lj at there lo hi =
      let posj = two_pow_pos j in
      elim (cases i q li at) [
        | inl (old, ne, nr) ↦ elim (cases j r lj there) [
          | inl (too, me, mr) ↦ ok.apart i j q r li lj old too lo hi
          | inr (f, same) ↦ absurd (ground (arith, away i q li old ne nr))
        ]
        | inr (f, same) ↦
            let size : 2 ^ i ≡ 2 ^ (n + 1) = ap (λ (o : ℕ). 2 ^ o) f in
            elim (cases j r lj there) [
              | inl (too, me, mr) ↦ absurd (ground (arith, away j r lj too me mr))
              | inr (g, again) ↦ omega arith
            ]
      ]

  state : (whole_again m p n).state ≡ record m.state {
    stats = record m.state.stats { order_free_pages = rejoin m.state.stats.order_free_pages n };
  }
  state =
      let (same_heap, same_state) =
        released_rest (join_physblocks_locked (both_locked m p n) p (p + 2 ^ n) (n + 1)) p in
      same_state ∙ joined.state

  lists : IsLists (whole_again m p n).heap (whole_again m p n).state.address after
  lists =
      let (same_heap, same_state) =
        released_rest (join_physblocks_locked (both_locked m p n) p (p + 2 ^ n) (n + 1)) p in
      let pos = two_pow_pos n in
      subst (λ (h : ListHeap). IsLists h (whole_again m p n).state.address after)
        (sym (same_heap ∙ joined.heap))
        (subst
          (λ (s : PhysAllocState).
            IsLists
              (list_push_back (list_detach (list_detach m.heap (node p)) (node (p + 2 ^ n)))
                (free_list m (n + 1)) (node p))
              s.address after)
          (sym state)
          (push-IsLists two-IsLists (n + 1) p (omega arith) (omega (arith, left_free.fits))
            (λ i le at. (removed i p le at).1 refl)))

  quiet : (q : ℕ) → ((whole_again m p n).blocks q).lock ≡ 0
  quiet q = elim (Bool-cases (q == p)) [
    | inl e ↦
        let same : q ≡ p = ground arith in
        ap (λ r. ((whole_again m p n).blocks r).lock) same ∙ ap (λ (b : Physblock). b.lock) head
    | inr e ↦
        let ne : q ≢ p = ground arith in
        elim (Bool-cases (ltb q p)) [
          | inl before ↦
              ap (λ (b : Physblock). b.lock) (outside q (inl (ground arith))) ∙ ok.quiet q
          | inr behind ↦ elim (Bool-cases (ltb q (p + 2 ^ (n + 1)))) [
            | inl within ↦
                ap (λ (b : Physblock). b.lock) (released_others _ p q ne)
                ∙ (joined.tails q (ground arith) (ground arith)).unlocked
            | inr beyond ↦
                ap (λ (b : Physblock). b.lock) (outside q (inr (ground arith))) ∙ ok.quiet q
          ]
        ]
  ]

  total : pages_in after 13 ≡ pages_in xs 13
  total = omega (
    arith,
    pages_in-append_to two (n + 1) p (omega arith),
    pages_in-removed one-IsLists n (p + 2 ^ n) ws zs (omega arith) right_here,
    pages_in-removed ok.lists n p us vs (omega arith) left,
    two_pow_next n,
  )

  length-two : (o : ℕ) → length (two o) ≡ (if o == n then length (ws ++ zs) else length (xs o))
  length-two o = elim (Bool-cases (o == n)) [ inl e ↦ rw e refl | inr e ↦ rw e refl ]

  count : (o : ℕ) → o ≤ max_order → rejoin m.state.stats.order_free_pages n o ≡ length (after o)
  count o le =
      let len = length-append_to two (n + 1) p o in
      let here = length-two o in
      let first = length-removed ok.lists n p us vs (omega arith) left in
      let second = length-removed one-IsLists n (p + 2 ^ n) ws zs (omega arith) right_here in
      let rest : length (one n) ≡ length (us ++ vs) =
        if-elim (λ (l : List ℕ). length l ≡ length (us ++ vs)) (n == n) (λ z. refl)
          (λ z. ground arith) in
      let a = ok.count o le in
      let b = ok.count n (omega arith) in
      let c = ok.count (n + 1) (omega arith) in
      let most = length-le-pages_in after o 13 (omega arith) in
      let many = length-le-pages_in xs n 13 (omega arith) in
      let all = total in let t = ok.total in let small = ok.bounded in ground arith

  pub managed : IsManaged (whole_again m p n) after
  managed = record {
    lists = lists;
    block = λ i q le at. elim (cases i q le at) [
      | inl (old, ne, nr) ↦
          subst (λ (b : Physblock). IsFreeBlock b i q) (sym (kept i q le old ne nr))
            (ok.block i q le old)
      | inr (f, same) ↦
          subst (λ (r : ℕ). IsFreeBlock ((whole_again m p n).blocks r) i r) same
            (subst (λ (o : ℕ). IsFreeBlock ((whole_again m p n).blocks p) o p) (sym f) head_free)
    ];
    apart = blocks_apart;
    quiet = quiet;
    count = λ o le. ap (λ (s : PhysAllocState). s.stats.order_free_pages o) state ∙ count o le;
    total = ap (λ (s : PhysAllocState). s.stats.num_free_4k_pages) state ∙ ok.total ∙ sym total;
    bounded =
        subst (λ (s : PhysAllocState). s.stats.num_free_4k_pages < 2 ^ 64) (sym state) ok.bounded;
  }

  pub changed : Changed m (whole_again m p n) n p
  changed = record {
    head = head;
    tails = λ q a b.
        subst (IsTail p q) (sym (released_others _ p q (λ z. omega (arith, z))))
          (joined.tails q a b);
    others = outside;
    spans = ap (λ (s : PhysAllocState). s.spans) state;
    free = ap (λ (s : PhysAllocState). s.stats.num_free_4k_pages) state;
  }
