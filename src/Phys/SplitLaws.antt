-- ===== src/Phys/SplitLaws.antt =====
-- Splitting a free block keeps the state of the physical allocator well-formed.
use zeptux.Base.{
  ℕ, suc, ◌+◌, ◌*◌, ◌/◌, ◌%◌, ◌^◌, ◌≤◌, ◌<◌, List, ◌∷◌, ◌≡◌, ◌≢◌, ◌⊎◌, inl, inr, refl, sym, ap,
  subst, ◌∙◌, ◌==◌, arith, Bool-cases, if-elim, ltb,
}
use native.Mathlib.Nat.{mul_comm, add-mul, div-add-mod, mul-mod_left, add-mod_right}
use zeptux.Ring.{ListHeap, list_detach, list_push_back}
use zeptux.Phys.{max_order, Physblock, PhysAllocState, Phys, free_list, node}
use zeptux.Phys.Buddy.{two_pow_pos}
use zeptux.Phys.Alloc.{split_block_locked}
use zeptux.Phys.Lists.{In, IsLists, detached_gone}
use zeptux.Phys.Split.{Halved, split_block_locked-Halved, two_pow_next}
use zeptux.Phys.Managed.{
  Covers, IsFreeBlock, IsManaged, split_lists, In-split_lists, locked, pages_in-split_lists,
  split_lists-IsLists, recount-split_lists,
}

-- An aligned number is aligned for half the size, and the middle is too.
aligned_half : (n p : ℕ) → p % 2 ^ (n + 1) ≡ 0 → (p % 2 ^ n ≡ 0) × ((p + 2 ^ n) % 2 ^ n ≡ 0)
aligned_half n p al =
    let d = p / 2 ^ (n + 1) in
    let a : 2 ^ (n + 1) * d + p % 2 ^ (n + 1) ≡ p = div-add-mod p (2 ^ (n + 1)) in
    let b : 2 ^ (n + 1) * d ≡ (d + d) * 2 ^ n =
      ap (λ (t : ℕ). t * d) (two_pow_next n)
      ∙ omega (arith, mul_comm (2 ^ n) d, add-mul (2 ^ n) (2 ^ n) d, add-mul d d (2 ^ n)) in
    let c : p ≡ (d + d) * 2 ^ n = omega (arith, a, b, al) in
    let left : p % 2 ^ n ≡ 0 = ap (λ (t : ℕ). t % 2 ^ n) c ∙ mul-mod_left (d + d) (2 ^ n) in
    (left, add-mod_right p (2 ^ n) ∙ left)

module _ (m : Phys) (xs : ℕ → List ℕ) (n p : ℕ) (ps : List ℕ) (ok : IsManaged m xs)
    (lt : n < max_order) (e : xs (n + 1) ≡ p ∷ ps) where
  first : In p (xs (n + 1))
  first = subst (λ zs. In p zs) (sym e) (inl refl)

  was_free : IsFreeBlock (m.blocks p) (n + 1) p
  was_free = ok.block (n + 1) p (omega arith) first

  -- Inside the block that is split, only the block itself is on a list.
  inside : (i q : ℕ) → i ≤ max_order → In q (xs i) → p ≤ q → q < p + 2 ^ (n + 1) → p ≡ q
  inside i q le at lo hi = ok.apart (n + 1) i p q (omega arith) le first at lo hi

  locked_here : (locked m p).blocks p ≡ record (m.blocks p) { lock = 1 }
  locked_here = ground arith

  halved : Halved (locked m p) (split_block_locked (locked m p) p) p n
  halved =
      let o : ((locked m p).blocks p).order ≡ suc n =
        if-elim (λ (b : Physblock). b.order ≡ suc n) (p == p) (λ z. omega (arith, was_free.order))
          (λ z. ground arith) in
      split_block_locked-Halved (locked m p) p n o lt was_free.aligned
        (omega (arith, was_free.fits, two_pow_pos (n + 1)))

  cases :
      (i q : ℕ)
      → i ≤ max_order
      → In q (split_lists xs n p ps i)
      → (In q (xs i) × (q ≢ p)) ⊎ ((i ≡ n) × (p ≡ q)) ⊎ ((i ≡ n) × (p + 2 ^ n ≡ q))
  cases i q le at =
      In-split_lists xs n p ps i q e (detached_gone ok.lists (n + 1) p ps i (omega arith) le e) at

  -- A block on a list before lies before the halves or behind them.
  away : (i q : ℕ) → i ≤ max_order → In q (xs i) → q ≢ p → (q + 2 ^ i ≤ p) ⊎ (p + 2 ^ (n + 1) ≤ q)
  away i q le at ne = elim (Bool-cases (ltb q p)) [
    | inl before ↦ elim (Bool-cases (ltb p (q + 2 ^ i))) [
      | inl reaches ↦
          absurd
            (ne (ok.apart i (n + 1) q p le (omega arith) at first (ground arith) (ground arith)))
      | inr stops ↦ inl (ground arith)
    ]
    | inr behind ↦ elim (Bool-cases (ltb q (p + 2 ^ (n + 1)))) [
      | inl within ↦ absurd (ne (sym (inside i q le at (ground arith) (ground arith))))
      | inr beyond ↦ inr (ground arith)
    ]
  ]

  right_new : (i : ℕ) → i ≤ max_order → ¬ In (p + 2 ^ n) (xs i)
  right_new i le at =
      let pos = two_pow_pos n in
      let double = two_pow_next n in
      omega (arith, inside i (p + 2 ^ n) le at (omega arith) (omega arith))

  kept :
      (i q : ℕ)
      → i ≤ max_order
      → In q (xs i)
      → q ≢ p
      → (split_block_locked (locked m p) p).blocks q ≡ m.blocks q
  kept i q le at ne =
      let pos = two_pow_pos i in
      halved.others q (elim (away i q le at ne) [ inl b ↦ inl (omega arith) | inr a ↦ inr a ])
      ∙ if-elim (λ (b : Physblock). b ≡ m.blocks q) (q == p) (λ z. ground (arith, ne)) (λ z. refl)

  left_free : IsFreeBlock ((split_block_locked (locked m p) p).blocks p) n p
  left_free =
      let b = halved.left ∙ ap (λ (b : Physblock). record b { order = n; lock = 0 }) locked_here in
      let (left, right) = aligned_half n p was_free.aligned in
      record {
        type = ap (λ (b : Physblock). b.type) b ∙ was_free.type;
        order = ap (λ (b : Physblock). b.order) b;
        head_offset = ap (λ (b : Physblock). b.head_offset) b ∙ was_free.head_offset;
        aligned = left;
        fits = omega (arith, was_free.fits, two_pow_next n);
      }

  right_free : IsFreeBlock ((split_block_locked (locked m p) p).blocks (p + 2 ^ n)) n (p + 2 ^ n)
  right_free =
      let b = halved.right in
      let (left, right) = aligned_half n p was_free.aligned in
      record {
        type = ap (λ (b : Physblock). b.type) b;
        order = ap (λ (b : Physblock). b.order) b;
        head_offset = ap (λ (b : Physblock). b.head_offset) b;
        aligned = right;
        fits = omega (arith, was_free.fits, two_pow_next n);
      }

  -- The halves lie in the block that was split, one behind the other.
  halves_apart :
      (i j q r : ℕ)
      → i ≤ max_order
      → j ≤ max_order
      → In q (split_lists xs n p ps i)
      → In r (split_lists xs n p ps j)
      → q ≤ r
      → r < q + 2 ^ i
      → q ≡ r
  halves_apart i j q r li lj at there lo hi =
      let double = two_pow_next n in
      let pos = two_pow_pos n in
      let posj = two_pow_pos j in
      elim (cases i q li at) [
        | inl (old, ne) ↦ elim (cases j r lj there) [
          | inl (too, nr) ↦ ok.apart i j q r li lj old too lo hi
          | inr (inl (f, same)) ↦ absurd (ground (arith, away i q li old ne))
          | inr (inr (f, same)) ↦ absurd (ground (arith, away i q li old ne))
        ]
        | inr (inl (f, same)) ↦
            let size : 2 ^ i ≡ 2 ^ n = ap (λ (o : ℕ). 2 ^ o) f in
            elim (cases j r lj there) [
              | inl (too, nr) ↦ absurd (ground (arith, away j r lj too nr))
              | inr (inl (g, again)) ↦ omega arith
              | inr (inr (g, again)) ↦ absurd (omega arith)
            ]
        | inr (inr (f, same)) ↦
            let size : 2 ^ i ≡ 2 ^ n = ap (λ (o : ℕ). 2 ^ o) f in
            elim (cases j r lj there) [
              | inl (too, nr) ↦ absurd (ground (arith, away j r lj too nr))
              | inr (inl (g, again)) ↦ absurd (omega arith)
              | inr (inr (g, again)) ↦ omega arith
            ]
      ]

  -- In a well-formed state, splitting the first block on the list of an order from 1 to 12, with its
  -- lock held, gives a well-formed state: the list loses the block, the list of the next lower order
  -- has its two halves at its end, the numbers of free blocks follow, and all locks are free.
  pub split_block_locked-IsManaged :
      IsManaged (split_block_locked (locked m p) p) (split_lists xs n p ps)
  split_block_locked-IsManaged = record {
    lists =
        subst
          (λ (h : ListHeap).
            IsLists h (split_block_locked (locked m p) p).state.address (split_lists xs n p ps))
          (sym halved.heap)
          (subst
            (λ (s : PhysAllocState).
              IsLists
                (list_push_back
                  (list_push_back (list_detach m.heap (node p)) (free_list m n) (node p))
                  (free_list m n) (node (p + 2 ^ n)))
                s.address (split_lists xs n p ps))
            (sym halved.state)
            (split_lists-IsLists m.heap m.state.address xs n p ps ok.lists lt e was_free.fits
              right_new));
    block = λ i q le at. elim (cases i q le at) [
      | inl (old, ne) ↦
          subst (λ (b : Physblock). IsFreeBlock b i q) (sym (kept i q le old ne))
            (ok.block i q le old)
      | inr (inl (f, same)) ↦
          subst (λ (r : ℕ). IsFreeBlock ((split_block_locked (locked m p) p).blocks r) i r) same
            (subst (λ (o : ℕ). IsFreeBlock ((split_block_locked (locked m p) p).blocks p) o p)
              (sym f) left_free)
      | inr (inr (f, same)) ↦
          subst (λ (r : ℕ). IsFreeBlock ((split_block_locked (locked m p) p).blocks r) i r) same
            (subst
              (λ (o : ℕ).
                IsFreeBlock ((split_block_locked (locked m p) p).blocks (p + 2 ^ n)) o (p + 2 ^ n))
              (sym f) right_free)
    ];
    apart = halves_apart;
    quiet = λ q. elim (Bool-cases (q == p)) [
      | inl z ↦
          let same : q ≡ p = ground arith in
          ap (λ r. ((split_block_locked (locked m p) p).blocks r).lock) same
          ∙ ap (λ (b : Physblock). b.lock) halved.left
      | inr z ↦
          halved.locks q (λ f. ground arith)
            (if-elim (λ (b : Physblock). b.lock ≡ 0) (q == p) (λ f. ground arith) (λ f. ok.quiet q))
    ];
    count = λ o le.
        ap (λ (s : PhysAllocState). s.stats.order_free_pages o) halved.state
        ∙ recount-split_lists m.state.stats.order_free_pages xs n p ps ok.count lt e
            (omega (arith, ok.total, ok.bounded)) o le;
    total =
        ap (λ (s : PhysAllocState). s.stats.num_free_4k_pages) halved.state
        ∙ ok.total
        ∙ sym (pages_in-split_lists xs n p ps lt e);
    bounded =
        subst (λ (s : PhysAllocState). s.stats.num_free_4k_pages < 2 ^ 64) (sym halved.state)
          ok.bounded;
  }

  pub split_block_locked_state :
      ((split_block_locked (locked m p) p).state.lock ≡ m.state.lock)
      × ((split_block_locked (locked m p) p).state.stats.num_free_4k_pages
          ≡ m.state.stats.num_free_4k_pages)
  split_block_locked_state = (
    ap (λ (s : PhysAllocState). s.lock) halved.state,
    ap (λ (s : PhysAllocState). s.stats.num_free_4k_pages) halved.state,
  )

  pub split_block_locked-Covers : Covers xs (split_lists xs n p ps)
  split_block_locked-Covers i q le at =
      let double = two_pow_next n in
      elim (cases i q le at) [
        | inl (old, ne) ↦ (i, q, le, old, omega arith, omega arith)
        | inr (inl (f, same)) ↦
            let size : 2 ^ i ≡ 2 ^ n = ap (λ (o : ℕ). 2 ^ o) f in
            (n + 1, p, omega arith, first, omega arith, omega arith)
        | inr (inr (f, same)) ↦
            let size : 2 ^ i ≡ 2 ^ n = ap (λ (o : ℕ). 2 ^ o) f in
            (n + 1, p, omega arith, first, omega arith, omega arith)
      ]
