-- ===== src/Phys/Allocate.antt =====
-- `phys_alloc_block` as a whole: it gives a block wherever a list has one that is large enough, and
-- panics otherwise.
use zeptux.Base.{
  ℕ, suc, ◌+◌, ◌-◌, ◌^◌, ◌≤◌, ◌<◌, List, [], ◌∷◌, some, none, ◌≡◌, ◌⊎◌, ◌==◌, inl, inr, refl, sym,
  ap, subst, ◌∙◌, arith, true, false, ltb, Bool-cases,
}
use zeptux.Ring.{list_empty}
use zeptux.Spinlock.{spinlock_acquire}
use zeptux.Phys.{returns, panics, max_order, Phys, free_list, acquire_state}
use zeptux.Phys.Buddy.{two_pow_lt}
use zeptux.Phys.Alloc.{
  alloc_flags_to_physblock_type, hand_out, take_block, refill, alloc_locked, alloc_checked,
  phys_alloc_block, split_down, split_higher_order_blocks, first_order,
}
use zeptux.Phys.Lists.{In, set_list}
use zeptux.Phys.Managed.{IsManaged, locked, pages_in-detach}
use zeptux.Phys.Refill.{
  HasFirst, list_cases, list_empty-HasFirst, list_empty-nil, first_block-lem, lock_free-lem,
  first_order-First, Refilled, split_down-Refilled,
}
use zeptux.Phys.AllocLaws.{Allocated, hand_out-Allocated}

not-HasFirst : (xs : List ℕ) → xs ≡ [] → ¬ HasFirst xs
not-HasFirst xs nil (p, ps, e) = absurd (cc)

module _ (fuel : ℕ) (m : Phys) (o : ℕ) where
  refill_full : list_empty m.heap (free_list m o) ≡ false → refill fuel m o ≡ returns m
  unfolding refill
  refill_full full = rw full refl

  refill_from :
      (j : ℕ)
      → list_empty m.heap (free_list m o) ≡ true
      → first_order (max_order - o) m (o + 1) ≡ some j
      → refill fuel m o ≡ split_down fuel m o j
  unfolding refill split_higher_order_blocks
  refill_from j empty found = rw (empty, split_higher_order_blocks, found) refl

  refill_panics :
      list_empty m.heap (free_list m o) ≡ true
      → first_order (max_order - o) m (o + 1) ≡ none
      → refill fuel m o ≡ panics
  unfolding refill split_higher_order_blocks
  refill_panics empty nowhere = rw (empty, split_higher_order_blocks, nowhere) refl

refill-Refilled :
    (fuel : ℕ) (m : Phys) (xs : ℕ → List ℕ) (o k : ℕ)
    → IsManaged m xs
    → o ≤ k
    → k ≤ max_order
    → HasFirst (xs k)
    → max_order < fuel
    → (n : Phys) × (ys : ℕ → List ℕ) × (refill fuel m o ≡ returns n) × Refilled m n xs ys o
refill-Refilled fuel m xs o k ok lo hi has enough = elim (list_cases (xs o)) [
  | inr here ↦
      let full = list_empty-HasFirst ok o (omega arith) here in
      (
        m,
        xs,
        refill_full fuel m o full,
        record {
          managed = ok;
          has = here;
          lock = refl;
          free = refl;
          covers = λ i q le at. (i, q, le, at, omega arith, omega arith);
        },
      )
  | inl nil ↦
      let empty = list_empty-nil ok o (omega arith) nil in
      elim (first_order-First ok (max_order - o) (o + 1) (omega arith)) [
        | inl (nowhere, all) ↦ elim (Bool-cases (o == k)) [
          | inl same ↦
              let f : o ≡ k = ground arith in
              absurd (not-HasFirst (xs k) (subst (λ i. xs i ≡ []) f nil) has)
          | inr other ↦ absurd (not-HasFirst (xs k) (all k (ground arith) hi) has)
        ]
        | inr (j, found, above, below, first) ↦
            let e : o + (j - o) ≡ j = omega arith in
            let (n, ys, runs, rest) =
              split_down-Refilled fuel m xs o (j - o) ok (omega arith)
                (subst (λ i. HasFirst (xs i)) (sym e) first) (omega arith) in
            (
              n,
              ys,
              refill_from fuel m o j empty found
                  ∙ subst (λ i. split_down fuel m o i ≡ returns n) e runs,
              rest,
            )
      ]
]

abbrev holding : Phys → Phys
holding m = record m { state = record m.state { lock = 1 } }

holding-IsManaged : (m : Phys) (xs : ℕ → List ℕ) → IsManaged m xs → IsManaged (holding m) xs
holding-IsManaged m xs ok = record {
  lists = ok.lists;
  block = ok.block;
  apart = ok.apart;
  quiet = ok.quiet;
  count = ok.count;
  total = ok.total;
  bounded = ok.bounded;
}

take_block-returns :
    (m : Phys) (p o flags t : ℕ)
    → alloc_flags_to_physblock_type flags ≡ returns t
    → take_block m p o flags ≡ returns (p, hand_out m p o flags t)
unfolding take_block
take_block-returns m p o flags t e = rw e refl

alloc_locked-returns :
    (fuel : ℕ) (m n : Phys) (ys : ℕ → List ℕ) (o flags t p : ℕ) (ps : List ℕ)
    → refill fuel m o ≡ returns n
    → IsManaged n ys
    → o ≤ max_order
    → ys o ≡ p ∷ ps
    → alloc_flags_to_physblock_type flags ≡ returns t
    → alloc_locked fuel m o flags ≡ returns (some p, hand_out (locked n p) p o flags t)
unfolding alloc_locked
alloc_locked-returns fuel m n ys o flags t p ps filled ok le e typed =
    let here : In p (ys o) = subst (λ zs. In p zs) (sym e) (inl refl) in
    let first = first_block-lem ok o p ps le e in
    rw
      (
        filled,
        first,
        lock_free-lem ok o p le here,
        first,
        take_block-returns (locked n p) p o flags t typed,
      )
      refl

acquire_state-holding : (m : Phys) → m.state.lock ≡ 0 → acquire_state m ≡ returns (holding m)
unfolding acquire_state spinlock_acquire
acquire_state-holding m free = rw (acquire_state, free) refl

alloc_locked-panics :
    (fuel : ℕ) (m : Phys) (o flags : ℕ)
    → refill fuel m o ≡ panics
    → alloc_locked fuel m o flags ≡ panics
unfolding alloc_locked
alloc_locked-panics fuel m o flags e = rw e refl

phys_alloc_block-found :
    (fuel : ℕ) (m k : Phys) (o flags p : ℕ)
    → m.state.lock ≡ 0
    → o ≤ max_order
    → 2 ^ o ≤ m.state.stats.num_free_4k_pages
    → alloc_locked fuel (holding m) o flags ≡ returns (some p, k)
    → phys_alloc_block (suc fuel) m o flags ≡ returns (p, k)
unfolding phys_alloc_block alloc_checked
phys_alloc_block-found fuel m k o flags p free le enough found =
    let a : ltb max_order o ≡ false = ground arith in
    let b : ltb m.state.stats.num_free_4k_pages (2 ^ o) ≡ false = ground arith in
    rw (phys_alloc_block, a, acquire_state-holding m free, alloc_checked, b, found) refl

phys_alloc_block-fails :
    (fuel : ℕ) (m : Phys) (o flags : ℕ)
    → m.state.lock ≡ 0
    → alloc_locked fuel (holding m) o flags ≡ panics
    → phys_alloc_block (suc fuel) m o flags ≡ panics
unfolding phys_alloc_block alloc_checked
phys_alloc_block-fails fuel m o flags free failed = elim (Bool-cases (ltb max_order o)) [
  | inl a ↦ rw (phys_alloc_block, a) refl
  | inr a ↦ elim (Bool-cases (ltb m.state.stats.num_free_4k_pages (2 ^ o))) [
    | inl b ↦ rw (phys_alloc_block, a, acquire_state-holding m free, alloc_checked, b) refl
    | inr b ↦ rw (phys_alloc_block, a, acquire_state-holding m free, alloc_checked, b, failed) refl
  ]
]

two_pow_le : (n k : ℕ) → n ≤ k → 2 ^ n ≤ 2 ^ k
two_pow_le n k le = elim (Bool-cases (n == k)) [
  | inl e ↦ let same : n ≡ k = ground arith in omega (arith, ap (λ (i : ℕ). 2 ^ i) same)
  | inr e ↦ omega (arith, two_pow_lt n k (ground arith))
]

-- With the locks free and the lists well-formed, an allocation of an order up to 12 with known
-- flags, where some list of that order or a larger one has a block, returns a block, given 14
-- rounds of fuel: a block of the order and type asked for, aligned to its size, that lay in a
-- block that was free and shares no page with a block that still is. The number of free pages
-- goes down by its size, the lists stay well-formed, and all locks are free again.
pub phys_alloc_block-Allocated :
    (fuel : ℕ) (m : Phys) (xs : ℕ → List ℕ) (o k flags t : ℕ)
    → IsManaged m xs
    → m.state.lock ≡ 0
    → o ≤ k
    → k ≤ max_order
    → HasFirst (xs k)
    → alloc_flags_to_physblock_type flags ≡ returns t
    → max_order < fuel
    → (p : ℕ) × (n : Phys) × (ys : ℕ → List ℕ) × (phys_alloc_block (suc fuel) m o flags
        ≡ returns (p, n))
      × Allocated m n xs ys p o t
phys_alloc_block-Allocated fuel m xs o k flags t ok free lo hi (r, rs, has) typed enough =
    let (n, ys, filled, rest) =
      refill-Refilled fuel (holding m) xs o k (holding-IsManaged m xs ok) lo hi (r, rs, has)
        enough in
    let (p, ps, e) = rest.has in
    let le : o ≤ max_order = omega arith in
    let some_free : 2 ^ o ≤ m.state.stats.num_free_4k_pages =
      omega (arith, ok.total, pages_in-detach xs k r rs hi has, two_pow_le o k lo) in
    let found =
      alloc_locked-returns fuel (holding m) n ys o flags t p ps filled rest.managed le e typed in
    let got = hand_out-Allocated n ys o p ps flags t rest.managed le e xs rest.covers in
    (
      p,
      hand_out (locked n p) p o flags t,
      set_list ys o ps,
      phys_alloc_block-found fuel m (hand_out (locked n p) p o flags t) o flags p free le some_free
          found,
      record {
        managed = got.managed;
        unlocked = got.unlocked;
        free = got.free ∙ rest.free;
        type = got.type;
        order = got.order;
        aligned = got.aligned;
        apart = got.apart;
        was_free = got.was_free;
      },
    )

-- With the locks free and the lists well-formed, an allocation panics where the order is above 12,
-- and where no list of that order or a larger one has a block.
pub phys_alloc_block-panics :
    (fuel : ℕ) (m : Phys) (xs : ℕ → List ℕ) (o flags : ℕ)
    → IsManaged m xs
    → m.state.lock ≡ 0
    → (max_order < o) ⊎ ((i : ℕ) → o ≤ i → i ≤ max_order → xs i ≡ [])
    → phys_alloc_block (suc fuel) m o flags ≡ panics
unfolding phys_alloc_block
phys_alloc_block-panics fuel m xs o flags ok free (inl above) =
    let a : ltb max_order o ≡ true = ground arith in rw (phys_alloc_block, a) refl
phys_alloc_block-panics fuel m xs o flags ok free (inr nothing) =
    elim (Bool-cases (ltb max_order o)) [
      | inl a ↦ rw (phys_alloc_block, a) refl
      | inr a ↦
          let held = holding-IsManaged m xs ok in
          let empty =
            list_empty-nil held o (ground arith) (nothing o (omega arith) (ground arith)) in
          phys_alloc_block-fails fuel m o flags free (
            alloc_locked-panics fuel (holding m) o flags (
              refill_panics fuel (holding m) o empty
                (elim (first_order-First held (max_order - o) (o + 1) (ground arith)) [
                  | inl (nowhere, all) ↦ nowhere
                  | inr (j, found, lo, hi, has) ↦
                      absurd (not-HasFirst (xs j) (nothing j (omega arith) hi) has)
                ])))
    ]
