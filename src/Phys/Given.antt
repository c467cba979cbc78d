-- ===== src/Phys/Given.antt =====
-- Where the well-formed states come from: the fresh state has empty lists, and a block that is put
-- into the list of its order is free from then on.
use zeptux.Base.{
  ℕ, zero, suc, ◌+◌, ◌*◌, ◌%◌, ◌^◌, ◌≤◌, ◌<◌, List, [], ◌≡◌, ◌≢◌, ◌⊎◌, inl, inr, refl, sym, ap, ap₂,
  subst, ◌∙◌, ◌==◌, arith, if◌then◌else◌, true, false, length, Bool-cases, if-elim,
}
use zeptux.Ring.{ListHeap, list_init, list_node_init, list_push_back}
use zeptux.Spinlock.{spinlock_release, atomic_store_release}
use zeptux.EarlyAlloc.{EarlyPageAllocState}
use zeptux.Phys.{
  max_order, kernel_mem_map_address, physblock_free, Physblock, PhysAllocStats, Phys, free_list,
  node, add_u64, masked_type, release_block,
}
use zeptux.Phys.Buddy.{two_pow_pos}
use zeptux.Phys.Init.{init_lists, phys_alloc_init_state}
use zeptux.Phys.Free.{put_free, count_freed}
use zeptux.Phys.Lists.{In, max_pfn, append_to, IsLists, In-pushed, push-IsLists}
use zeptux.Phys.Managed.{
  IsFreeBlock, IsManaged, locked, pages_in-append_to, length-append_to, length-le-pages_in,
}

abbrev pub no_lists : ℕ → List ℕ
no_lists o = []

init_lists-rings :
    (n : ℕ) (h : ListHeap) (ptr i : ℕ)
    → i < n
    → ((init_lists n h ptr).next (ptr + 16 * i) ≡ ptr + 16 * i)
      × ((init_lists n h ptr).prev (ptr + 16 * i) ≡ ptr + 16 * i)
unfolding init_lists list_init list_node_init
init_lists-rings zero h ptr i lt = absurd (omega arith)
init_lists-rings (suc n) h ptr i lt = elim (Bool-cases (i == n)) [
  | inl e ↦ let same : i ≡ n = ground arith in ground arith
  | inr e ↦ ground (arith, init_lists-rings n h ptr i (ground arith))
]

-- A state that is initialised at a zeroed page below the physblocks, while no physblock is locked,
-- is well-formed: every list is a ring without elements, and no page counts as free.
pub phys_alloc_init_state-IsManaged :
    (m : Phys) (ptr : ℕ) (early : EarlyPageAllocState)
    → ptr + 208 ≤ kernel_mem_map_address
    → ((q : ℕ) → (m.blocks q).lock ≡ 0)
    → ((o : ℕ) → m.state.stats.order_free_pages o ≡ 0)
    → m.state.stats.num_free_4k_pages ≡ 0
    → IsManaged (phys_alloc_init_state m ptr early) no_lists
unfolding phys_alloc_init_state
phys_alloc_init_state-IsManaged m ptr early fits quiet counts free = record {
  lists = record {
    fits = fits;
    ring = λ o le. (init_lists-rings 13 m.heap ptr o (omega arith), tt, tt);
    small = λ o p le at. absurd at;
    once = λ o i p lo li at there. absurd at;
  };
  block = λ o p le at. absurd at;
  apart = λ o i p q lo li at there lo' hi. absurd at;
  quiet = quiet;
  count = λ o le. counts o;
  total = free;
  bounded = omega (arith, free);
}

count_freed_rest :
    (s : PhysAllocStats) (type : ℕ)
    → ((count_freed s type).num_free_4k_pages ≡ s.num_free_4k_pages)
      × ((count_freed s type).order_free_pages ≡ s.order_free_pages)
unfolding count_freed
count_freed_rest s type = ground arith

-- A block of the order `o` that can become free: aligned, and sharing no page with a free one.
pub record IsLoose (m : Phys) (xs : ℕ → List ℕ) (p o : ℕ) : Type 0 where
  pub order : (m.blocks p).order ≡ o
  pub small : o ≤ max_order
  pub head_offset : (m.blocks p).head_offset ≡ 0
  pub aligned : p % 2 ^ o ≡ 0
  pub fits : p + 2 ^ o ≤ max_pfn
  pub apart : (i q : ℕ) → i ≤ max_order → In q (xs i) → (q + 2 ^ i ≤ p) ⊎ (p + 2 ^ o ≤ q)

-- The memory `k` after the block at `p`, with its lock held, was put into its list in `m`.
pub record Put (m k : Phys) (p o : ℕ) : Type 0 where
  pub heap : k.heap ≡ list_push_back m.heap (free_list m o) (node p)
  pub address : k.state.address ≡ m.state.address
  pub free : k.state.stats.num_free_4k_pages ≡ add_u64 m.state.stats.num_free_4k_pages (2 ^ o)
  pub here : k.state.stats.order_free_pages o ≡ add_u64 (m.state.stats.order_free_pages o) 1
  pub counts : (i : ℕ) → i ≢ o → k.state.stats.order_free_pages i ≡ m.state.stats.order_free_pages i
  pub block : k.blocks p ≡ record (m.blocks p) { type = physblock_free; lock = 0 }
  pub others : (q : ℕ) → q ≢ p → k.blocks q ≡ m.blocks q

pub put_free-Put :
    (m : Phys) (p o : ℕ) → (m.blocks p).order ≡ o → Put m (release_block (put_free m p) p) p o
unfolding put_free release_block spinlock_release atomic_store_release
put_free-Put m p o e =
    let rest = count_freed_rest m.state.stats (masked_type (m.blocks p).type) in
    record {
      heap = ap (λ i. list_push_back m.heap (free_list m i) (node p)) e;
      address = refl;
      free = ap₂ add_u64 rest.0 (ap (λ (i : ℕ). 2 ^ i) e);
      here =
          let same : (o == (m.blocks p).order) ≡ true = ground arith in
          rw (same, e, ap (λ (f : ℕ → ℕ). f o) rest.1) refl;
      counts = λ i ne.
          let other : (i == (m.blocks p).order) ≡ false = ground arith in
          rw other (ap (λ (f : ℕ → ℕ). f i) rest.1);
      block = ground arith;
      others = λ q ne. ground arith;
    }

module _ (m : Phys) (xs : ℕ → List ℕ) (p o : ℕ) (ok : IsManaged m xs) (loose : IsLoose m xs p o)
    (room : m.state.stats.num_free_4k_pages + 2 ^ o < 2 ^ 64) where
  new : (i : ℕ) → i ≤ max_order → ¬ In p (xs i)
  new i le at =
      let a = two_pow_pos i in
      let b = two_pow_pos o in absurd (ground (arith, loose.apart i p le at))

  abbrev result : Phys
  result = release_block (put_free (locked m p) p) p

  here : (locked m p).blocks p ≡ record (m.blocks p) { lock = 1 }
  here = ground arith

  put : Put (locked m p) result p o
  put = put_free-Put (locked m p) p o (ap (λ (b : Physblock). b.order) here ∙ loose.order)

  kept : (q : ℕ) → q ≢ p → result.blocks q ≡ m.blocks q
  kept q ne =
      put.others q ne
      ∙ if-elim (λ (b : Physblock). b ≡ m.blocks q) (q == p) (λ z. ground (arith, ne)) (λ z. refl)

  given : IsFreeBlock (result.blocks p) o p
  given =
      let b =
        put.block ∙ ap (λ (b : Physblock). record b { type = physblock_free; lock = 0 }) here in
      record {
        type = ap (λ (b : Physblock). b.type) b;
        order = ap (λ (b : Physblock). b.order) b ∙ loose.order;
        head_offset = ap (λ (b : Physblock). b.head_offset) b ∙ loose.head_offset;
        aligned = loose.aligned;
        fits = loose.fits;
      }

  -- In a well-formed state, a block that is aligned to its size, shares no page with a free block
  -- and is put into the list of its order, with its lock held until then, leaves a well-formed
  -- state with the block at the end of that list, if the number of free pages stays below 2 ^ 64.
  pub put_free-IsManaged : IsManaged (release_block (put_free (locked m p) p) p) (append_to xs o p)
  put_free-IsManaged = record {
    lists =
        subst (λ (h : ListHeap). IsLists h result.state.address (append_to xs o p)) (sym put.heap)
          (subst
            (λ (a : ℕ).
              IsLists (list_push_back m.heap (free_list m o) (node p)) a (append_to xs o p))
            (sym put.address)
            (push-IsLists ok.lists o p loose.small (omega (arith, loose.fits, two_pow_pos o)) new));
    block = λ i q le at. elim (In-pushed xs o i p q at) [
      | inl old ↦
          subst (λ (b : Physblock). IsFreeBlock b i q)
            (sym (kept q (λ same. new i le (subst (λ r. In r (xs i)) same old))))
            (ok.block i q le old)
      | inr (f, same) ↦
          subst (λ (r : ℕ). IsFreeBlock (result.blocks r) i r) same
            (subst (λ (j : ℕ). IsFreeBlock (result.blocks p) j p) (sym f) given)
    ];
    apart = λ i j q r li lj at there lo hi. elim (In-pushed xs o i p q at) [
      | inl old ↦ elim (In-pushed xs o j p r there) [
        | inl too ↦ ok.apart i j q r li lj old too lo hi
        | inr (g, again) ↦ absurd (ground (arith, loose.apart i q li old, two_pow_pos o))
      ]
      | inr (f, same) ↦
          let size : 2 ^ i ≡ 2 ^ o = ap (λ (k : ℕ). 2 ^ k) f in
          elim (In-pushed xs o j p r there) [
            | inl too ↦ absurd (ground (arith, loose.apart j r lj too, two_pow_pos j))
            | inr (g, again) ↦ omega arith
          ]
    ];
    quiet = λ q. elim (Bool-cases (q == p)) [
      | inl z ↦
          let same : q ≡ p = ground arith in
          ap (λ r. (result.blocks r).lock) same ∙ ap (λ (b : Physblock). b.lock) put.block
      | inr z ↦ ap (λ (b : Physblock). b.lock) (kept q (λ f. ground arith)) ∙ ok.quiet q
    ];
    count = λ i le.
        let len = length-append_to xs o p i in
        let most = length-le-pages_in xs i 13 (omega arith) in
        elim (Bool-cases (i == o)) [
          | inl z ↦
              let same : i ≡ o = ground arith in
              let l : length (append_to xs o p i) ≡ suc (length (xs i)) =
                subst
                  (λ b.
                    length (append_to xs o p i)
                    ≡ (if b then suc (length (xs i)) else length (xs i)))
                  z len in
              let c : result.state.stats.order_free_pages i
                  ≡ add_u64 (m.state.stats.order_free_pages i) 1 =
                subst
                  (λ j.
                    result.state.stats.order_free_pages j
                    ≡ add_u64 (m.state.stats.order_free_pages j) 1)
                  (sym same) put.here in
              omega (arith, c, l, ok.count i le, ok.total, two_pow_pos o)
          | inr z ↦
              let l : length (append_to xs o p i) ≡ length (xs i) =
                subst
                  (λ b.
                    length (append_to xs o p i)
                    ≡ (if b then suc (length (xs i)) else length (xs i)))
                  z len in
              put.counts i (λ f. ground arith) ∙ ok.count i le ∙ sym l
        ];
    total = omega (arith, put.free, ok.total, pages_in-append_to xs o p loose.small);
    bounded = omega (arith, put.free);
  }
