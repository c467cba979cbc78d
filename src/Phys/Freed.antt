-- ===== src/Phys/Freed.antt =====
-- mm/phys.c, `phys_free_pfn` and `free_physblock_locked`: a block that is given back.
use zeptux.Base.{
  ℕ, ◌+◌, ◌^◌, ◌≤◌, ◌<◌, List, ◌≡◌, ◌≢◌, inl, inr, refl, sym, ap, ◌∙◌, ◌==◌, arith, true, false,
  Bool-cases, ltb,
}
use mathlib.Core.Path.{fun_ext}
use zeptux.Spinlock.{spinlock_acquire, spinlock_release, atomic_store_release}
use zeptux.Phys.{
  pfn_to_physblock_lock, Outcome, returns, max_order, physblock_free, masked_type, Physblock, Phys,
  release_block, acquire_state, release_state, set_block,
}
use zeptux.Phys.Free.{put_free, finish_free, free_last, free_physblock_locked, phys_free_pfn}
use zeptux.Phys.Lists.{In, append_to}
use zeptux.Phys.Managed.{IsManaged, Covers, Covers-trans, locked}
use zeptux.Phys.Rejoin.{In-append_to, In-append_to_last}
use zeptux.Phys.Given.{IsLoose, put_free-Put, put_free-IsManaged}
use zeptux.Phys.Tails.{acquire_block-free}
use zeptux.Phys.Tiles.{IsTiled, unlocked_again}
use zeptux.Phys.Compact.{Compacted, relocked}
use zeptux.Phys.CompactLoop.{compact_free_blocks_locked-CompactsTo}
use zeptux.Phys.GiveBack.{
  with_lock, with_lock-IsManaged, with_lock-IsTiled, drop_count, drop_count-IsManaged,
  drop_count-IsTiled, drop_count-IsLoose, drop_count-Alike, put_free-IsTiled,
}

-- The memory `m` after the block of the order `o` at `p` was given back in `k`.
pub record Freed (k m : Phys) (xs ys : ℕ → List ℕ) (p o : ℕ) : Type 0 where
  pub managed : IsManaged m ys
  pub tiled : IsTiled m ys
  pub unlocked : m.state.lock ≡ 0
  pub free : m.state.stats.num_free_4k_pages ≡ k.state.stats.num_free_4k_pages + 2 ^ o
  pub kept : Covers ys xs
  pub given : (j r : ℕ) × (j ≤ max_order) × In r (ys j) × (r ≤ p) × (p + 2 ^ o ≤ r + 2 ^ j)

acquire_state-free : (m : Phys) → m.state.lock ≡ 0 → acquire_state m ≡ returns (with_lock m 1)
unfolding acquire_state spinlock_acquire
acquire_state-free m z = rw z refl

locked-drop_count :
    (m : Phys) (p : ℕ)
    → set_block (locked m p) p (record ((locked m p).blocks p) { refcount = 0 })
      ≡ locked (drop_count m p) p
locked-drop_count m p =
    ap (λ (b : ℕ → Physblock). record m { blocks = b })
      (fun_ext (λ q. elim (Bool-cases (q == p)) [ inl e ↦ ground arith | inr e ↦ ground arith ]))

put_free-held : (m : Phys) (p : ℕ) → ((put_free (locked m p) p).blocks p).lock ≡ 1
unfolding put_free
put_free-held m p = ground arith

put_free-pages :
    (m : Phys) (p : ℕ)
    → (release_block (put_free (locked m p) p) p).state.stats.num_free_4k_pages
      ≡ (put_free (locked m p) p).state.stats.num_free_4k_pages
unfolding release_block
put_free-pages m p = refl

release_state-lock : (m : Phys) → release_state m ≡ with_lock m 0
unfolding release_state spinlock_release atomic_store_release
release_state-lock m = refl

locked_type : (m : Phys) (p : ℕ) → ((locked m p).blocks p).type ≡ (m.blocks p).type
locked_type m p = ground arith

finish_free-lem :
    (m : Phys) (xs : ℕ → List ℕ) (o p : ℕ)
    → IsManaged m xs
    → IsTiled m xs
    → o ≤ max_order
    → In p (xs o)
    → (q : ℕ) × (k : Phys) × (ys : ℕ → List ℕ) × (i : ℕ) × (finish_free (locked m p) p
        ≡ returns (with_lock k 0))
      × Compacted m k xs ys q i
unfolding finish_free
finish_free-lem m xs o p ok tiled le at =
    let (q, k, ys, i, result, after) =
      compact_free_blocks_locked-CompactsTo m xs o p ok tiled le at in
    let done : release_block (release_state (locked k q)) q ≡ with_lock k 0 =
      ap (λ t. release_block t q) (release_state-lock (locked k q))
      ∙ unlocked_again (with_lock k 0) q (after.managed.quiet q) in
    (q, k, ys, i, rw (finish_free, result) (ap returns done), after)

module _ (m m1 : Phys) (p : ℕ) (acquired : acquire_state m ≡ returns m1) where
  abbrev by_type : Outcome Phys
  by_type = elim (masked_type (m1.blocks p).type == physblock_free) [
    | true ↦ finish_free m1 p
    | false ↦ finish_free (put_free m1 p) p
  ]

  free_last-by_type : free_last m p ≡ by_type
  unfolding free_last
  free_last-by_type = rw (free_last, acquired) refl

  free_last_used :
      masked_type (m1.blocks p).type ≢ physblock_free
      → free_last m p ≡ finish_free (put_free m1 p) p
  free_last_used used =
      let c : (masked_type (m1.blocks p).type == physblock_free) ≡ false = ground (arith, used) in
      free_last-by_type ∙ rw (by_type, c) refl

last_count :
    (m : Phys) (p : ℕ)
    → (m.blocks p).refcount ≡ 1
    → free_physblock_locked m p ≡ free_last (set_block m p (record (m.blocks p) { refcount = 0 })) p
unfolding free_physblock_locked
last_count m p e =
    let z : ((m.blocks p).refcount == 0) ≡ false = ground (arith, e) in
    let l : ltb 1 (m.blocks p).refcount ≡ false = ground (arith, e) in
    rw (free_physblock_locked, z) (rw l refl)

-- The block at `p`, whose count is 0 by now, becomes free.
free_last-lem :
    (m : Phys) (xs : ℕ → List ℕ) (p o : ℕ)
    → IsManaged m xs
    → IsTiled m xs
    → IsLoose m xs p o
    → masked_type (m.blocks p).type ≢ physblock_free
    → m.state.lock ≡ 0
    → m.state.stats.num_free_4k_pages + 2 ^ o < 2 ^ 64
    → (k : Phys) × (ys : ℕ → List ℕ) × (free_last (locked m p) p ≡ returns k) × Freed m k xs ys p o
free_last-lem m xs p o ok tiled loose used unlocked room =
    let m1 = with_lock m 1 in
    let m2 = release_block (put_free (locked m1 p) p) p in
    let ok1 = with_lock-IsManaged m xs 1 ok in
    let tiled1 = with_lock-IsTiled m xs 1 tiled in
    let loose1 : IsLoose m1 xs p o = record {
      order = loose.order;
      small = loose.small;
      head_offset = loose.head_offset;
      aligned = loose.aligned;
      fits = loose.fits;
      apart = loose.apart;
    } in
    let order : ((locked m1 p).blocks p).order ≡ o = ground (arith, loose.order) in
    let put = put_free-Put (locked m1 p) p o order in
    let (q, k, ys, i, result, after) =
      finish_free-lem m2 (append_to xs o p) o p (put_free-IsManaged m1 xs p o ok1 loose1 room)
        (put_free-IsTiled m1 xs p o tiled1 loose1) loose.small (In-append_to_last xs o p) in
    let held : locked m2 p ≡ put_free (locked m1 p) p =
      relocked (put_free (locked m1 p) p) p (put_free-held m1 p) in
    (
      with_lock k 0,
      ys,
      free_last_used (locked m p) (locked m1 p) p (acquire_state-free (locked m p) unlocked)
            (λ f. used (ap masked_type (sym (locked_type m1 p)) ∙ f))
          ∙ ap (λ t. finish_free t p) (sym held)
          ∙ result,
      record {
        managed = with_lock-IsManaged k ys 0 after.managed;
        tiled = with_lock-IsTiled k ys 0 after.tiled;
        unlocked = refl;
        free = omega (arith, after.free, put.free);
        kept =
            Covers-trans ys (append_to xs o p) xs after.kept
              (λ j r le at. (j, r, le, In-append_to xs o p j r at, omega arith, omega arith));
        given = after.kept o p loose.small (In-append_to_last xs o p);
      },
    )

pub free_physblock_locked-Freed :
    (m : Phys) (xs : ℕ → List ℕ) (p o : ℕ)
    → IsManaged m xs
    → IsTiled m xs
    → IsLoose m xs p o
    → (m.blocks p).refcount ≡ 1
    → masked_type (m.blocks p).type ≢ physblock_free
    → m.state.lock ≡ 0
    → m.state.stats.num_free_4k_pages + 2 ^ o < 2 ^ 64
    → (k : Phys) × (ys : ℕ → List ℕ) × (free_physblock_locked (locked m p) p ≡ returns k)
      × Freed m k xs ys p o
free_physblock_locked-Freed m xs p o ok tiled loose count used unlocked room =
    let like = drop_count-Alike m p p in
    let (k, ys, result, after) =
      free_last-lem (drop_count m p) xs p o (drop_count-IsManaged m xs p ok)
        (drop_count-IsTiled m xs p tiled) (drop_count-IsLoose m xs p o loose)
        (λ f. used (ap masked_type (sym like.type) ∙ f)) unlocked room in
    let one : ((locked m p).blocks p).refcount ≡ 1 = ground (arith, count) in
    (
      k,
      ys,
      last_count (locked m p) p one ∙ ap (λ t. free_last t p) (locked-drop_count m p) ∙ result,
      record {
        managed = after.managed;
        tiled = after.tiled;
        unlocked = after.unlocked;
        free = after.free;
        kept = after.kept;
        given = after.given;
      },
    )

lookup_head :
    (m : Phys) (p : ℕ)
    → (m.blocks p).lock ≡ 0
    → (m.blocks p).head_offset ≡ 0
    → pfn_to_physblock_lock m p ≡ returns (p, locked m p)
unfolding pfn_to_physblock_lock
lookup_head m p free z =
    let o : ((locked m p).blocks p).head_offset ≡ 0 = ground (arith, z) in
    rw (acquire_block-free m p free, o) refl

free_at_head :
    (m : Phys) (p : ℕ)
    → pfn_to_physblock_lock m p ≡ returns (p, locked m p)
    → phys_free_pfn m p ≡ free_physblock_locked (locked m p) p
unfolding phys_free_pfn
free_at_head m p e = rw e refl

-- In a well-formed state with all locks free, where the blocks cover the spans, a block that is in
-- use, has the count 1, is aligned to its size and shares no page with a free block is given back by the PFN
-- of its head: that ends without panic or deadlock, in such a state again. The number of
-- free pages grows by its size, if it stays below 2 ^ 64, its pages lie in a free block, and so
-- does every block that was free.
pub phys_free_pfn-Freed :
    (m : Phys) (xs : ℕ → List ℕ) (p o : ℕ)
    → IsManaged m xs
    → IsTiled m xs
    → IsLoose m xs p o
    → (m.blocks p).refcount ≡ 1
    → masked_type (m.blocks p).type ≢ physblock_free
    → m.state.lock ≡ 0
    → m.state.stats.num_free_4k_pages + 2 ^ o < 2 ^ 64
    → (k : Phys) × (ys : ℕ → List ℕ) × (phys_free_pfn m p ≡ returns k) × Freed m k xs ys p o
phys_free_pfn-Freed m xs p o ok tiled loose count used unlocked room =
    let (k, ys, result, after) =
      free_physblock_locked-Freed m xs p o ok tiled loose count used unlocked room in
    (k, ys, free_at_head m p (lookup_head m p (ok.quiet p) loose.head_offset) ∙ result, after)
