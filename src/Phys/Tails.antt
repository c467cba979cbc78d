-- ===== src/Phys/Tails.antt =====
-- From a page inside a block to the block: `pfn_to_physblock_lock` at a tail.
use zeptux.Base.{ℕ, ◌+◌, ◌*◌, ◌/◌, ◌%◌, ◌^◌, ◌<◌, ◌≡◌, ◌↔◌, refl, ◌==◌, arith, false}
use zeptux.Spinlock.{spinlock_acquire, spinlock_release, atomic_store_release}
use zeptux.Phys.{
  returns, Phys, sub_u64, acquire_block, release_block, physblock_tail_to_head,
  pfn_to_physblock_lock, set_block,
}

abbrev pub word_set : Phys → ℕ → ℕ → Phys
word_set m p w = set_block m p (record (m.blocks p) { lock = w })

pub acquire_block-free :
    (m : Phys) (p : ℕ) → (m.blocks p).lock ≡ 0 → acquire_block m p ≡ returns (word_set m p 1)
unfolding acquire_block spinlock_acquire
acquire_block-free m p z = rw (acquire_block, z) refl

release_block-quiet :
    (m : Phys) (p q : ℕ)
    → ((r : ℕ) → (m.blocks r).lock ≡ 0)
    → ((release_block (word_set m p 1) p).blocks q).lock ≡ 0
unfolding release_block spinlock_release atomic_store_release
release_block-quiet m p q quiet = ground (arith, quiet q)

word_set-lock : (m : Phys) (p w : ℕ) → ((word_set m p w).blocks p).lock ≡ w
word_set-lock m p w = ground arith

pub physblock_tail_to_head-lem :
    (m : Phys) (p d q : ℕ)
    → (m.blocks p).head_offset ≡ d
    → sub_u64 p (d % 2 ^ 8) ≡ q
    → ((release_block m p).blocks q).lock ≡ 0
    → physblock_tail_to_head m p ≡ returns (q, word_set (release_block m p) q 1)
unfolding physblock_tail_to_head
physblock_tail_to_head-lem m p d q o at free =
    rw (physblock_tail_to_head, o, at, acquire_block-free (release_block m p) q free) refl

-- Where no physblock is locked, looking up the page `d` pages behind the head of a block, the head
-- being that of a block of at most 2 ^ 16 pages, gives and locks the physblock at `d / 256 * 256`
-- pages behind the head: the offset is cut to eight bits, so that this is the head itself just
-- where `d` is below 256.
pub pfn_to_physblock_lock-tail :
    (m : Phys) (head d : ℕ)
    → ((q : ℕ) → (m.blocks q).lock ≡ 0)
    → (m.blocks (head + d)).head_offset ≡ d
    → 0 < d
    → head + d < 2 ^ 64
    → (k : Phys) × (pfn_to_physblock_lock m (head + d) ≡ returns (head + d / 256 * 256, k))
      × ((k.blocks (head + d / 256 * 256)).lock ≡ 1)
      × ((head + d / 256 * 256 ≡ head) ↔ (d < 256))
unfolding pfn_to_physblock_lock
pfn_to_physblock_lock-tail m head d quiet offset pos lt =
    let m1 = word_set m (head + d) 1 in
    let m2 = release_block m1 (head + d) in
    let found = head + d / 256 * 256 in
    let o : (m1.blocks (head + d)).head_offset ≡ d = ground (arith, offset) in
    let nz : (d == 0) ≡ false = ground arith in
    let at : sub_u64 (head + d) (d % 2 ^ 8) ≡ found = omega arith in
    let free : (m2.blocks found).lock ≡ 0 = release_block-quiet m (head + d) found quiet in
    (
      word_set m2 found 1,
      rw
          (
            acquire_block-free m (head + d) (quiet (head + d)),
            o,
            nz,
            physblock_tail_to_head-lem m1 (head + d) d found o at free,
          )
          refl,
      word_set-lock m2 found 1,
      (λ e. omega (arith, e), λ l. omega (arith, l)),
    )
