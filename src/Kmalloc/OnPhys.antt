-- ===== src/Kmalloc/OnPhys.antt =====
-- `kmalloc` on the physical allocator of mm/phys.c.
use zeptux.Base.{ℕ, suc, ◌^◌, ◌≤◌, ◌<◌, List, Option, some, none, ◌≡◌, refl, arith}
use zeptux.Word.{is_mask_set}
use zeptux.Page.Address.{phys_to_virt, pfn_to_phys}
use zeptux.Phys.{Outcome, returns, panics, spins, unfinished, max_order, Phys, physblock_to_phys}
use zeptux.Phys.Alloc.{
  phys_alloc, phys_alloc_block, alloc_flags_to_physblock_type, physblock_type_of,
}
use zeptux.Phys.Free.{phys_free}
use zeptux.Phys.Managed.{IsManaged}
use zeptux.Phys.Refill.{HasFirst}
use zeptux.Phys.Buddy.{two_pow_pos, physblock_to_pfn-back}
use zeptux.Phys.AllocLaws.{Allocated}
use zeptux.Phys.Allocate.{phys_alloc_block-Allocated}
use zeptux.Kmalloc.{bytes_to_order, kernel_movable, kmalloc_order, kmalloc, kfree}

-- A call that does not return is `none`.
abbrev returned : {A : Type 0} → Outcome A → Option A
returned (returns a) = some a
returned panics = none
returned spins = none
returned unfinished = none

unfoldable pub phys_kmalloc : ℕ → ℕ → ℕ → Phys → Option (ℕ × Phys)
phys_kmalloc fuel =
    kmalloc (λ order flags m. returned (phys_alloc fuel m order flags))
      (λ pa m. returned (phys_free m pa))

unfoldable pub phys_kfree : ℕ → ℕ → Phys → Option Phys
phys_kfree fuel =
    kfree (λ order flags m. returned (phys_alloc fuel m order flags))
      (λ pa m. returned (phys_free m pa))

kernel_movable_type : alloc_flags_to_physblock_type kernel_movable ≡ returns 1029
unfolding alloc_flags_to_physblock_type physblock_type_of is_mask_set
kernel_movable_type = refl

phys_alloc-returns :
    (fuel : ℕ) (m n : Phys) (o flags p : ℕ)
    → phys_alloc_block fuel m o flags ≡ returns (p, n)
    → p < 2 ^ 40
    → phys_alloc fuel m o flags ≡ returns (pfn_to_phys p, n)
unfolding phys_alloc physblock_to_phys
phys_alloc-returns fuel m n o flags p e lt = rw (e, physblock_to_pfn-back p lt) refl

kmalloc-returns :
    (fuel : ℕ) (m n : Phys) (size o p : ℕ)
    → bytes_to_order size ≡ some o
    → phys_alloc fuel m o kernel_movable ≡ returns (pfn_to_phys p, n)
    → phys_kmalloc fuel size 1 m ≡ some (phys_to_virt (pfn_to_phys p), n)
unfolding kmalloc_order phys_kmalloc phys_to_virt kmalloc pfn_to_phys
kmalloc-returns fuel m n size o p e f = rw (phys_kmalloc, kmalloc, e, f) refl

-- With the locks free and the lists well-formed, where a list of the order for `size` bytes or a
-- larger one has a block, `kmalloc` with KMALLOC_KERNEL gives, on 14 rounds of fuel or more, the address in
-- the direct map of a block of that order that was free and is now taken as movable kernel memory.
pub kmalloc-Allocated :
    (fuel : ℕ) (m : Phys) (xs : ℕ → List ℕ) (size o k : ℕ)
    → bytes_to_order size ≡ some o
    → IsManaged m xs
    → m.state.lock ≡ 0
    → o ≤ k
    → k ≤ max_order
    → HasFirst (xs k)
    → max_order < fuel
    → (p : ℕ) × (n : Phys) × (ys : ℕ → List ℕ) × (phys_kmalloc (suc fuel) size 1 m
        ≡ some (phys_to_virt (pfn_to_phys p), n))
      × Allocated m n xs ys p o 1029
kmalloc-Allocated fuel m xs size o k sized ok free lo hi has enough =
    let (p, n, ys, runs, got) =
      phys_alloc_block-Allocated fuel m xs o k kernel_movable 1029 ok free lo hi has
        kernel_movable_type enough in
    let (j, r, lj, there, low, high) = got.was_free in
    let block = ok.block j r lj there in
    let small : p < 2 ^ 40 = omega (arith, block.fits, two_pow_pos o) in
    let alloc = phys_alloc-returns (suc fuel) m n o kernel_movable p runs small in
    (p, n, ys, kmalloc-returns (suc fuel) m n size o p sized alloc, got)
