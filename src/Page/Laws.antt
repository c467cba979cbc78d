-- ===== src/Page/Laws.antt =====
-- Counts of pages, the two mappings of physical memory, and what an entry of a page table keeps.
use native.Mathlib.Nat.{div-le_self}
use zeptux.Base.{ℕ, ◌+◌, ◌-◌, ◌*◌, ◌/◌, ◌%◌, ◌^◌, ◌≤◌, ◌<◌, ◌≡◌, arith, bit_and}
use zeptux.Word.{shl, align, bit_mask, bit_mask_below, bit_mask_above, lnot}
use zeptux.Word.Laws.{bit_and-mask_below, align_up-eq, align-eq}
use zeptux.Page.Address.{
  bytes_to_pages, phys_to_virt, virt_to_phys, phys_to_pfn, pfn_to_phys, phys_next_page,
  phys_prev_page, virt_ptde_index, virt_pmde_index, virt_pude_index, virt_next_pmde,
  virt_pmde_remaining_pages, virt_next_pude, virt_pude_remaining_pages, virt_next_pgde,
  virt_pgde_remaining_pages, page_size,
}

bytes_to_pages-eq :
    (bytes : ℕ) → bytes + page_size ≤ 2 ^ 64 → bytes_to_pages bytes ≡ (bytes + 4095) / page_size
unfolding bytes_to_pages
bytes_to_pages-eq bytes h = omega (arith, align_up-eq bytes 12 (omega arith) h)

-- `bytes_to_pages` gives pages that hold the bytes, and one page less would not, where rounding
-- up does not pass 2 ^ 64.
pub bytes_to_pages-least :
    (bytes : ℕ)
    → bytes + page_size ≤ 2 ^ 64
    → (bytes ≤ bytes_to_pages bytes * page_size)
      × (bytes_to_pages bytes * page_size < bytes + page_size)
bytes_to_pages-least bytes h = omega (arith, bytes_to_pages-eq bytes h)

-- Through the direct mapping and back, for every physical address at which the direct mapping
-- does not run into the kernel's image: up to and including 64 TiB + 16 MiB.
pub virt_to_phys-phys_to_virt :
    (pa : ℕ) → pa ≤ 2 ^ 46 + 2 ^ 24 → virt_to_phys (phys_to_virt pa) ≡ pa
unfolding virt_to_phys phys_to_virt
virt_to_phys-phys_to_virt pa h = ground arith

-- The page after and the page before: aligned, and one page away from the address's own.
pub phys_next_page-prev :
    (pa : ℕ)
    → pa + 2 * page_size ≤ 2 ^ 64
    → (phys_next_page pa ≡ pa / page_size * page_size + page_size)
      × (phys_prev_page (phys_next_page pa) ≡ pa / page_size * page_size)
unfolding phys_next_page phys_prev_page phys_to_pfn pfn_to_phys shl
phys_next_page-prev pa h = omega arith

start_eq : (va : ℕ) → va < 2 ^ 64 → bit_and va (bit_mask_above 12) ≡ va / 2 ^ 12 * 2 ^ 12
unfolding align bit_mask_above bit_mask_below bit_mask shl lnot
start_eq va h = align-eq va 12 (omega arith) h

index : (va shift : ℕ) → va < 2 ^ 64 → bit_and (va / 2 ^ shift) 511 ≡ va / 2 ^ shift % 512
index va shift h =
    bit_and-mask_below (va / 2 ^ shift) 9 (omega arith) (omega (arith, div-le_self va (2 ^ shift)))

-- The pages that are left under a PMDE, a PUDE and a PGDE, from the page that an address lies in:
-- the 4 KiB pages that the entry spans, less those of the lower-level indexes of the address. The
-- address is to lie below the last TiB of the address space.
pub remaining_pages-index :
    (va : ℕ)
    → va + 2 ^ 40 ≤ 2 ^ 64
    → (virt_pmde_remaining_pages va ≡ 512 - virt_ptde_index va)
      × (virt_pude_remaining_pages va ≡ 512 * 512 - (virt_pmde_index va * 512 + virt_ptde_index va))
      × (virt_pgde_remaining_pages va
          ≡ 512 * 512 * 512
            - (virt_pude_index va * 512 * 512 + virt_pmde_index va * 512 + virt_ptde_index va))
unfolding virt_pmde_remaining_pages virt_pude_remaining_pages virt_pgde_remaining_pages
    virt_next_pmde virt_next_pude virt_next_pgde virt_ptde_index virt_pmde_index virt_pude_index shl
remaining_pages-index va h =
    let s = va / 2 ^ 12 * 2 ^ 12 in
    let count = λ (n : ℕ) (le : n + page_size ≤ 2 ^ 64). bytes_to_pages-eq n le in
    rw
      (
        start_eq va (omega arith),
        index va 12 (omega arith),
        index va 21 (omega arith),
        index va 30 (omega arith),
      )
      (
        omega (
          arith,
          count (((s / 2 ^ 21 + 1) % 2 ^ 64 * 2 ^ 21 % 2 ^ 64 + 2 ^ 64 - s) % 2 ^ 64) (omega arith),
        ),
        omega (
          arith,
          count (((s / 2 ^ 30 + 1) % 2 ^ 64 * 2 ^ 30 % 2 ^ 64 + 2 ^ 64 - s) % 2 ^ 64) (omega arith),
        ),
        omega (
          arith,
          count (((s / 2 ^ 39 + 1) % 2 ^ 64 * 2 ^ 39 % 2 ^ 64 + 2 ^ 64 - s) % 2 ^ 64) (omega arith),
        ),
      )
