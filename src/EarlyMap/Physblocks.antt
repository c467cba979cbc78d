-- ===== src/EarlyMap/Physblocks.antt =====
-- The pages that are mapped for the physblocks of a span.
use zeptux.Base.{ℕ, ◌+◌, ◌-◌, ◌*◌, ◌/◌, ◌%◌, ◌^◌, ◌≤◌, ◌<◌, ◌≡◌, ◌↔◌, arith}
use zeptux.Word.Laws.{align-eq, align_up-eq}
use zeptux.Page.Address.{page_size, phys_to_pfn}
use zeptux.Phys.{kernel_mem_map_address, sizeof_physblock, pfn_to_physblock_raw}
use zeptux.EarlyMap.{physblock_pages}

raw-eq : (p : ℕ) → p < 2 ^ 40 → pfn_to_physblock_raw p ≡ kernel_mem_map_address + p * 32
unfolding pfn_to_physblock_raw
raw-eq p lt = omega arith

module _ (start num_pages : ℕ) (fits : start / 4096 + num_pages ≤ 2 ^ 40) where
  abbrev low : ℕ
  low = kernel_mem_map_address + start / 4096 * 32

  low-eq : (kernel_mem_map_address + start / 4096 * 32) % 2 ^ 64 ≡ low
  low-eq = omega arith

  pages_from : (physblock_pages start num_pages).0 ≡ low / 4096 * 4096
  unfolding physblock_pages phys_to_pfn
  pages_from = rw low-eq (align-eq low 12 (omega arith) (omega arith))

  pages_to : (physblock_pages start num_pages).1 ≡ (low + num_pages * 32 + 4096 - 1) / 4096 * 4096
  unfolding physblock_pages phys_to_pfn
  pages_to =
      let f : (low + num_pages * 32) % 2 ^ 64 ≡ low + num_pages * 32 = omega arith in
      rw (low-eq, f) (align_up-eq (low + num_pages * 32) 12 (omega arith) (omega arith))

-- Whole pages, which hold the physblock of each page of the span, and no page more than these
-- physblocks need.
pub record Covers (first num_pages : ℕ) (range : ℕ × ℕ) : Type 0 where
  pub whole : (range.0 % page_size ≡ 0) × (range.1 % page_size ≡ 0)
  pub inside :
      (i : ℕ)
      → i < num_pages
      → (range.0 ≤ pfn_to_physblock_raw (first + i))
        × (pfn_to_physblock_raw (first + i) + sizeof_physblock ≤ range.1)
  pub tight :
      (pfn_to_physblock_raw first < range.0 + page_size)
      × (range.1 < pfn_to_physblock_raw first + num_pages * sizeof_physblock + page_size)

-- For a span of at least one page below PFN 2 ^ 40, the pages that `alloc_map_physblock` maps are
-- whole pages that hold the physblock of each page of the span, from the page with the first byte
-- of these physblocks to the page with the last.
pub physblock_pages-Covers :
    (start num_pages : ℕ)
    → 0 < num_pages
    → start / 4096 + num_pages ≤ 2 ^ 40
    → Covers (start / 4096) num_pages (physblock_pages start num_pages)
physblock_pages-Covers start num_pages some_page fits =
    let first = start / 4096 in
    let from = pages_from start num_pages fits in
    let to = pages_to start num_pages fits in
    record {
      whole = (omega (arith, from), omega (arith, to));
      inside = λ i lt.
          let at = raw-eq (first + i) (omega arith) in
          (omega (arith, from, at), omega (arith, to, at));
      tight =
          let at = raw-eq first (omega arith) in (omega (arith, from, at), omega (arith, to, at));
    }

-- One of the pages from the first address of a range to before the second.
abbrev pub IsPageOf : ℕ × ℕ → ℕ → Type 0
IsPageOf range va = (va % page_size ≡ 0) × (range.0 ≤ va) × (va < range.1)

-- Of two spans of at least one page below PFN 2 ^ 40, the second one behind the first, the ranges
-- of pages that `alloc_map_physblock` maps for the physblocks have a page in common just when the
-- last page of the first and the first page of the second have PFNs in one aligned block of 128.
pub physblock_pages-shared :
    (start num_pages later more_pages : ℕ)
    → 0 < num_pages
    → 0 < more_pages
    → start / 4096 + num_pages ≤ later / 4096
    → later / 4096 + more_pages ≤ 2 ^ 40
    → ((va : ℕ) × IsPageOf (physblock_pages start num_pages) va
        × IsPageOf (physblock_pages later more_pages) va)
      ↔ ((start / 4096 + num_pages - 1) / 128 ≡ later / 4096 / 128)
physblock_pages-shared start num_pages later more_pages a b behind fits =
    let low = pages_from start num_pages (omega arith) in
    let to = pages_to start num_pages (omega arith) in
    let from = pages_from later more_pages fits in
    let high = pages_to later more_pages fits in
    (
      λ (va, (whole, at, below), (aligned, here, beyond)). omega (arith, to, from, below, here),
      λ h. (
        (physblock_pages later more_pages).0,
        (omega (arith, from), omega (arith, low, from), omega (arith, to, from, h)),
        (omega (arith, from), omega (arith, from), omega (arith, from, high)),
      ),
    )
