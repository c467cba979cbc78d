-- ===== src/Page/Tests.antt =====
-- The theorems on page tables at concrete values.
use zeptux.Base.{
  ℕ, zero, suc, ◌+◌, ◌*◌, ◌%◌, ◌^◌, ◌≤◌, ◌<◌, false, ◌≡◌, ◌==◌, if◌then◌else◌, inl, refl, arith,
}
use zeptux.Page.Address.{
  num_page_table_entries, phys_to_virt, phys_next_page, phys_prev_page, encode_virt,
  virt_pgde_index, virt_pude_index, virt_pmde_index, virt_ptde_index, virt_data_offset,
}
use zeptux.Page.Encode.{IsCanonical, index-encode_virt}
use zeptux.Page.Laws.{phys_next_page-prev}
use zeptux.Page.Dump.{dump_mapped_pages}
use zeptux.Page.DumpLaws.{pgd_bytes, dump_mapped_pages_total}
use zeptux.Page.Entry.{
  Memory, store, page_table_phys_addr_mask, map_flags_to_page_flags, entry_at, entry_present,
  entry_huge, entry_address, assign_table,
}
use zeptux.Page.Map.{Mapping, done, map_page_range_ptd}
use zeptux.Page.Fill.{CanFill, Filled, map_page_range_ptd-Filled, entry_at-eq}
use zeptux.Page.Translate.{Chain, Outside, Walks, map_page_range_ptd-Walks}
use zeptux.Word.{is_mask_set, is_bit_set, bit_mask, shl, lnot, bit_mask_below, bit_mask_above}

phys_next_page-prev_example :
    (phys_next_page 5000 ≡ 8192) × (phys_prev_page (phys_next_page 5000) ≡ 4096)
phys_next_page-prev_example = phys_next_page-prev 5000 (omega arith)

abbrev address : ℕ
address = encode_virt 384 1 2 3 4

index-encode_virt_example :
    (virt_pgde_index address ≡ 384)
    × (virt_pude_index address ≡ 1)
    × (virt_pmde_index address ≡ 2)
    × (virt_ptde_index address ≡ 3)
    × (virt_data_offset address ≡ 4)
    × IsCanonical address
index-encode_virt_example =
    index-encode_virt 384 1 2 3 4 (omega arith) (omega arith) (omega arith) (omega arith)
      (omega arith)

-- MAP_KERNEL | MAP_READONLY
abbrev readonly : ℕ
readonly = 2049

abbrev blank : Memory
blank a = 0

-- Three pages to map, at the last two entries of the table at 0x3000.
abbrev two_to_fill : Mapping ℕ
two_to_fill = record {
  va = 510 * 4096;
  pa = 2 ^ 20;
  num_remaining_pages = 3;
  num_pagetables_allocated = 0;
  memory = blank;
  pool = 7;
}

can_fill : CanFill (3 * 4096) 510 2 two_to_fill
unfolding entry_present is_bit_set
can_fill = record {
  index = refl;
  va_aligned = refl;
  pa_aligned = refl;
  va_room = omega arith;
  pa_room = omega arith;
  table_room = omega arith;
  free = λ j h. refl;
}

map_page_range_ptd-Filled_example :
    (t : Mapping ℕ) × (map_page_range_ptd 512 1 (3 * 4096) two_to_fill ≡ done t)
    × Filled 1 (3 * 4096) 510 2 two_to_fill t
map_page_range_ptd-Filled_example =
    map_page_range_ptd-Filled 1 (3 * 4096) (inl refl) 512 510 two_to_fill (omega arith)
      (omega arith) can_fill

-- Tables at 0x1000, 0x2000, 0x3000 and 0x4000, each the first of the one before.
abbrev tables : Memory
tables = assign_table (assign_table (assign_table blank 4096 0 8192) 8192 0 12288) 12288 0 16384

abbrev to_translate : Mapping ℕ
to_translate = record two_to_fill { memory = tables }

first_at : (table : ℕ) → table + 4096 ≤ 16384 → Outside 16384 (entry_at table 0)
first_at table h k lt e = absurd (
    omega (
      arith,
      entry_at-eq 16384 k (omega arith) lt,
      entry_at-eq table 0 (omega arith) (omega arith),
      e,
    ))

still_free : (j : ℕ) → j < 2 → entry_present (tables (entry_at 16384 (510 + j))) ≡ false
unfolding entry_present is_bit_set assign_table store entry_at phys_to_virt
still_free zero h = refl
still_free (suc zero) h = refl
still_free (suc (suc j)) h = absurd (omega arith)

can_translate : CanFill 16384 510 2 to_translate
can_translate = record {
  index = refl;
  va_aligned = refl;
  pa_aligned = refl;
  va_room = omega arith;
  pa_room = omega arith;
  table_room = omega arith;
  free = still_free;
}

chain :
    Chain tables 4096
      (virt_pgde_index (510 * 4096))
      (virt_pude_index (510 * 4096))
      (virt_pmde_index (510 * 4096))
      16384
unfolding entry_present entry_huge entry_address is_bit_set is_mask_set bit_mask shl lnot
    bit_mask_below bit_mask_above page_table_phys_addr_mask assign_table store entry_at phys_to_virt
    virt_pgde_index virt_pude_index virt_pmde_index
chain = record {
  pgde_at = entry_at 4096 0;
  pude_at = entry_at 8192 0;
  pmde_at = entry_at 12288 0;
  pgde_place = refl;
  pude_place = refl;
  pmde_place = refl;
  pgde_present = refl;
  pude_present = refl;
  pmde_present = refl;
  pude_small = refl;
  pmde_small = refl;
  leads = refl;
}

map_page_range_ptd-Walks_example :
    (t : Mapping ℕ) × (map_page_range_ptd 512 1 16384 to_translate ≡ done t)
    × ((j : ℕ)
        → j < 2
        → Walks t.memory 4096
            (510 * 4096 + j * 4096)
            (2 ^ 20 + j * 4096)
            (map_flags_to_page_flags 1))
unfolding chain
map_page_range_ptd-Walks_example =
    map_page_range_ptd-Walks 1 16384 510 4096 (inl refl) to_translate (omega arith) can_translate
      chain (first_at 4096 (omega arith)) (first_at 8192 (omega arith))
      (first_at 12288 (omega arith))

-- Entry 0 of each table leads on, and entry 1 of the PMD is a page of 2 MiB.
abbrev mapped : Memory
mapped a =
    if a == entry_at 4096 0
    then 8192 + 1
    else if a == entry_at 8192 0
    then 12288 + 1
    else if a == entry_at 12288 1
    then 2 ^ 21 + 2 ^ 7 + 1
    else 0

dump_mapped_pages_total_example :
    (dump_mapped_pages mapped 4096 false).1
    ≡ pgd_bytes mapped num_page_table_entries 4096 0 % 2 ^ 64
dump_mapped_pages_total_example = dump_mapped_pages_total mapped 4096 false
