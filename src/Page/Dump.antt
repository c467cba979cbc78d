-- ===== src/Page/Dump.antt =====
-- mm/page.c: the dump of the page tables. What it prints is a list of lines, each a range of
-- virtual addresses with the words for its flags; the texts around them are left out.
use zeptux.Base.{
  ℕ, zero, suc, ◌+◌, ◌-◌, ◌*◌, ◌%◌, ◌^◌, Bool, true, false, not, ◌&&◌, List, [], ◌∷◌, ◌++◌, ◌==◌,
  if◌then◌else◌, bit_and, bit_or,
}
use zeptux.Word.{is_mask_set, is_bit_set, bit_mask_above, bit_mask_excluding}
use zeptux.Page.Address.{
  num_page_table_entries, phys_addr_bits, page_size, page_size_2mib, page_size_1gib, encode_virt,
}
use zeptux.Page.Entry.{
  Memory, entry_at, entry_present, entry_huge, entry_address, entry_raw_flags, page_flag_rw,
  page_flag_write_through, page_flag_uncached, page_flag_pse, page_flag_nx, page_flag_pse_bit,
}

-- "RW", "RO", "Us", "Wt", "Uc", "Ax", "Dt", "Hg", "Gl" and "EX"
pub data FlagWord : Type 0 where
  read_write read_only user write_through uncached accessed dirty huge global executable : FlagWord

pub record DumpLine : Type 0 where
  pub from : ℕ
  pub to : ℕ
  pub flags : List FlagWord

-- `struct page_dump_state`, with the lines that were printed.
pub record PageDumpState : Type 0 where
  pub in_range : Bool
  pub mask_huge_flag : Bool
  pub start : ℕ
  pub end : ℕ
  pub raw_flags : ℕ
  pub num_pages_4kib : ℕ
  pub num_pages_2mib : ℕ
  pub num_pages_1gib : ℕ
  pub lines : List DumpLine

abbrev pub word_if : Bool → FlagWord → List FlagWord
word_if b word = if b then word ∷ [] else []

unfoldable pub dump_flags : ℕ → List FlagWord
dump_flags flags =
    (if is_mask_set flags page_flag_rw then read_write ∷ [] else read_only ∷ [])
    ++ word_if (is_mask_set flags (2 ^ 2)) user
    ++ word_if (is_mask_set flags page_flag_write_through) write_through
    ++ word_if (is_mask_set flags page_flag_uncached) uncached
    ++ word_if (is_mask_set flags (2 ^ 5)) accessed
    ++ word_if (is_mask_set flags (2 ^ 6)) dirty
    ++ word_if (is_mask_set flags page_flag_pse) huge
    ++ word_if (is_mask_set flags (2 ^ 8)) global
    ++ word_if (not (is_mask_set flags page_flag_nx)) executable

-- Both ends get the sign of the start.
unfoldable pub print_range : PageDumpState → PageDumpState
print_range s =
    let high = is_bit_set s.start (phys_addr_bits - 1) in
    let mask = bit_mask_above phys_addr_bits in
    let line : DumpLine = record {
      from = if high then bit_or s.start mask else s.start;
      to = if high then bit_or s.end mask else s.end;
      flags = dump_flags s.raw_flags;
    } in
    record s { in_range = false; start = 0; end = 0; raw_flags = 0; lines = s.lines ++ line ∷ [] }

unfoldable pub maybe_dump_range : PageDumpState → PageDumpState
maybe_dump_range s = if s.in_range then print_range s else s

-- The flags as they are compared and kept.
abbrev pub without_huge : Bool → ℕ → ℕ
without_huge b flags = if b then bit_and flags (bit_mask_excluding page_flag_pse_bit) else flags

unfoldable pub extend_dump_range : PageDumpState → ℕ → ℕ → ℕ → PageDumpState
extend_dump_range s start end raw_flags =
    let flags = without_huge s.mask_huge_flag raw_flags in
    let prev = without_huge s.mask_huge_flag s.raw_flags in
    let s1 =
      if s.in_range && not (flags == prev)
      then record (maybe_dump_range s) { in_range = false }
      else s in
    if s1.in_range
    then record s1 { end = end }
    else record s1 { start = start; end = end; raw_flags = flags; in_range = true }

module _ (memory : Memory) where
  -- The rounds left, and the entry.
  unfoldable pub dump_ptd_from : ℕ → ℕ → ℕ → ℕ → ℕ → ℕ → PageDumpState → PageDumpState
  dump_ptd_from zero ptd pgd_ind pud_ind pmd_ind i s = s
  dump_ptd_from (suc left) ptd pgd_ind pud_ind pmd_ind i s =
      let ptde = memory (entry_at ptd i) in
      let start = encode_virt pgd_ind pud_ind pmd_ind i 0 in
      let end = (start + page_size) % 2 ^ 64 in
      let s1 = extend_dump_range s start end (entry_raw_flags ptde) in
      dump_ptd_from left ptd pgd_ind pud_ind pmd_ind (i + 1) (
        if entry_present ptde
        then record s1 { num_pages_4kib = (s1.num_pages_4kib + 1) % 2 ^ 64 }
        else maybe_dump_range s)

  unfoldable pub dump_mapped_pages_ptd : ℕ → ℕ → ℕ → ℕ → PageDumpState → PageDumpState
  dump_mapped_pages_ptd ptd pgd_ind pud_ind pmd_ind s =
      dump_ptd_from num_page_table_entries ptd pgd_ind pud_ind pmd_ind 0 s

  unfoldable pub dump_pmd_from : ℕ → ℕ → ℕ → ℕ → ℕ → PageDumpState → PageDumpState
  dump_pmd_from zero pmd pgd_ind pud_ind i s = s
  dump_pmd_from (suc left) pmd pgd_ind pud_ind i s =
      let pmde = memory (entry_at pmd i) in
      let start = encode_virt pgd_ind pud_ind i 0 0 in
      let end = (start + page_size_2mib) % 2 ^ 64 in
      let s1 = extend_dump_range s start end (entry_raw_flags pmde) in
      let s2 = dump_mapped_pages_ptd (entry_address pmde) pgd_ind pud_ind i s in
      dump_pmd_from left pmd pgd_ind pud_ind (i + 1) (
        if not (entry_present pmde)
        then maybe_dump_range s
        else if entry_huge pmde
        then record s1 { num_pages_2mib = (s1.num_pages_2mib + 1) % 2 ^ 64 }
        else s2)

  unfoldable pub dump_mapped_pages_pmd : ℕ → ℕ → ℕ → PageDumpState → PageDumpState
  dump_mapped_pages_pmd pmd pgd_ind pud_ind s =
      dump_pmd_from num_page_table_entries pmd pgd_ind pud_ind 0 s

  unfoldable pub dump_pud_from : ℕ → ℕ → ℕ → ℕ → PageDumpState → PageDumpState
  dump_pud_from zero pud pgd_ind i s = s
  dump_pud_from (suc left) pud pgd_ind i s =
      let pude = memory (entry_at pud i) in
      let start = encode_virt pgd_ind i 0 0 0 in
      let end = (start + page_size_1gib) % 2 ^ 64 in
      let s1 = extend_dump_range s start end (entry_raw_flags pude) in
      let s2 = dump_mapped_pages_pmd (entry_address pude) pgd_ind i s in
      dump_pud_from left pud pgd_ind (i + 1) (
        if not (entry_present pude)
        then maybe_dump_range s
        else if entry_huge pude
        then record s1 { num_pages_1gib = (s1.num_pages_1gib + 1) % 2 ^ 64 }
        else s2)

  unfoldable pub dump_mapped_pages_pud : ℕ → ℕ → PageDumpState → PageDumpState
  dump_mapped_pages_pud pud pgd_ind s = dump_pud_from num_page_table_entries pud pgd_ind 0 s

  unfoldable pub dump_pgd_from : ℕ → ℕ → ℕ → PageDumpState → PageDumpState
  dump_pgd_from zero pgd i s = s
  dump_pgd_from (suc left) pgd i s =
      let pgde = memory (entry_at pgd i) in
      let s1 = dump_mapped_pages_pud (entry_address pgde) i s in
      dump_pgd_from left pgd (i + 1) (if entry_present pgde then s1 else maybe_dump_range s)

  -- The last line prints the three numbers and the total of the bytes.
  unfoldable pub dump_mapped_pages : ℕ → Bool → PageDumpState × ℕ
  dump_mapped_pages pgd mask =
      let s = maybe_dump_range (
        dump_pgd_from num_page_table_entries pgd 0 (record {
          in_range = false;
          mask_huge_flag = mask;
          start = 0;
          end = 0;
          raw_flags = 0;
          num_pages_4kib = 0;
          num_pages_2mib = 0;
          num_pages_1gib = 0;
          lines = [];
        })) in
      (
        s,
        (s.num_pages_4kib * page_size
              + s.num_pages_2mib * page_size_2mib
              + s.num_pages_1gib * page_size_1gib)
            % 2 ^ 64,
      )
