-- ===== src/Page/DumpLaws.antt =====
-- The total that the dump of the page tables prints, against a sum over the tables.
use zeptux.Base.{
  ℕ, zero, suc, ◌+◌, ◌*◌, ◌%◌, ◌^◌, Bool, true, false, not, [], ◌≡◌, refl, ap, ◌∙◌, arith,
  if◌then◌else◌, if-elim,
}
use zeptux.Page.Address.{
  encode_virt, num_page_table_entries, page_size, page_size_2mib, page_size_1gib,
}
use zeptux.Page.Entry.{Memory, entry_at, entry_present, entry_huge, entry_address, entry_raw_flags}
use zeptux.Page.Dump.{
  PageDumpState, print_range, maybe_dump_range, extend_dump_range, dump_ptd_from,
  dump_mapped_pages_ptd, dump_pmd_from, dump_mapped_pages_pmd, dump_pud_from, dump_mapped_pages_pud,
  dump_pgd_from, dump_mapped_pages,
}

-- The bytes of the pages that were counted.
abbrev pub counted : PageDumpState → ℕ
counted s =
    s.num_pages_4kib * page_size
    + s.num_pages_2mib * page_size_2mib
    + s.num_pages_1gib * page_size_1gib

maybe_dump_range-counted : (s : PageDumpState) → counted (maybe_dump_range s) ≡ counted s
unfolding maybe_dump_range print_range
maybe_dump_range-counted s = if-elim (λ t. counted t ≡ counted s) s.in_range (λ e. refl) (λ e. refl)

extend_dump_range_numbers :
    (s : PageDumpState) (start end flags : ℕ)
    → ((extend_dump_range s start end flags).num_pages_4kib ≡ s.num_pages_4kib)
      × ((extend_dump_range s start end flags).num_pages_2mib ≡ s.num_pages_2mib)
      × ((extend_dump_range s start end flags).num_pages_1gib ≡ s.num_pages_1gib)
unfolding extend_dump_range maybe_dump_range print_range
extend_dump_range_numbers s start end flags = ground arith

-- The state `t` counts `n` bytes more than `s`, as far as a uint64_t shows.
abbrev More : PageDumpState → PageDumpState → ℕ → Type 0
More s t n = counted t % 2 ^ 64 ≡ (counted s + n) % 2 ^ 64

More-trans : (s t u : PageDumpState) (a b : ℕ) → More s t a → More t u b → More s u (a + b)
More-trans s t u a b x y = omega (arith, x, y)

More-if :
    (b : Bool) (s t u : PageDumpState) (n k : ℕ)
    → More s t n
    → More s u k
    → More s (if b then t else u) (if b then n else k)
More-if true s t u n k x y = x
More-if false s t u n k x y = y

More-none : (s : PageDumpState) → More s s 0
More-none s = omega arith

none_before : (n : ℕ) → (0 + n) % 2 ^ 64 ≡ n % 2 ^ 64
none_before n = omega arith

maybe_dump_range-More : (s : PageDumpState) → More s (maybe_dump_range s) 0
maybe_dump_range-More s = omega (arith, maybe_dump_range-counted s)

-- One more page of 4 KiB, 2 MiB or 1 GiB, after the range was extended.
module _ (s : PageDumpState) (start end flags : ℕ) where
  abbrev extended : PageDumpState
  extended = extend_dump_range s start end flags

  one_4kib :
      More s (record extended { num_pages_4kib = (extended.num_pages_4kib + 1) % 2 ^ 64 }) page_size
  one_4kib = omega (arith, extend_dump_range_numbers s start end flags)

  one_2mib :
      More s
        (record extended { num_pages_2mib = (extended.num_pages_2mib + 1) % 2 ^ 64 })
        page_size_2mib
  one_2mib = omega (arith, extend_dump_range_numbers s start end flags)

  one_1gib :
      More s
        (record extended { num_pages_1gib = (extended.num_pages_1gib + 1) % 2 ^ 64 })
        page_size_1gib
  one_1gib = omega (arith, extend_dump_range_numbers s start end flags)

module _ (memory : Memory) where
  -- The bytes that a table maps, from entry `i` on.
  unfoldable pub ptd_bytes : ℕ → ℕ → ℕ → ℕ
  ptd_bytes zero ptd i = 0
  ptd_bytes (suc left) ptd i =
      (if entry_present (memory (entry_at ptd i)) then page_size else 0)
      + ptd_bytes left ptd (i + 1)

  unfoldable pub pmd_bytes : ℕ → ℕ → ℕ → ℕ
  pmd_bytes zero pmd i = 0
  pmd_bytes (suc left) pmd i =
      let pmde = memory (entry_at pmd i) in
      (if not (entry_present pmde)
        then 0
        else if entry_huge pmde
        then page_size_2mib
        else ptd_bytes num_page_table_entries (entry_address pmde) 0)
      + pmd_bytes left pmd (i + 1)

  unfoldable pub pud_bytes : ℕ → ℕ → ℕ → ℕ
  pud_bytes zero pud i = 0
  pud_bytes (suc left) pud i =
      let pude = memory (entry_at pud i) in
      (if not (entry_present pude)
        then 0
        else if entry_huge pude
        then page_size_1gib
        else pmd_bytes num_page_table_entries (entry_address pude) 0)
      + pud_bytes left pud (i + 1)

  unfoldable pub pgd_bytes : ℕ → ℕ → ℕ → ℕ
  pgd_bytes zero pgd i = 0
  pgd_bytes (suc left) pgd i =
      let pgde = memory (entry_at pgd i) in
      (if entry_present pgde then pud_bytes num_page_table_entries (entry_address pgde) 0 else 0)
      + pgd_bytes left pgd (i + 1)

  dump_ptd_from-More :
      (left ptd g u m i : ℕ) (s : PageDumpState)
      → More s (dump_ptd_from memory left ptd g u m i s) (ptd_bytes left ptd i)
  unfolding ptd_bytes dump_ptd_from
  dump_ptd_from-More zero ptd g u m i s = More-none s
  dump_ptd_from-More (suc left) ptd g u m i s =
      let ptde = memory (entry_at ptd i) in
      let start = encode_virt g u m i 0 in
      let end = (start + page_size) % 2 ^ 64 in
      let e = extend_dump_range s start end (entry_raw_flags ptde) in
      let t : PageDumpState =
        if entry_present ptde
        then record e { num_pages_4kib = (e.num_pages_4kib + 1) % 2 ^ 64 }
        else maybe_dump_range s in
      More-trans s t (dump_ptd_from memory left ptd g u m (i + 1) t)
        (if entry_present ptde then page_size else 0) (ptd_bytes left ptd (i + 1))
        (More-if (entry_present ptde) s
          (record e { num_pages_4kib = (e.num_pages_4kib + 1) % 2 ^ 64 }) (maybe_dump_range s)
          page_size 0 (one_4kib s start end (entry_raw_flags ptde)) (maybe_dump_range-More s))
        (dump_ptd_from-More left ptd g u m (i + 1) t)

  -- The cases of an entry of the two middle levels.
  More-entry :
      (entry : ℕ) (s none big table : PageDumpState) (n k : ℕ)
      → More s none 0
      → More s big n
      → More s table k
      → More s
          (if not (entry_present entry) then none else if entry_huge entry then big else table)
          (if not (entry_present entry) then 0 else if entry_huge entry then n else k)
  More-entry entry s none big table n k x y z =
      More-if (not (entry_present entry)) s none (if entry_huge entry then big else table) 0
        (if entry_huge entry then n else k) x (More-if (entry_huge entry) s big table n k y z)

  dump_pmd_from-More :
      (left pmd g u i : ℕ) (s : PageDumpState)
      → More s (dump_pmd_from memory left pmd g u i s) (pmd_bytes left pmd i)
  unfolding pmd_bytes dump_pmd_from dump_mapped_pages_ptd
  dump_pmd_from-More zero pmd g u i s = More-none s
  dump_pmd_from-More (suc left) pmd g u i s =
      let pmde = memory (entry_at pmd i) in
      let start = encode_virt g u i 0 0 in
      let end = (start + page_size_2mib) % 2 ^ 64 in
      let e = extend_dump_range s start end (entry_raw_flags pmde) in
      let big : PageDumpState = record e { num_pages_2mib = (e.num_pages_2mib + 1) % 2 ^ 64 } in
      let table = dump_mapped_pages_ptd memory (entry_address pmde) g u i s in
      let inner = ptd_bytes num_page_table_entries (entry_address pmde) 0 in
      let t : PageDumpState =
        if not (entry_present pmde)
        then maybe_dump_range s
        else if entry_huge pmde
        then big
        else table in
      More-trans s t (dump_pmd_from memory left pmd g u (i + 1) t)
        (if not (entry_present pmde) then 0 else if entry_huge pmde then page_size_2mib else inner)
        (pmd_bytes left pmd (i + 1))
        (More-entry pmde s (maybe_dump_range s) big table page_size_2mib inner
          (maybe_dump_range-More s) (one_2mib s start end (entry_raw_flags pmde))
          (dump_ptd_from-More num_page_table_entries (entry_address pmde) g u i 0 s))
        (dump_pmd_from-More left pmd g u (i + 1) t)

  dump_pud_from-More :
      (left pud g i : ℕ) (s : PageDumpState)
      → More s (dump_pud_from memory left pud g i s) (pud_bytes left pud i)
  unfolding pud_bytes dump_pud_from dump_mapped_pages_pmd
  dump_pud_from-More zero pud g i s = More-none s
  dump_pud_from-More (suc left) pud g i s =
      let pude = memory (entry_at pud i) in
      let start = encode_virt g i 0 0 0 in
      let end = (start + page_size_1gib) % 2 ^ 64 in
      let e = extend_dump_range s start end (entry_raw_flags pude) in
      let big : PageDumpState = record e { num_pages_1gib = (e.num_pages_1gib + 1) % 2 ^ 64 } in
      let table = dump_mapped_pages_pmd memory (entry_address pude) g i s in
      let inner = pmd_bytes num_page_table_entries (entry_address pude) 0 in
      let t : PageDumpState =
        if not (entry_present pude)
        then maybe_dump_range s
        else if entry_huge pude
        then big
        else table in
      More-trans s t (dump_pud_from memory left pud g (i + 1) t)
        (if not (entry_present pude) then 0 else if entry_huge pude then page_size_1gib else inner)
        (pud_bytes left pud (i + 1))
        (More-entry pude s (maybe_dump_range s) big table page_size_1gib inner
          (maybe_dump_range-More s) (one_1gib s start end (entry_raw_flags pude))
          (dump_pmd_from-More num_page_table_entries (entry_address pude) g i 0 s))
        (dump_pud_from-More left pud g (i + 1) t)

  dump_pgd_from-More :
      (left pgd i : ℕ) (s : PageDumpState)
      → More s (dump_pgd_from memory left pgd i s) (pgd_bytes left pgd i)
  unfolding pgd_bytes dump_pgd_from dump_mapped_pages_pud
  dump_pgd_from-More zero pgd i s = More-none s
  dump_pgd_from-More (suc left) pgd i s =
      let pgde = memory (entry_at pgd i) in
      let table = dump_mapped_pages_pud memory (entry_address pgde) i s in
      let inner = pud_bytes num_page_table_entries (entry_address pgde) 0 in
      let t : PageDumpState = if entry_present pgde then table else maybe_dump_range s in
      More-trans s t (dump_pgd_from memory left pgd (i + 1) t)
        (if entry_present pgde then inner else 0) (pgd_bytes left pgd (i + 1))
        (More-if (entry_present pgde) s table (maybe_dump_range s) inner 0
          (dump_pud_from-More num_page_table_entries (entry_address pgde) i 0 s)
          (maybe_dump_range-More s))
        (dump_pgd_from-More left pgd (i + 1) t)

  -- The total that the dump prints is the sum, over all tables that are reached from the PGD by
  -- entries that are present, of the sizes of the pages that these map, as a uint64_t.
  pub dump_mapped_pages_total :
      (pgd : ℕ) (mask : Bool)
      → (dump_mapped_pages memory pgd mask).1 ≡ pgd_bytes num_page_table_entries pgd 0 % 2 ^ 64
  unfolding dump_mapped_pages
  dump_mapped_pages_total pgd mask =
      let s : PageDumpState = record {
        in_range = false;
        mask_huge_flag = mask;
        start = 0;
        end = 0;
        raw_flags = 0;
        num_pages_4kib = 0;
        num_pages_2mib = 0;
        num_pages_1gib = 0;
        lines = [];
      } in
      let t = dump_pgd_from memory num_page_table_entries pgd 0 s in
      ap (λ (n : ℕ). n % 2 ^ 64) (maybe_dump_range-counted t)
      ∙ dump_pgd_from-More num_page_table_entries pgd 0 s
      ∙ none_before (pgd_bytes num_page_table_entries pgd 0)
