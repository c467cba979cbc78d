-- ===== src/Page/Map.antt =====
-- mm/page.c: mapping a range of pages. The functions of `struct page_allocators` are parameters,
-- on a state of their own and the memory; a panic ends the run.
use zeptux.Base.{
  ℕ, zero, suc, ◌+◌, ◌-◌, ◌*◌, Bool, true, false, ◌&&◌, not, ◌==◌, leb, if◌then◌else◌, Option, none,
  some,
}
use zeptux.Word.{is_aligned, is_mask_set}
use zeptux.Page.Address.{
  virt_pgde_index, virt_pude_index, virt_pmde_index, virt_ptde_index, offset_pages, page_size_2mib,
  page_size_1gib, pgd_size, num_page_table_entries,
}
use zeptux.Page.Entry.{
  Memory, entry_at, entry_present, entry_huge, entry_address, assign_table, assign_data,
  assign_data_2mib, assign_data_1gib, map_skip_if_mapped,
}

-- `struct page_map_state`, with the memory and the state of the allocators. The pages that remain
-- are an int64_t there, which never falls below 0 from 0 on; from a negative count no loop runs,
-- as from 0.
pub record Mapping (S : Type 0) : Type 0 where
  pub va : ℕ
  pub pa : ℕ
  pub num_remaining_pages : ℕ
  pub num_pagetables_allocated : ℕ
  pub memory : Memory
  pub pool : S

-- A call of an allocator: the page's address, the memory and the state after it, or a panic.
pub record PageAllocators (S : Type 0) : Type 0 where
  pub pud : Memory → S → Option (ℕ × Memory × S)
  pub pmd : Memory → S → Option (ℕ × Memory × S)
  pub ptd : Memory → S → Option (ℕ × Memory × S)

pub data Outcome (A : Type 0) : Type 0 where
  done : A → Outcome A
  panicked : Outcome A
  out_of_fuel : Outcome A

abbrev pub then_run : {A B : Type 0} → Outcome A → (A → Outcome B) → Outcome B
then_run (done a) f = f a
then_run panicked f = panicked
then_run out_of_fuel f = out_of_fuel

-- `pa`, `va` and the count, moved on by `n` pages.
unfoldable pub advance : {S : Type 0} → ℕ → Mapping S → Mapping S
advance n s = record s {
  pa = offset_pages s.pa n;
  va = offset_pages s.va n;
  num_remaining_pages = s.num_remaining_pages - n;
}

-- An allocated table, counted and assigned to entry `index` of `table`.
unfoldable pub new_table :
    {S : Type 0} → Option (ℕ × Memory × S) → ℕ → ℕ → Mapping S → Outcome (ℕ × Mapping S)
new_table none table index s = panicked
new_table (some (child, memory, pool)) table index s = done (
  child,
  record s {
    num_pagetables_allocated = s.num_pagetables_allocated + 1;
    memory = assign_table memory table index child;
    pool = pool;
  },
)

abbrev pub last_index : ℕ → Bool
last_index index = index == num_page_table_entries - 1

-- Each round moves to the next entry, and the loop ends behind the last: 512 rounds are enough.
unfoldable pub map_page_range_ptd : {S : Type 0} → ℕ → ℕ → ℕ → Mapping S → Outcome (Mapping S)
map_page_range_ptd zero flags ptd s = out_of_fuel
map_page_range_ptd (suc fuel) flags ptd s =
    let index = virt_ptde_index s.va in
    let present = entry_present (s.memory (entry_at ptd index)) in
    let assigned =
      if present then s else record s { memory = assign_data s.memory ptd index s.pa flags } in
    let t = advance 1 assigned in
    elim (s.num_remaining_pages == 0) [
      | true ↦ done s
      | false ↦ elim (present && not (is_mask_set flags map_skip_if_mapped)) [
        | true ↦ panicked
        | false ↦ elim (last_index index) [
          | true ↦ done t
          | false ↦ map_page_range_ptd fuel flags ptd t
        ]
      ]
    ]

module _ {S : Type 0} (alloc : PageAllocators S) (flags : ℕ) where
  -- What follows the table's loop, at the PMD and the PUD level: `go` is the loop's next round.
  abbrev pub after_table :
      ℕ → ℕ → (Mapping S → Outcome (Mapping S)) → Mapping S → Outcome (Mapping S)
  after_table size index go t =
      if t.num_remaining_pages == 0
      then done t
      else if not (is_aligned t.va size)
      then panicked
      else if last_index index
      then done t
      else go t

  unfoldable pub map_page_range_pmd : ℕ → ℕ → Mapping S → Outcome (Mapping S)
  map_page_range_pmd zero pmd s = out_of_fuel
  map_page_range_pmd (suc fuel) pmd s =
      let index = virt_pmde_index s.va in
      let pmde = s.memory (entry_at pmd index) in
      let present = entry_present pmde in
      let huge =
        advance num_page_table_entries
          (record s { memory = assign_data_2mib s.memory pmd index s.pa flags }) in
      let fits =
        ((not present && is_aligned s.va page_size_2mib) && is_aligned s.pa page_size_2mib)
        && leb 512 s.num_remaining_pages in
      let table : Outcome (ℕ × Mapping S) = elim present [
        | true ↦ done (entry_address pmde, s)
        | false ↦ new_table (alloc.ptd s.memory s.pool) pmd index s
      ] in
      elim (s.num_remaining_pages == 0) [
        | true ↦ done s
        | false ↦ elim fits [
          | true ↦ elim (last_index index) [
            | true ↦ done huge
            | false ↦ map_page_range_pmd fuel pmd huge
          ]
          | false ↦ elim (present && entry_huge pmde) [
            | true ↦ panicked
            | false ↦ then_run table λ (ptd, t).
                then_run (map_page_range_ptd 512 flags ptd t)
                  (after_table page_size_2mib index (map_page_range_pmd fuel pmd))
          ]
        ]
      ]

  unfoldable pub map_page_range_pud : ℕ → ℕ → Mapping S → Outcome (Mapping S)
  map_page_range_pud zero pud s = out_of_fuel
  map_page_range_pud (suc fuel) pud s =
      let index = virt_pude_index s.va in
      let pude = s.memory (entry_at pud index) in
      let present = entry_present pude in
      let huge =
        advance (512 * 512)
          (record s { memory = assign_data_1gib s.memory pud index s.pa flags }) in
      let fits =
        ((not present && is_aligned s.va page_size_1gib) && is_aligned s.pa page_size_1gib)
        && leb (512 * 512) s.num_remaining_pages in
      let table : Outcome (ℕ × Mapping S) = elim present [
        | true ↦ done (entry_address pude, s)
        | false ↦ new_table (alloc.pmd s.memory s.pool) pud index s
      ] in
      elim (s.num_remaining_pages == 0) [
        | true ↦ done s
        | false ↦ elim fits [
          | true ↦ elim (last_index index) [
            | true ↦ done huge
            | false ↦ map_page_range_pud fuel pud huge
          ]
          | false ↦ elim (present && entry_huge pude) [
            | true ↦ panicked
            | false ↦ then_run table λ (pmd, t).
                then_run (map_page_range_pmd 512 pmd t)
                  (after_table page_size_1gib index (map_page_range_pud fuel pud))
          ]
        ]
      ]

  -- The loop at the top has no last entry; a round that maps no page would repeat for ever.
  unfoldable pub map_page_range_pgd : ℕ → ℕ → Mapping S → Outcome (Mapping S)
  map_page_range_pgd zero pgd s = out_of_fuel
  map_page_range_pgd (suc fuel) pgd s =
      let index = virt_pgde_index s.va in
      let pgde = s.memory (entry_at pgd index) in
      let table : Outcome (ℕ × Mapping S) = elim (entry_present pgde) [
        | true ↦ done (entry_address pgde, s)
        | false ↦ new_table (alloc.pud s.memory s.pool) pgd index s
      ] in
      let continue : Mapping S → Outcome (Mapping S) = λ t.
        if t.num_remaining_pages == 0
        then done t
        else if not (is_aligned t.va pgd_size)
        then panicked
        else map_page_range_pgd fuel pgd t in
      elim (s.num_remaining_pages == 0) [
        | true ↦ done s
        | false ↦ then_run table λ (pud, t). then_run (map_page_range_pud 512 pud t) continue
      ]

  -- `_map_page_range`: the memory, the pool and the count of the tables are in the result.
  unfoldable pub map_page_range : ℕ → ℕ → ℕ → ℕ → ℕ → Memory → S → Outcome (Mapping S)
  map_page_range fuel pgd start_va start_pa num_pages memory pool =
      map_page_range_pgd fuel pgd (record {
        va = start_va;
        pa = start_pa;
        num_remaining_pages = num_pages;
        num_pagetables_allocated = 0;
        memory = memory;
        pool = pool;
      })
