-- ===== src/Page/Walk.antt =====
-- mm/page.c: walking the page tables. `none` is a panic.
use zeptux.Base.{ℕ, Option, none, some, not, if◌then◌else◌}
use zeptux.Page.Address.{virt_pgde_index, virt_pude_index, virt_pmde_index, virt_ptde_index}
use zeptux.Page.Entry.{
  Memory, entry_at, entry_present, entry_huge, entry_address, entry_raw_flags, pude_data_1gib,
  pmde_data_2mib,
}

-- `page_level_t`
pub data PageLevel : Type 0 where
  pgd pud pmd ptd : PageLevel

-- The entry that points at the data page, and its level.
unfoldable pub walk_to_data : Memory → ℕ → ℕ → Option (ℕ × PageLevel)
walk_to_data memory root va =
    let pgde = memory (entry_at root (virt_pgde_index va)) in
    let pude = memory (entry_at (entry_address pgde) (virt_pude_index va)) in
    let pmde = memory (entry_at (entry_address pude) (virt_pmde_index va)) in
    let ptde = memory (entry_at (entry_address pmde) (virt_ptde_index va)) in
    if not (entry_present pgde)
    then none
    else if not (entry_present pude)
    then none
    else if entry_huge pude
    then some (pude, pud)
    else if not (entry_present pmde)
    then none
    else if entry_huge pmde
    then some (pmde, pmd)
    else if not (entry_present ptde)
    then none
    else some (ptde, ptd)

-- The switch on the level; PGD is the "Bug in walk_to_data()" panic.
unfoldable pub raw_flags_at : Option (ℕ × PageLevel) → Option ℕ
raw_flags_at none = none
raw_flags_at (some (raw, pgd)) = none
raw_flags_at (some (raw, pud)) = some (entry_raw_flags raw)
raw_flags_at (some (raw, pmd)) = some (entry_raw_flags raw)
raw_flags_at (some (raw, ptd)) = some (entry_raw_flags raw)

unfoldable pub walk_virt_to_raw_flags : Memory → ℕ → ℕ → Option ℕ
walk_virt_to_raw_flags memory root va = raw_flags_at (walk_to_data memory root va)

unfoldable pub phys_at : Option (ℕ × PageLevel) → Option ℕ
phys_at none = none
phys_at (some (raw, pgd)) = none
phys_at (some (raw, pud)) = some (pude_data_1gib raw)
phys_at (some (raw, pmd)) = some (pmde_data_2mib raw)
phys_at (some (raw, ptd)) = some (entry_address raw)

unfoldable pub walk_virt_to_phys : Memory → ℕ → ℕ → Option ℕ
walk_virt_to_phys memory root va = phys_at (walk_to_data memory root va)
