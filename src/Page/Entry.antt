-- ===== src/Page/Entry.antt =====
-- include/page.h: the flags and the entries of the page tables. Memory is a function from the
-- virtual address of a 64-bit word to the word.
use zeptux.Base.{ℕ, ◌+◌, ◌-◌, ◌*◌, ◌%◌, ◌^◌, Bool, ◌==◌, if◌then◌else◌, bit_and, bit_or, bit_xor}
use zeptux.Word.{lnot, bit_mask_below, bit_mask_above, is_bit_set, is_mask_set}
use zeptux.Page.Address.{page_shift, pmd_shift, pud_shift, phys_addr_bits, phys_to_virt}

abbrev pub Memory : Type 0
Memory = ℕ → ℕ

-- `*(uint64_t *)address = value;`
unfoldable pub store : Memory → ℕ → ℕ → Memory
store memory address value a = if address == a then value else memory a

-- Bits 0, 1, 3, 4, 7, 8 and 63.
abbrev pub page_flag_present_bit : ℕ
page_flag_present_bit = 0

abbrev pub page_flag_pse_bit : ℕ
page_flag_pse_bit = 7

abbrev pub page_flag_rw : ℕ
page_flag_rw = 2 ^ 1

abbrev pub page_flag_write_through : ℕ
page_flag_write_through = 2 ^ 3

abbrev pub page_flag_uncached : ℕ
page_flag_uncached = 2 ^ 4

abbrev pub page_flag_pse : ℕ
page_flag_pse = 2 ^ 7

abbrev pub page_flag_nx : ℕ
page_flag_nx = 2 ^ 63

-- `PAGE_FLAG_PRESENT | PAGE_FLAG_RW`
abbrev pub page_flag_default : ℕ
page_flag_default = 3

-- `PAGE_FLAG_DEFAULT | PAGE_FLAG_GLOBAL`
abbrev pub page_flag_kernel : ℕ
page_flag_kernel = 259

unfoldable pub page_table_phys_addr_mask : ℕ
page_table_phys_addr_mask = bit_and (bit_mask_below phys_addr_bits) (bit_mask_above page_shift)

unfoldable pub page_table_phys_addr_mask_2mib : ℕ
page_table_phys_addr_mask_2mib = bit_and (bit_mask_below phys_addr_bits) (bit_mask_above pmd_shift)

unfoldable pub page_table_phys_addr_mask_1gib : ℕ
page_table_phys_addr_mask_1gib = bit_and (bit_mask_below phys_addr_bits) (bit_mask_above pud_shift)

unfoldable pub page_table_flag_mask : ℕ
page_table_flag_mask = bit_or (bit_mask_below page_shift) page_flag_nx

-- `map_flags_t`: the mode in the lower ten bits, and three modifiers.
abbrev pub map_kernel : ℕ
map_kernel = 1

abbrev pub map_kernel_noglobal : ℕ
map_kernel_noglobal = 2

abbrev pub map_device : ℕ
map_device = 3

abbrev pub map_flag_mode_mask : ℕ
map_flag_mode_mask = 2 ^ 10 - 1

abbrev pub map_code : ℕ
map_code = 2 ^ 10

abbrev pub map_readonly : ℕ
map_readonly = 2 ^ 11

abbrev pub map_skip_if_mapped : ℕ
map_skip_if_mapped = 2 ^ 12

-- What follows the switch.
abbrev pub with_modifiers : ℕ → ℕ → ℕ
with_modifiers map_flags flags =
    let flags = if is_mask_set map_flags map_code then flags else bit_or flags page_flag_nx in
    if is_mask_set map_flags map_readonly then bit_xor flags page_flag_rw else flags

unfoldable pub map_flags_to_page_flags : ℕ → ℕ
map_flags_to_page_flags map_flags =
    let mode = bit_and map_flags map_flag_mode_mask in
    if mode == map_kernel
    then with_modifiers map_flags page_flag_kernel
    else if mode == map_kernel_noglobal
    then with_modifiers map_flags page_flag_default
    else if mode == map_device
    then with_modifiers map_flags
        (bit_or (bit_or page_flag_default page_flag_uncached) page_flag_write_through)
    else 0

-- `pgde_present`, `pude_present`, `pmde_present` and `ptde_present`
unfoldable pub entry_present : ℕ → Bool
entry_present entry = is_bit_set entry page_flag_present_bit

-- `pude_1gib` and `pmde_2mib`
unfoldable pub entry_huge : ℕ → Bool
entry_huge entry = is_bit_set entry page_flag_pse_bit

-- `pgde_pud`, `pude_pmd`, `pmde_ptd` and `ptde_data`
unfoldable pub entry_address : ℕ → ℕ
entry_address entry = bit_and entry page_table_phys_addr_mask

unfoldable pub pude_data_1gib : ℕ → ℕ
pude_data_1gib pude = bit_and pude page_table_phys_addr_mask_1gib

unfoldable pub pmde_data_2mib : ℕ → ℕ
pmde_data_2mib pmde = bit_and pmde page_table_phys_addr_mask_2mib

-- `pude_raw_flags_1gib`, `pmde_raw_flags_2mib` and `ptde_raw_flags`
unfoldable pub entry_raw_flags : ℕ → ℕ
entry_raw_flags entry = bit_and entry page_table_flag_mask

-- `pgde_at`, `pude_at`, `pmde_at` and `ptde_at`: the virtual address of an entry.
unfoldable pub entry_at : ℕ → ℕ → ℕ
entry_at table index = (phys_to_virt table + index * 8) % 2 ^ 64

-- `addr & ~PAGE_MASK`
abbrev pub without_offset : ℕ → ℕ → ℕ
without_offset shift addr = bit_and addr (lnot (bit_mask_below shift))

-- `assign_pud`, `assign_pmd` and `assign_ptd`
unfoldable pub assign_table : Memory → ℕ → ℕ → ℕ → Memory
assign_table memory table index child =
    store memory (entry_at table index) (bit_or (without_offset page_shift child) page_flag_default)

unfoldable pub assign_data_1gib : Memory → ℕ → ℕ → ℕ → ℕ → Memory
assign_data_1gib memory pud index pa flags =
    store memory (entry_at pud index)
      (bit_or (bit_or (without_offset pud_shift pa) page_flag_pse) (map_flags_to_page_flags flags))

unfoldable pub assign_data_2mib : Memory → ℕ → ℕ → ℕ → ℕ → Memory
assign_data_2mib memory pmd index pa flags =
    store memory (entry_at pmd index)
      (bit_or (bit_or (without_offset pmd_shift pa) page_flag_pse) (map_flags_to_page_flags flags))

unfoldable pub assign_data : Memory → ℕ → ℕ → ℕ → ℕ → Memory
assign_data memory ptd index pa flags =
    store memory (entry_at ptd index)
      (bit_or (without_offset page_shift pa) (map_flags_to_page_flags flags))
