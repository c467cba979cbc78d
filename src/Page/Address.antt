-- ===== src/Page/Address.antt =====
-- include/page.h and include/mm_defs.h: physical and virtual addresses, page frame numbers and
-- the indexes into the page tables. The wrapped types (`physaddr_t` and others) are numbers.
use zeptux.Base.{ℕ, ◌+◌, ◌-◌, ◌%◌, ◌^◌, ltb, if◌then◌else◌, bit_and, bit_or}
use zeptux.Word.{shl, shr, bit_mask_below, bit_mask_above, is_bit_set, align_up}

abbrev pub page_shift : ℕ
page_shift = 12

abbrev pub pmd_shift : ℕ
pmd_shift = 21

abbrev pub pud_shift : ℕ
pud_shift = 30

abbrev pub pgd_shift : ℕ
pgd_shift = 39

abbrev pub page_size : ℕ
page_size = 2 ^ 12

abbrev pub page_size_2mib : ℕ
page_size_2mib = 2 ^ 21

abbrev pub page_size_1gib : ℕ
page_size_1gib = 2 ^ 30

abbrev pub pgd_size : ℕ
pgd_size = 2 ^ 39

abbrev pub phys_addr_bits : ℕ
phys_addr_bits = 48

-- `BIT_MASK_BELOW(9)`
abbrev pub page_dir_index_mask : ℕ
page_dir_index_mask = 511

abbrev pub num_page_table_entries : ℕ
num_page_table_entries = 512

-- 0xffff800000000000
abbrev pub kernel_direct_map_base : ℕ
kernel_direct_map_base = 2 ^ 64 - 2 ^ 47

abbrev pub kernel_elf_address_phys : ℕ
kernel_elf_address_phys = 2 ^ 24

-- 0xffffc00000000000 + 0x1000000
abbrev pub kernel_elf_address : ℕ
kernel_elf_address = 2 ^ 64 - 2 ^ 46 + 2 ^ 24

unfoldable pub bytes_to_pages : ℕ → ℕ
bytes_to_pages bytes = shr (align_up bytes page_size) page_shift

unfoldable pub phys_to_virt : ℕ → ℕ
phys_to_virt pa = (kernel_direct_map_base + pa) % 2 ^ 64

unfoldable pub virt_to_phys : ℕ → ℕ
virt_to_phys va =
    let offset = if ltb kernel_elf_address va then kernel_elf_address else kernel_direct_map_base in
    (va + 2 ^ 64 - offset) % 2 ^ 64

unfoldable pub phys_to_pfn : ℕ → ℕ
phys_to_pfn pa = shr pa page_shift

unfoldable pub pfn_to_phys : ℕ → ℕ
unfolding shl
pfn_to_phys pfn = shl pfn page_shift

unfoldable pub phys_next_page : ℕ → ℕ
unfolding phys_to_pfn pfn_to_phys
phys_next_page pa = pfn_to_phys ((phys_to_pfn pa + 1) % 2 ^ 64)

unfoldable pub phys_prev_page : ℕ → ℕ
unfolding phys_to_pfn pfn_to_phys
phys_prev_page pa = pfn_to_phys ((phys_to_pfn pa + 2 ^ 64 - 1) % 2 ^ 64)

unfoldable pub virt_next_page : ℕ → ℕ
unfolding shl
virt_next_page va = shl ((shr va page_shift + 1) % 2 ^ 64) page_shift

unfoldable pub virt_data_offset : ℕ → ℕ
virt_data_offset va = bit_and va (bit_mask_below page_shift)

unfoldable pub virt_ptde_index : ℕ → ℕ
virt_ptde_index va = bit_and (shr va page_shift) page_dir_index_mask

unfoldable pub virt_pmde_index : ℕ → ℕ
virt_pmde_index va = bit_and (shr va pmd_shift) page_dir_index_mask

unfoldable pub virt_pude_index : ℕ → ℕ
virt_pude_index va = bit_and (shr va pud_shift) page_dir_index_mask

unfoldable pub virt_pgde_index : ℕ → ℕ
virt_pgde_index va = bit_and (shr va pgd_shift) page_dir_index_mask

unfoldable pub encode_virt : ℕ → ℕ → ℕ → ℕ → ℕ → ℕ
encode_virt pgde_ind pude_ind pmde_ind ptde_ind offset =
    let va =
      bit_or
        (bit_or
          (bit_or (bit_or (shl pgde_ind pgd_shift) (shl pude_ind pud_shift))
            (shl pmde_ind pmd_shift))
          (shl ptde_ind page_shift))
        offset in
    if is_bit_set va (phys_addr_bits - 1) then bit_or va (bit_mask_above phys_addr_bits) else va

unfoldable pub virt_next_pgde : ℕ → ℕ
unfolding shl
virt_next_pgde va = shl ((shr va pgd_shift + 1) % 2 ^ 64) pgd_shift

unfoldable pub virt_next_pude : ℕ → ℕ
unfolding shl
virt_next_pude va = shl ((shr va pud_shift + 1) % 2 ^ 64) pud_shift

unfoldable pub virt_next_pmde : ℕ → ℕ
unfolding shl
virt_next_pmde va = shl ((shr va pmd_shift + 1) % 2 ^ 64) pmd_shift

-- `next - addr`, in pages, where `addr` loses its offset in the page first.
abbrev pub remaining_to : (ℕ → ℕ) → ℕ → ℕ
remaining_to next va =
    let start = bit_and va (bit_mask_above page_shift) in
    bytes_to_pages ((next start + 2 ^ 64 - start) % 2 ^ 64)

unfoldable pub virt_pgde_remaining_pages : ℕ → ℕ
virt_pgde_remaining_pages va = remaining_to virt_next_pgde va

unfoldable pub virt_pude_remaining_pages : ℕ → ℕ
virt_pude_remaining_pages va = remaining_to virt_next_pude va

unfoldable pub virt_pmde_remaining_pages : ℕ → ℕ
virt_pmde_remaining_pages va = remaining_to virt_next_pmde va

-- `virt_offset_pages` and `phys_offset_pages`, which one macro generates.
unfoldable pub offset_pages : ℕ → ℕ → ℕ
unfolding shl
offset_pages addr pages = shl ((shr addr page_shift + pages) % 2 ^ 64) page_shift
