-- ===== src/EarlyMap/Sections.antt =====
-- What the pages of a section of the kernel's image allow.
use zeptux.Base.{Bool, true, false, not, inl, refl, if◌then◌else◌, bit_or}
use zeptux.Word.{is_mask_set}
use zeptux.Elf.{ElfSectionHeader}
use zeptux.Page.Entry.{map_kernel, map_code, map_readonly, map_flags_to_page_flags}
use zeptux.Page.Flags.{MeansFlags, map_flags_to_page_flags-MeansFlags}
use zeptux.EarlyMap.{section_flags, elf_shf_write, elf_shf_execinstr}

-- The page flags of a section: present and global, for the supervisor and not the user, writable
-- just when it has SHF_WRITE (bit 0) and executable just when it has SHF_EXECINSTR (bit 2), whatever other flags it
-- has; cached, not huge, neither accessed nor dirty, and without a bit of the address.
pub section_flags-MeansFlags :
    (sect : ElfSectionHeader)
    → MeansFlags
        (is_mask_set sect.flags 4)
        (not (is_mask_set sect.flags 1))
        map_kernel
        (map_flags_to_page_flags (section_flags sect))
unfolding section_flags is_mask_set
section_flags-MeansFlags sect =
    by_flags (is_mask_set sect.flags elf_shf_execinstr) (is_mask_set sect.flags elf_shf_write)
  where
    by_flags :
        (code write : Bool)
        → MeansFlags code (not write) map_kernel (
            map_flags_to_page_flags (
              let flags = if not write then bit_or map_kernel map_readonly else map_kernel in
              if code then bit_or flags map_code else flags))
    by_flags true true = map_flags_to_page_flags-MeansFlags 1025 (inl refl)
    by_flags true false = map_flags_to_page_flags-MeansFlags 3073 (inl refl)
    by_flags false true = map_flags_to_page_flags-MeansFlags 1 (inl refl)
    by_flags false false = map_flags_to_page_flags-MeansFlags 2049 (inl refl)
