-- ===== src/EarlyMap/Tests.antt =====
-- The theorems on the physblocks of spans at concrete values.
use zeptux.Base.{ℕ, ◌+◌, ◌-◌, ◌/◌, ◌^◌, ◌≡◌, ◌↔◌, not, arith}
use zeptux.EarlyMap.{physblock_pages, section_flags}
use zeptux.EarlyMap.Physblocks.{IsPageOf, Covers, physblock_pages-Covers, physblock_pages-shared}
use zeptux.EarlyMap.Sections.{section_flags-MeansFlags}
use zeptux.Elf.{ElfSectionHeader}
use zeptux.Page.Flags.{MeansFlags}
use zeptux.Page.Entry.{map_kernel, map_flags_to_page_flags}
use zeptux.Word.{is_mask_set}

physblock_pages-Covers_example : Covers (0x100000 / 4096) 1000 (physblock_pages 0x100000 1000)
physblock_pages-Covers_example = physblock_pages-Covers 0x100000 1000 (omega arith) (omega arith)

-- A hole of one page between two spans.
physblock_pages-shared_example :
    ((va : ℕ) × IsPageOf (physblock_pages 0x1000 16) va × IsPageOf (physblock_pages 0x12000 30) va)
    ↔ ((0x1000 / 4096 + 16 - 1) / 128 ≡ 0x12000 / 4096 / 128)
physblock_pages-shared_example =
    physblock_pages-shared 0x1000 16 0x12000 30 (omega arith) (omega arith) (omega arith)
      (omega arith)

abbrev text : ElfSectionHeader
text = record { name = 0; type = 1; flags = 6; addr = 2 ^ 24; offset = 4096; size = 100 }

section_flags-MeansFlags_example :
    MeansFlags
      (is_mask_set 6 4)
      (not (is_mask_set 6 1))
      map_kernel
      (map_flags_to_page_flags (section_flags text))
section_flags-MeansFlags_example = section_flags-MeansFlags text
