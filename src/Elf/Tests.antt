-- ===== src/Elf/Tests.antt =====
-- A small image: one program of 5000 bytes, and one section, ".bss", of five bytes at address 8.
use zeptux.Base.{ℕ, ◌-◌, ◌≡◌, refl, arith, ◌==◌, if◌then◌else◌, some, true, List, [], ◌∷◌}
use zeptux.Word.{align_up, align, lnot}
use zeptux.Page.Address.{kernel_elf_address}
use zeptux.Elf.{
  Bytes, ElfHeader, ElfLoadState, read_number, header_at, prog_header, sect_header, programs_end,
  sections_end, elf_get_size_bytes, load_headers, load1, load_ata_pio, read_sectors_lba48,
  elf_zero_bss, zero_bss_from, is_bss, same_name,
}
use zeptux.Elf.Size.{Cleared, elf_zero_bss-Cleared}
use zeptux.Elf.Disk.{LoadedFrom, load_ata_pio-LoadedFrom}

-- A byte of the file at a place.
abbrev Place : Type 0
Place = ℕ × ℕ

-- The bytes of the file that are not 0: the magic number; the places of the headers, at 64 and 120;
-- one of each; the size of the program, 136 + 19 * 256; the type, address, place of the names and
-- size of the section; and its name, at 256.
abbrev places : List Place
places =
    (0, 0x7f)
    ∷ (1, 0x45)
    ∷ (2, 0x4c)
    ∷ (3, 0x46)
    ∷ (32, 64)
    ∷ (40, 120)
    ∷ (56, 1)
    ∷ (60, 1)
    ∷ (104, 136)
    ∷ (105, 19)
    ∷ (124, 8)
    ∷ (136, 8)
    ∷ (145, 1)
    ∷ (152, 5)
    ∷ (256, 46)
    ∷ (257, 98)
    ∷ (258, 115)
    ∷ (259, 115)
    ∷ []

abbrev byte_at : List Place → ℕ → ℕ
byte_at [] i = 0
byte_at ((place, byte) ∷ rest) i = if place == i then byte else byte_at rest i

-- The disk has the file behind the five sectors of the boot loader, the memory at its address; what
-- lies before it does not matter.
abbrev disk : Bytes
disk a = byte_at places (a - 2560)

abbrev image : Bytes
image a = byte_at places (a - kernel_elf_address)

abbrev empty : Bytes
empty a = 0

abbrev headers : ElfHeader
headers = record {
  magic = 0x464c457f;
  entry = 0;
  phoff = 64;
  shoff = 120;
  phnum = 1;
  shnum = 1;
  shstrndx = 0;
}

abbrev state : ElfLoadState
state = record { header = headers; bytes_loaded = 512; sectors_loaded = 1 }

unfoldable loaded : Bytes
unfolding load_headers read_sectors_lba48 align_up align lnot
loaded = (load_headers disk (read_sectors_lba48 disk empty kernel_elf_address 5 1) headers).1

load1_state : load1 disk empty ≡ some (state, loaded)
unfolding load1 loaded header_at read_number load_headers read_sectors_lba48 align_up align lnot
load1_state = refl

size_of_image : elf_get_size_bytes loaded headers ≡ 5000
unfolding elf_get_size_bytes programs_end sections_end prog_header sect_header read_number loaded
size_of_image = refl

load_ata_pio-LoadedFrom_example :
    (after : Bytes) × (load_ata_pio disk empty ≡ some (headers, 512, after))
    × LoadedFrom disk empty after 512 (elf_get_size_bytes loaded headers)
load_ata_pio-LoadedFrom_example =
    load_ata_pio-LoadedFrom disk empty loaded state load1_state (omega arith) (omega arith)
      (omega (arith, size_of_image))

elf_zero_bss-Cleared_example : Cleared image headers 0 1 (elf_zero_bss image headers)
elf_zero_bss-Cleared_example = elf_zero_bss-Cleared image headers

bss_found : (elf_zero_bss image headers).0 ≡ true
unfolding elf_zero_bss zero_bss_from is_bss same_name sect_header read_number
bss_found = refl
