-- ===== src/Elf.antt =====
-- include/elf.h and arch/x86_64/boot/loader.c: the headers of an ELF image in the memory, and the
-- loading of the kernel from the disk. The memory gives the byte at each virtual address, the
-- disk the byte at each place. The port accesses of `read_sectors_lba48` are the reading itself.
pub mod Size
pub mod Disk
pub mod Tests
use zeptux.Base.{
  ℕ, zero, suc, ◌+◌, ◌-◌, ◌*◌, ◌/◌, ◌%◌, ◌^◌, Bool, true, false, not, ◌&&◌, ◌||◌, List, [], ◌∷◌,
  Option, some, none, ◌==◌, ltb, leb, if◌then◌else◌,
}
use zeptux.Word.{align_up}
use zeptux.Page.Address.{kernel_elf_address}

abbrev pub Bytes : Type 0
Bytes = ℕ → ℕ

-- A little-endian number of `n` bytes.
unfoldable pub read_number : ℕ → Bytes → ℕ → ℕ
read_number zero mem a = 0
read_number (suc n) mem a = mem a + 2 ^ 8 * read_number n mem (a + 1)

abbrev pub elf_magic_number : ℕ
elf_magic_number = 0x464c457f

abbrev pub elf_sht_progbits : ℕ
elf_sht_progbits = 1

abbrev pub elf_sht_nobits : ℕ
elf_sht_nobits = 8

-- The fields that the loader reads, of 64, 56 and 64 bytes.
pub record ElfHeader : Type 0 where
  pub magic : ℕ
  pub entry : ℕ
  pub phoff : ℕ
  pub shoff : ℕ
  pub phnum : ℕ
  pub shnum : ℕ
  pub shstrndx : ℕ

pub record ElfProgramHeader : Type 0 where
  pub offset : ℕ
  pub vaddr : ℕ
  pub filesz : ℕ
  pub memsz : ℕ

pub record ElfSectionHeader : Type 0 where
  pub name : ℕ
  pub type : ℕ
  pub flags : ℕ
  pub addr : ℕ
  pub offset : ℕ
  pub size : ℕ

unfoldable pub header_at : Bytes → ℕ → ElfHeader
unfolding read_number
header_at mem a = record {
  magic = read_number 4 mem a;
  entry = read_number 8 mem (a + 24);
  phoff = read_number 8 mem (a + 32);
  shoff = read_number 8 mem (a + 40);
  phnum = read_number 2 mem (a + 56);
  shnum = read_number 2 mem (a + 60);
  shstrndx = read_number 2 mem (a + 62);
}

unfoldable pub prog_header : Bytes → ElfHeader → ℕ → ElfProgramHeader
unfolding read_number
prog_header mem header i =
    let a = kernel_elf_address + header.phoff + 56 * i in
    record {
      offset = read_number 8 mem (a + 8);
      vaddr = read_number 8 mem (a + 16);
      filesz = read_number 8 mem (a + 32);
      memsz = read_number 8 mem (a + 40);
    }

unfoldable pub sect_header : Bytes → ElfHeader → ℕ → ElfSectionHeader
unfolding read_number
sect_header mem header i =
    let a = kernel_elf_address + header.shoff + 64 * i in
    record {
      name = read_number 4 mem a;
      type = read_number 4 mem (a + 4);
      flags = read_number 8 mem (a + 8);
      addr = read_number 8 mem (a + 16);
      offset = read_number 8 mem (a + 24);
      size = read_number 8 mem (a + 32);
    }

-- `strcmp(name, bss_name) == 0`, for the characters of a constant without its NUL.
unfoldable pub same_name : Bytes → ℕ → List ℕ → Bool
same_name mem a [] = mem a == 0
same_name mem a (c ∷ cs) = (mem a == c) && same_name mem (a + 1) cs

-- ".bss"
abbrev pub bss_name : List ℕ
bss_name = 46 ∷ 98 ∷ 115 ∷ 115 ∷ []

unfoldable pub memset : Bytes → ℕ → ℕ → ℕ → Bytes
memset mem dest chr count a = if leb dest a && ltb a (dest + count) then chr else mem a

-- Whether section `i` has the name ".bss", by the section that `shstrndx` names.
unfoldable pub is_bss : Bytes → ElfHeader → ℕ → Bool
is_bss mem header i =
    let shstr = kernel_elf_address + (sect_header mem header header.shstrndx).offset in
    same_name mem (shstr + (sect_header mem header i).name) bss_name

-- The loop over the section headers, with the rounds left and the next header's index.
unfoldable pub zero_bss_from : ℕ → Bytes → ElfHeader → ℕ → Bool × Bytes
zero_bss_from zero mem header i = (false, mem)
zero_bss_from (suc left) mem header i =
    let s = sect_header mem header i in
    let rest = zero_bss_from left mem header (i + 1) in
    if is_bss mem header i then (true, memset mem s.addr 0 s.size) else rest

unfoldable pub elf_zero_bss : Bytes → ElfHeader → Bool × Bytes
elf_zero_bss mem header = zero_bss_from header.shnum mem header 0

-- An address of 0 is not checked.
unfoldable pub at_offset : ℕ → ℕ → Bool
at_offset addr offset = (addr == 0) || (offset == (addr + 2 ^ 64 - kernel_elf_address) % 2 ^ 64)

unfoldable pub check_programs : ℕ → Bytes → ElfHeader → ℕ → Bool
check_programs zero mem header i = true
check_programs (suc left) mem header i =
    let p = prog_header mem header i in
    ((p.filesz == 0) || at_offset p.vaddr p.offset) && check_programs left mem header (i + 1)

unfoldable pub check_sections : ℕ → Bytes → ElfHeader → ℕ → Bool
check_sections zero mem header i = true
check_sections (suc left) mem header i =
    let s = sect_header mem header i in
    (not (s.type == elf_sht_progbits) || at_offset s.addr s.offset)
    && check_sections left mem header (i + 1)

unfoldable pub elf_check_addrs : Bytes → ElfHeader → Bool
elf_check_addrs mem header =
    check_programs header.phnum mem header 0 && check_sections header.shnum mem header 0

-- The larger one of the sum, a uint64_t, and what there is.
abbrev pub extend : ℕ → ℕ → ℕ → ℕ
extend ret offset size =
    if ltb ret ((offset + size) % 2 ^ 64) then (offset + size) % 2 ^ 64 else ret

unfoldable pub programs_end : ℕ → Bytes → ElfHeader → ℕ → ℕ → ℕ
programs_end zero mem header i ret = ret
programs_end (suc left) mem header i ret =
    let p = prog_header mem header i in
    programs_end left mem header (i + 1) (extend ret p.offset p.memsz)

unfoldable pub sections_end : ℕ → Bytes → ElfHeader → ℕ → ℕ → ℕ
sections_end zero mem header i ret = ret
sections_end (suc left) mem header i ret =
    let s = sect_header mem header i in
    sections_end left mem header (i + 1)
      (if s.type == elf_sht_nobits then ret else extend ret s.offset s.size)

unfoldable pub elf_get_size_bytes : Bytes → ElfHeader → ℕ
elf_get_size_bytes mem header =
    sections_end header.shnum mem header 0 (programs_end header.phnum mem header 0 0)

abbrev pub sector_size_bytes : ℕ
sector_size_bytes = 512

-- One sector of stage 1 and four of stage 2.
abbrev pub boot_sectors : ℕ
boot_sectors = 5

-- `count` sectors of the disk, from number `offset` on, go to `ptr`.
unfoldable pub read_sectors_lba48 : Bytes → Bytes → ℕ → ℕ → ℕ → Bytes
read_sectors_lba48 disk mem ptr offset count a =
    if leb ptr a && ltb a (ptr + sector_size_bytes * count)
    then disk (sector_size_bytes * offset + (a - ptr))
    else mem a

pub record ElfLoadState : Type 0 where
  pub header : ElfHeader
  pub bytes_loaded : ℕ
  pub sectors_loaded : ℕ

-- The end of the section headers is a uint32_t, the numbers of sectors are uint16_t.
unfoldable pub load_headers : Bytes → Bytes → ElfHeader → ElfLoadState × Bytes
load_headers disk mem header =
    let end = (header.shoff + header.shnum * 64) % 2 ^ 32 in
    let bytes = align_up end sector_size_bytes % 2 ^ 32 in
    let sectors = bytes / sector_size_bytes % 2 ^ 16 in
    (
      record { header = header; bytes_loaded = bytes; sectors_loaded = sectors },
      read_sectors_lba48 disk mem (kernel_elf_address + sector_size_bytes) (boot_sectors + 1)
          ((sectors + 2 ^ 16 - 1) % 2 ^ 16),
    )

-- `none` is the state whose header is NULL.
unfoldable pub load1 : Bytes → Bytes → Option (ElfLoadState × Bytes)
load1 disk mem =
    let m1 = read_sectors_lba48 disk mem kernel_elf_address boot_sectors 1 in
    let header = header_at m1 kernel_elf_address in
    if not (header.magic == elf_magic_number) || ltb header.shoff header.phoff
    then none
    else some (load_headers disk m1 header)

unfoldable pub load2 : Bytes → Bytes → ElfLoadState → Bytes
load2 disk mem state =
    let bytes = elf_get_size_bytes mem state.header in
    let sectors = align_up bytes sector_size_bytes / sector_size_bytes % 2 ^ 16 in
    let delta = (sectors + 2 ^ 64 - state.sectors_loaded) % 2 ^ 16 in
    let old = state.sectors_loaded * sector_size_bytes in
    if ltb state.bytes_loaded bytes
    then read_sectors_lba48 disk mem (kernel_elf_address + old) state.sectors_loaded delta
    else mem

-- The header, the memory, and what goes to `kernel_elf_size_bytes` of the boot information.
unfoldable pub load_ata_pio : Bytes → Bytes → Option (ElfHeader × ℕ × Bytes)
load_ata_pio disk mem = elim (load1 disk mem) [
  | none ↦ none
  | some (state, m1) ↦ some (state.header, state.bytes_loaded, load2 disk m1 state)
]

-- The other boot loader has the image at a fixed place; `memcpy` moves it.
unfoldable pub copy_kernel_elf_image : ℕ → Bytes → Bytes
copy_kernel_elf_image kernel_elf_size_bytes mem a =
    if leb kernel_elf_address a && ltb a (kernel_elf_address + kernel_elf_size_bytes)
    then mem (31744 + boot_sectors * sector_size_bytes + (a - kernel_elf_address))
    else mem a

unfoldable pub check_and_finalise : Bytes → ElfHeader → Bool × Bytes
check_and_finalise mem header =
    if elf_check_addrs mem header then elf_zero_bss mem header else (false, mem)

-- `load` with the boot loader of the BIOS: the address that is executed; `none` halts.
unfoldable pub load : ℕ → Bytes → Option (ℕ × Bytes)
load kernel_elf_size_bytes mem =
    let m1 = copy_kernel_elf_image kernel_elf_size_bytes mem in
    let header = header_at m1 kernel_elf_address in
    let (good, m2) = check_and_finalise m1 header in
    if good then some ((header_at m2 kernel_elf_address).entry, m2) else none
