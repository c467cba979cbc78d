-- ===== src/Elf/Disk.antt =====
-- From which place of the disk each byte of the image comes, after both parts of the loading.
use zeptux.Base.{
  ℕ, ◌+◌, ◌-◌, ◌*◌, ◌/◌, ◌%◌, ◌^◌, ◌≤◌, ◌<◌, Bool, true, false, not, ◌||◌, some, none, ◌≡◌, ◌⊎◌,
  inl, inr, refl, ap, subst, ◌∙◌, ◌==◌, arith, ltb, leb, if◌then◌else◌, Bool-cases,
}
use zeptux.Word.{align_up}
use zeptux.Word.Laws.{align_up-eq}
use zeptux.Page.Address.{kernel_elf_address}
use zeptux.Elf.{
  Bytes, ElfHeader, ElfLoadState, sector_size_bytes, boot_sectors, elf_magic_number, header_at,
  elf_get_size_bytes, read_sectors_lba48, load_headers, load1, load2, load_ata_pio,
}

read_sectors_lba48-inside :
    (disk mem : Bytes) (ptr offset count j : ℕ)
    → j < sector_size_bytes * count
    → read_sectors_lba48 disk mem ptr offset count (ptr + j) ≡ disk (sector_size_bytes * offset + j)
unfolding read_sectors_lba48
read_sectors_lba48-inside disk mem ptr offset count j lt =
    let back : ptr + j - ptr ≡ j = omega arith in
    let low : leb ptr (ptr + j) ≡ true = ground arith in
    let high : ltb (ptr + j) (ptr + sector_size_bytes * count) ≡ true = ground arith in
    rw (low, high, back) refl

read_sectors_lba48-outside :
    (disk mem : Bytes) (ptr offset count a : ℕ)
    → (a < ptr) ⊎ (ptr + sector_size_bytes * count ≤ a)
    → read_sectors_lba48 disk mem ptr offset count a ≡ mem a
unfolding read_sectors_lba48
read_sectors_lba48-outside disk mem ptr offset count a out = ground (arith, out)

-- A size in whole sectors.
abbrev pub whole : ℕ → ℕ
whole size = (size + 511) / 512 * 512

-- The image has `n` bytes from behind the boot sectors of the disk, and nothing else has changed.
record HasHeaders (disk mem m1 : Bytes) (n : ℕ) : Type 0 where
  image : (j : ℕ) → j < n → m1 (kernel_elf_address + j) ≡ disk (512 * 5 + j)
  others : (a : ℕ) → (a < kernel_elf_address) ⊎ (kernel_elf_address + n ≤ a) → m1 a ≡ mem a

two_reads-HasHeaders :
    (disk mem : Bytes) (s : ℕ)
    → 0 < s
    → s < 2 ^ 16
    → HasHeaders disk mem
        (read_sectors_lba48 disk
          (read_sectors_lba48 disk mem kernel_elf_address boot_sectors 1)
          (kernel_elf_address + sector_size_bytes)
          (boot_sectors + 1)
          ((s + 2 ^ 16 - 1) % 2 ^ 16))
        (s * 512)
two_reads-HasHeaders disk mem s pos lt =
    let m0 = read_sectors_lba48 disk mem kernel_elf_address boot_sectors 1 in
    let at = kernel_elf_address + sector_size_bytes in
    let c = (s + 2 ^ 16 - 1) % 2 ^ 16 in
    let count : c ≡ s - 1 = omega arith in
    let m1 = read_sectors_lba48 disk m0 at (boot_sectors + 1) c in
    record {
      image = λ j h. elim (Bool-cases (ltb j 512)) [
        | inl first ↦
            read_sectors_lba48-outside disk m0 at (boot_sectors + 1) c (kernel_elf_address + j)
              (inl (ground arith))
            ∙ read_sectors_lba48-inside disk mem kernel_elf_address boot_sectors 1 j (ground arith)
        | inr later ↦
            let i = j - 512 in
            let here : kernel_elf_address + j ≡ at + i = ground arith in
            ap m1 here
            ∙ read_sectors_lba48-inside disk m0 at (boot_sectors + 1) c i (ground (arith, count))
            ∙ ap disk (ground arith)
      ];
      others = λ a out.
          read_sectors_lba48-outside disk m0 at (boot_sectors + 1) c a
            (elim out [ inl b ↦ inl (omega arith) | inr b ↦ inr (omega (arith, count)) ])
          ∙ read_sectors_lba48-outside disk mem kernel_elf_address boot_sectors 1 a
              (elim out [ inl b ↦ inl (omega arith) | inr b ↦ inr (omega arith) ]);
    }

-- What `load_ata_pio` leaves in the memory: `loaded` bytes from behind the boot sectors of the disk,
-- and then, up to the whole sectors of an image of `size` bytes, bytes from the disk without them.
pub record LoadedFrom (disk mem after : Bytes) (loaded size : ℕ) : Type 0 where
  pub first : (j : ℕ) → j < loaded → after (kernel_elf_address + j) ≡ disk (512 * 5 + j)
  pub second : (j : ℕ) → loaded ≤ j → j < whole size → after (kernel_elf_address + j) ≡ disk j
  pub before : (a : ℕ) → a < kernel_elf_address → after a ≡ mem a
  pub behind :
      (j : ℕ)
      → loaded ≤ j
      → whole size ≤ j
      → after (kernel_elf_address + j) ≡ mem (kernel_elf_address + j)

-- The second part of the loading, where the first has left `n` whole sectors.
load2-LoadedFrom :
    (disk mem m1 : Bytes) (state : ElfLoadState)
    → HasHeaders disk mem m1 state.bytes_loaded
    → state.sectors_loaded * 512 ≡ state.bytes_loaded
    → elf_get_size_bytes m1 state.header ≤ 2 ^ 25 - 512
    → LoadedFrom disk mem
        (load2 disk m1 state)
        state.bytes_loaded
        (elf_get_size_bytes m1 state.header)
unfolding load2
load2-LoadedFrom disk mem m1 state has sectors fits =
    elim (Bool-cases (ltb state.bytes_loaded size)) [
      | inr enough ↦ rw enough (record {
        first = has.image;
        second = λ j lo hi. absurd (ground (arith, sectors));
        before = λ a lt. has.others a (inl lt);
        behind = λ j lo hi. has.others (kernel_elf_address + j) (inr (omega arith));
      })
      | inl short ↦
          let up : align_up size sector_size_bytes ≡ whole size =
            omega (arith, align_up-eq size 9 (omega arith) (omega arith)) in
          let count : delta * 512 ≡ whole size - state.bytes_loaded = ground (arith, up, sectors) in
          let at = kernel_elf_address + state.sectors_loaded * sector_size_bytes in
          let outside : (a : ℕ)
              → (a < at) ⊎ (at + sector_size_bytes * delta ≤ a)
              → read_sectors_lba48 disk m1 at state.sectors_loaded delta a ≡ m1 a =
            read_sectors_lba48-outside disk m1 at state.sectors_loaded delta in
          rw short (record {
            first = λ j h.
                outside (kernel_elf_address + j) (inl (omega (arith, sectors))) ∙ has.image j h;
            second = λ j lo hi.
                let i = j - state.bytes_loaded in
                let here : kernel_elf_address + j ≡ at + i = omega (arith, sectors, lo) in
                ap (read_sectors_lba48 disk m1 at state.sectors_loaded delta) here
                ∙ read_sectors_lba48-inside disk m1 at state.sectors_loaded delta i
                    (omega (arith, count, lo, hi))
                ∙ ap disk (omega (arith, sectors, lo));
            before = λ a lt. outside a (inl (omega arith)) ∙ has.others a (inl lt);
            behind = λ j lo hi.
                outside (kernel_elf_address + j) (inr (ground (arith, sectors, count)))
                ∙ has.others (kernel_elf_address + j) (inr (omega arith));
          })
    ]
  where
    size : ℕ
    size = elf_get_size_bytes m1 state.header

    delta : ℕ
    delta =
        (align_up size sector_size_bytes / sector_size_bytes % 2 ^ 16
          + 2 ^ 64
          - state.sectors_loaded)
        % 2 ^ 16

abbrev Headers : Bytes → Bytes → ElfLoadState × Bytes → Type 0
Headers disk mem (state, m1) =
    0 < state.bytes_loaded
    → state.bytes_loaded < 2 ^ 25
    → HasHeaders disk mem m1 state.bytes_loaded × (state.sectors_loaded * 512 ≡ state.bytes_loaded)

load_headers-Headers :
    (disk mem : Bytes) (header : ElfHeader)
    → Headers disk mem
        (load_headers disk (read_sectors_lba48 disk mem kernel_elf_address boot_sectors 1) header)
unfolding load_headers
load_headers-Headers disk mem header pos lt =
    let end = (header.shoff + header.shnum * 64) % 2 ^ 32 in
    let bytes = align_up end sector_size_bytes % 2 ^ 32 in
    let up = align_up-eq end 9 (omega arith) (omega arith) in
    let sectors = bytes / sector_size_bytes % 2 ^ 16 in
    let back : sectors * 512 ≡ bytes = omega (arith, up) in
    (
      subst (HasHeaders disk mem _) back
          (two_reads-HasHeaders disk mem sectors (omega arith) (omega arith)),
      back,
    )

-- The state that `load1` returns, with the memory.
load1-Headers :
    (disk mem : Bytes) (r : ElfLoadState × Bytes) → load1 disk mem ≡ some r → Headers disk mem r
unfolding load1
load1-Headers disk mem r e = by_test bad refl
  where
    m0 : Bytes
    m0 = read_sectors_lba48 disk mem kernel_elf_address boot_sectors 1

    header : ElfHeader
    header = header_at m0 kernel_elf_address

    bad : Bool
    bad = not (header.magic == elf_magic_number) || ltb header.shoff header.phoff

    loaded : ElfLoadState × Bytes
    loaded = load_headers disk m0 header

    by_test : (b : Bool) → bad ≡ b → Headers disk mem r
    by_test true z =
        let f : none ≡ some r = subst (λ b. (if b then none else some loaded) ≡ some r) z e in
        absurd (cc)
    by_test false z =
        let f : some loaded ≡ some r =
          subst (λ b. (if b then none else some loaded) ≡ some r) z e in
        subst (Headers disk mem) (ap (λ o. elim o [ none ↦ loaded | some x ↦ x ]) f)
          (load_headers-Headers disk mem header)

-- Where `load1` succeeds, with more than 0 and less than 2 ^ 25 bytes up to the end of the section
-- headers, and the image takes less than 2 ^ 16 sectors, `load_ata_pio` leaves in the image the bytes
-- up to that end from where they are on the disk, behind the five sectors of the boot loader, and the
-- sectors after these, up to the end of the image, from the same place of the whole disk: not from
-- behind the boot loader. Every other byte is as before.
pub load_ata_pio-LoadedFrom :
    (disk mem m1 : Bytes) (state : ElfLoadState)
    → load1 disk mem ≡ some (state, m1)
    → 0 < state.bytes_loaded
    → state.bytes_loaded < 2 ^ 25
    → elf_get_size_bytes m1 state.header ≤ 2 ^ 25 - 512
    → (after : Bytes) × (load_ata_pio disk mem ≡ some (state.header, state.bytes_loaded, after))
      × LoadedFrom disk mem after state.bytes_loaded (elf_get_size_bytes m1 state.header)
unfolding load_ata_pio
load_ata_pio-LoadedFrom disk mem m1 state e pos lt fits =
    let (has, sectors) = load1-Headers disk mem (state, m1) e pos lt in
    (
      load2 disk m1 state,
      rw (load_ata_pio, e) refl,
      load2-LoadedFrom disk mem m1 state has sectors fits,
    )
