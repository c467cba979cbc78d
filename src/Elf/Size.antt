-- ===== src/Elf/Size.antt =====
-- How much of an image the headers ask for, and which section is cleared.
use zeptux.Base.{
  ℕ, zero, suc, ◌+◌, ◌%◌, ◌^◌, ◌≤◌, ◌<◌, Bool, true, false, ◌≡◌, ◌≢◌, ◌⊎◌, ◌↔◌, inl, inr, refl,
  subst, arith, ◌==◌, ltb, leb, ◌&&◌, if◌then◌else◌, if-elim, Bool-cases,
}
use zeptux.Page.Address.{kernel_elf_address}
use zeptux.Elf.{
  ElfSectionHeader, same_name, Bytes, ElfHeader, prog_header, sect_header, elf_sht_nobits, extend,
  programs_end, sections_end, elf_get_size_bytes, memset, is_bss, zero_bss_from, elf_zero_bss,
}

abbrev pub All : (ℕ → Type 0) → ℕ → ℕ → Type 0
All P i left = (j : ℕ) → i ≤ j → j < i + left → P j

All-cons : (P : ℕ → Type 0) (i left : ℕ) → P i → All P (i + 1) left → All P i (suc left)
All-cons P i left here rest j lo hi = elim (Bool-cases (i == j)) [
  | inl e ↦ let same : i ≡ j = ground arith in subst P same here
  | inr e ↦ rest j (ground arith) (omega arith)
]

All-tail : (P : ℕ → Type 0) (i left : ℕ) → All P i (suc left) → All P (i + 1) left
All-tail P i left all j lo hi = all j (omega arith) (omega arith)

-- The program, and the section if it has bytes in the file, ends by `bound`.
abbrev pub ProgramWithin : Bytes → ElfHeader → ℕ → ℕ → Type 0
ProgramWithin mem header bound j =
    ((prog_header mem header j).offset + (prog_header mem header j).memsz) % 2 ^ 64 ≤ bound

abbrev pub SectionWithin : Bytes → ElfHeader → ℕ → ℕ → Type 0
SectionWithin mem header bound j =
    (sect_header mem header j).type ≢ elf_sht_nobits
    → ((sect_header mem header j).offset + (sect_header mem header j).size) % 2 ^ 64 ≤ bound

section_step :
    (type ret offset size bound : ℕ)
    → ((if type == elf_sht_nobits then ret else extend ret offset size) ≤ bound)
      ↔ ((ret ≤ bound) × (type ≢ elf_sht_nobits → (offset + size) % 2 ^ 64 ≤ bound))
section_step type ret offset size bound = (
  λ h. (ground arith, λ ne. ground arith),
  λ (a, b).
      if-elim (λ (x : ℕ). x ≤ bound) (type == elf_sht_nobits) (λ e. a)
        (λ e. let c = b (λ z. ground arith) in ground arith),
)

extend-le :
    (ret offset size bound : ℕ)
    → (extend ret offset size ≤ bound) ↔ ((ret ≤ bound) × ((offset + size) % 2 ^ 64 ≤ bound))
extend-le ret offset size bound = (λ h. ground arith, λ (a, b). ground arith)

programs_end-le :
    (left : ℕ) (mem : Bytes) (header : ElfHeader) (i ret bound : ℕ)
    → (programs_end left mem header i ret ≤ bound)
      ↔ ((ret ≤ bound) × All (ProgramWithin mem header bound) i left)
unfolding programs_end
programs_end-le zero mem header i ret bound =
    (λ h. (h, λ j lo hi. absurd (omega arith)), λ (h, w). h)
programs_end-le (suc left) mem header i ret bound =
    let p = prog_header mem header i in
    let P = ProgramWithin mem header bound in
    let (to, from) = programs_end-le left mem header (i + 1) (extend ret p.offset p.memsz) bound in
    let (split, join) = extend-le ret p.offset p.memsz bound in
    (
      λ h. let (e, rest) = to h in let (r, here) = split e in (r, All-cons P i left here rest),
      λ (r, w). from (join (r, w i (omega arith) (omega arith)), All-tail P i left w),
    )

sections_end-le :
    (left : ℕ) (mem : Bytes) (header : ElfHeader) (i ret bound : ℕ)
    → (sections_end left mem header i ret ≤ bound)
      ↔ ((ret ≤ bound) × All (SectionWithin mem header bound) i left)
unfolding sections_end
sections_end-le zero mem header i ret bound =
    (λ h. (h, λ j lo hi. absurd (omega arith)), λ (h, w). h)
sections_end-le (suc left) mem header i ret bound =
    let s = sect_header mem header i in
    let P = SectionWithin mem header bound in
    let next = if s.type == elf_sht_nobits then ret else extend ret s.offset s.size in
    let (to, from) = sections_end-le left mem header (i + 1) next bound in
    let step : (next ≤ bound) ↔ ((ret ≤ bound) × P i) =
      section_step s.type ret s.offset s.size bound in
    (
      λ h. let (e, rest) = to h in let (r, here) = step.0 e in (r, All-cons P i left here rest),
      λ (r, w). from (step.1 (r, w i (omega arith) (omega arith)), All-tail P i left w),
    )

-- The size of an image is within a bound just when each program, and each section with bytes in
-- the file, ends within it, the ends being sums of uint64_t: it is the largest of the ends, or 0.
pub elf_get_size_bytes-le :
    (mem : Bytes) (header : ElfHeader) (bound : ℕ)
    → (elf_get_size_bytes mem header ≤ bound) ↔ (
        All (ProgramWithin mem header bound) 0 header.phnum
        × All (SectionWithin mem header bound) 0 header.shnum)
unfolding elf_get_size_bytes
elf_get_size_bytes-le mem header bound =
    let (to, from) =
      sections_end-le header.shnum mem header 0 (programs_end header.phnum mem header 0 0) bound in
    let (to', from') = programs_end-le header.phnum mem header 0 0 bound in
    (λ h. let (p, s) = to h in ((to' p).1, s), λ (p, s). from (from' (omega arith, p), s))

-- Where the name of section `k` lies.
abbrev pub name_at : Bytes → ElfHeader → ℕ → ℕ
name_at mem header k =
    kernel_elf_address
    + (sect_header mem header header.shstrndx).offset
    + (sect_header mem header k).name

-- A section of which the NUL-terminated name, in the table of names, is ".bss".
pub record IsNamedBss (mem : Bytes) (header : ElfHeader) (k : ℕ) : Type 0 where
  pub dot : mem (name_at mem header k) ≡ 46
  pub letter_b : mem (name_at mem header k + 1) ≡ 98
  pub first_s : mem (name_at mem header k + 2) ≡ 115
  pub second_s : mem (name_at mem header k + 3) ≡ 115
  pub nul : mem (name_at mem header k + 4) ≡ 0

is_bss_iff :
    (mem : Bytes) (header : ElfHeader) (k : ℕ)
    → (is_bss mem header k ≡ true) ↔ IsNamedBss mem header k
unfolding is_bss same_name
is_bss_iff mem header k = (
  λ h. record {
    dot = ground (arith, h);
    letter_b = ground (arith, h);
    first_s = ground (arith, h);
    second_s = ground (arith, h);
    nul = ground (arith, h);
  },
  λ h. ground (arith, h.dot, h.letter_b, h.first_s, h.second_s, h.nul),
)

-- The bytes of the section are 0, the others are as before.
abbrev pub IsCleared : Bytes → ElfSectionHeader → Bytes → Type 0
IsCleared mem s after =
    (a : ℕ) → after a ≡ (if leb s.addr a && ltb a (s.addr + s.size) then 0 else mem a)

-- From section `i` on, of `left` sections: the first one named ".bss" is cleared; or there is none.
abbrev pub Cleared : Bytes → ElfHeader → ℕ → ℕ → Bool × Bytes → Type 0
Cleared mem header i left (found, after) =
    ((k : ℕ) × (i ≤ k)
      × (k < i + left)
      × IsNamedBss mem header k
      × ((j : ℕ) → i ≤ j → j < k → ¬ IsNamedBss mem header j)
      × (found ≡ true)
      × IsCleared mem (sect_header mem header k) after)
    ⊎ (All (λ j. ¬ IsNamedBss mem header j) i left × (found ≡ false) × ((a : ℕ) → after a ≡ mem a))

zero_bss_from-Cleared :
    (left : ℕ) (mem : Bytes) (header : ElfHeader) (i : ℕ)
    → Cleared mem header i left (zero_bss_from left mem header i)
unfolding zero_bss_from
zero_bss_from-Cleared zero mem header i = inr ((λ j lo hi. absurd (omega arith)), refl, λ a. refl)
zero_bss_from-Cleared (suc left) mem header i = elim (Bool-cases (is_bss mem header i)) [
  | inl e ↦ rw e (
      inl (
        i,
        omega arith,
        omega arith,
        (is_bss_iff mem header i).0 e,
        (λ j lo hi. absurd (omega arith)),
        refl,
        cleared,
      ))
  | inr e ↦
      let other : ¬ IsNamedBss mem header i =
        λ named. ground (arith, e, (is_bss_iff mem header i).1 named) in
      rw e (elim (zero_bss_from-Cleared left mem header (i + 1)) [
        | inl (k, lo, hi, named, before, f, bytes) ↦ inl (
          k,
          omega arith,
          omega arith,
          named,
          (λ j from to. elim (Bool-cases (i == j)) [
            | inl z ↦
                let same : i ≡ j = ground arith in subst (λ l. ¬ IsNamedBss mem header l) same other
            | inr z ↦ before j (ground arith) to
          ]),
          f,
          bytes,
        )
        | inr (none_named, f, bytes) ↦
            inr (All-cons (λ j. ¬ IsNamedBss mem header j) i left other none_named, f, bytes)
      ])
]
  where
    cleared :
        IsCleared mem
          (sect_header mem header i)
          (memset mem (sect_header mem header i).addr 0 (sect_header mem header i).size)
    cleared a = unfold memset in refl

-- If some section is named ".bss", `elf_zero_bss` says so, all bytes at the addresses of the first
-- such section are 0 afterwards and every other byte is as before; else it says so and changes
-- nothing. A name is NUL-terminated and lies in the section that `shstrndx` names.
pub elf_zero_bss-Cleared :
    (mem : Bytes) (header : ElfHeader) → Cleared mem header 0 header.shnum (elf_zero_bss mem header)
unfolding elf_zero_bss
elf_zero_bss-Cleared mem header = zero_bss_from-Cleared header.shnum mem header 0
