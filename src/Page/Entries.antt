-- ===== src/Page/Entries.antt =====
-- What an entry that was written gives back: its address, its flags and its kind.
use zeptux.Base.{
  ℕ, ◌*◌, ◌/◌, ◌%◌, ◌^◌, ◌≤◌, ◌<◌, true, false, ◌||◌, ◌≡◌, refl, ap, leb, arith, bit_and, bit_or,
  ◌⊎◌, ==_self,
}
use zeptux.Base.Bits.{
  bit, eq_of_bits, bit-bit_or, bit-bit_and, bit-mod, bit-mul-two-pow, bit-two-pow, bit_and-lt,
  bit_or-lt, bit_of_lt,
}
use zeptux.Word.{bit_mask_below, bit_mask_above, lnot}
use zeptux.Word.Laws.{
  bit-mask_below, bit-lnot, lnot-lt, is_bit_set-bit, bit_mask_below-eq, two-pow-lt,
}
use zeptux.Page.Entry.{
  page_table_phys_addr_mask, page_table_phys_addr_mask_2mib, page_table_phys_addr_mask_1gib,
  page_table_flag_mask, entry_present, entry_huge, entry_address, entry_raw_flags, page_flag_pse,
  page_flag_nx, page_flag_default, without_offset, Memory, store, entry_at, assign_table,
  assign_data, assign_data_2mib, assign_data_1gib, map_flags_to_page_flags, map_flag_mode_mask,
}
use zeptux.Page.Flags.{IsMode, map_flags_to_page_flags-MeansFlags}

-- No bit of an address: bits 12 to 62 are clear.
abbrev pub IsFlags : ℕ → Type 0
IsFlags f = (f < 2 ^ 64) × (f % 2 ^ 63 < 2 ^ 12)

-- An address of 48 bits that is a multiple of 2 ^ k.
abbrev pub IsAddress : ℕ → ℕ → Type 0
IsAddress k pa = (pa < 2 ^ 48) × (pa ≡ pa / 2 ^ k * 2 ^ k)

flag_bit : (f i : ℕ) → IsFlags f → bit f i ≡ true → (i < 12) ⊎ (i ≡ 63)
flag_bit f i (w, low) h =
    ground (arith, bit-mod 63 f i, bit_of_lt 12 (f % 2 ^ 63) i low, bit_of_lt 64 f i w)

lt_mask : (k : ℕ) → k < 64 → bit_mask_below k < 2 ^ 64
lt_mask k h = omega (arith, bit_mask_below-eq k h, two-pow-lt k 64 h)

above_lt : (k : ℕ) → bit_mask_above k < 2 ^ 64
unfolding bit_mask_above
above_lt k = lnot-lt (bit_mask_below k)

mask_bit : (k i : ℕ) → k < 64 → i < 64 → bit (bit_mask_above k) i ≡ leb k i
unfolding bit_mask_above
mask_bit k i h lt =
    ground (arith, bit-lnot (bit_mask_below k) i (lt_mask k h) lt, bit-mask_below k i h)

module _ (k : ℕ) (k_low : 12 ≤ k) (k_high : k < 48) (pa : ℕ) (p : IsAddress k pa) (f : ℕ)
    (q : IsFlags f) where
  abbrev entry : ℕ
  entry = bit_or (without_offset k pa) f

  address_bit : (i : ℕ) → bit pa i ≡ true → (k ≤ i) × (i < 48)
  address_bit i h = (
    ground (arith, ap (λ (t : ℕ). bit t i) (p.1), bit-mul-two-pow k (pa / 2 ^ k) i),
    ground (arith, bit_of_lt 48 pa i (p.0)),
  )

  pub bit-entry : (i : ℕ) → i < 64 → bit entry i ≡ (bit pa i || bit f i)
  bit-entry i lt = ground (
    arith,
    bit-bit_or (without_offset k pa) f i,
    bit-bit_and pa (lnot (bit_mask_below k)) i,
    bit-lnot (bit_mask_below k) i (lt_mask k (omega arith)) lt,
    bit-mask_below k i (omega arith),
    address_bit i,
  )

  pub address_back : bit_and entry (bit_and (bit_mask_below 48) (bit_mask_above k)) ≡ pa
  address_back =
      eq_of_bits 64 _ _ (bit_and-lt 64 entry _ (bit_and-lt 64 (bit_mask_below 48) _ (above_lt k)))
        (omega (arith, p.0))
        λ i lt. ground (
          arith,
          bit-bit_and entry (bit_and (bit_mask_below 48) (bit_mask_above k)) i,
          bit-bit_and (bit_mask_below 48) (bit_mask_above k) i,
          bit-mask_below 48 i (omega arith),
          mask_bit k i (omega arith) lt,
          bit-entry i lt,
          address_bit i,
          flag_bit f i q,
        )

  pub flags_back : bit_and entry page_table_flag_mask ≡ f
  unfolding page_table_flag_mask
  flags_back =
      eq_of_bits 64 _ _
        (bit_and-lt 64 entry _ (bit_or-lt 64 _ _ (lt_mask 12 (omega arith)) (omega arith))) (q.0)
        λ i lt. ground (
          arith,
          bit-bit_and entry (bit_or (bit_mask_below 12) page_flag_nx) i,
          bit-bit_or (bit_mask_below 12) page_flag_nx i,
          bit-mask_below 12 i (omega arith),
          bit-two-pow 63 i,
          bit-entry i lt,
          address_bit i,
          flag_bit f i q,
        )

store-here : (memory : Memory) (address value : ℕ) → store memory address value address ≡ value
unfolding store
store-here memory address value = rw (==_self address) refl

map_flags_to_page_flags-IsFlags :
    (flags : ℕ)
    → IsMode (bit_and flags map_flag_mode_mask)
    → IsFlags (map_flags_to_page_flags flags)
      × (bit (map_flags_to_page_flags flags) 0 ≡ true)
      × (bit (map_flags_to_page_flags flags) 7 ≡ false)
map_flags_to_page_flags-IsFlags flags h =
    let m = map_flags_to_page_flags-MeansFlags flags h in (m.no_address, m.present, m.small)

-- The entry that `assign_pud`, `assign_pmd` or `assign_ptd` writes is present, refers to a table,
-- and gives back the address of the table, which is to be page-aligned and of 48 bits.
pub assign_table-back :
    (memory : Memory) (table index child : ℕ)
    → IsAddress 12 child
    → let e = assign_table memory table index child (entry_at table index) in
      (entry_present e ≡ true) × (entry_huge e ≡ false) × (entry_address e ≡ child)
unfolding assign_table entry_present entry_huge entry_address page_table_phys_addr_mask
assign_table-back memory table index child h =
    let q : IsFlags page_flag_default = (omega arith, omega arith) in
    let e = bit_or (without_offset 12 child) page_flag_default in
    let bits = bit-entry 12 (omega arith) (omega arith) child h page_flag_default q in
    let low = address_bit 12 (omega arith) (omega arith) child h page_flag_default q in
    rw (store-here memory (entry_at table index) e) (
      ground (arith, is_bit_set-bit e 0 (omega arith), bits 0),
      ground (arith, is_bit_set-bit e 7 (omega arith), bits 7, low 7),
      address_back 12 (omega arith) (omega arith) child h page_flag_default q,
    )

-- The entry that `assign_data` writes is present and gives back the address and the page flags,
-- for a page-aligned address of 48 bits and one of the three modes.
pub assign_data-back :
    (memory : Memory) (ptd index pa flags : ℕ)
    → IsAddress 12 pa
    → IsMode (bit_and flags map_flag_mode_mask)
    → let e = assign_data memory ptd index pa flags (entry_at ptd index) in
      (entry_present e ≡ true)
      × (entry_address e ≡ pa)
      × (entry_raw_flags e ≡ map_flags_to_page_flags flags)
unfolding assign_data entry_present entry_address entry_raw_flags page_table_phys_addr_mask
assign_data-back memory ptd index pa flags h mode =
    let f = map_flags_to_page_flags flags in
    let (q, here, small) = map_flags_to_page_flags-IsFlags flags mode in
    let e = bit_or (without_offset 12 pa) f in
    rw (store-here memory (entry_at ptd index) e) (
      ground (
        arith,
        is_bit_set-bit e 0 (omega arith),
        bit-entry 12 (omega arith) (omega arith) pa h f q 0,
      ),
      address_back 12 (omega arith) (omega arith) pa h f q,
      flags_back 12 (omega arith) (omega arith) pa h f q,
    )

bit_or_assoc :
    (a b c : ℕ)
    → a < 2 ^ 64
    → b < 2 ^ 64
    → c < 2 ^ 64
    → bit_or (bit_or a b) c ≡ bit_or a (bit_or b c)
bit_or_assoc a b c x y z =
    eq_of_bits 64 _ _ (bit_or-lt 64 _ c (bit_or-lt 64 a b x y) z)
      (bit_or-lt 64 a _ x (bit_or-lt 64 b c y z))
      λ i _. ground (
        arith,
        bit-bit_or (bit_or a b) c i,
        bit-bit_or a b i,
        bit-bit_or a (bit_or b c) i,
        bit-bit_or b c i,
      )

pse_low :
    (f : ℕ) → IsFlags f → bit_or page_flag_pse f % 2 ^ 63 ≡ bit_or page_flag_pse f % 2 ^ 63 % 2 ^ 12
pse_low f q = eq_of_bits 64 _ _ (omega arith) (omega arith) λ i lt.
    let x = bit_or page_flag_pse f in
    ground (
      arith,
      bit-mod 12 (x % 2 ^ 63) i,
      bit-mod 63 x i,
      bit-bit_or page_flag_pse f i,
      bit-two-pow 7 i,
      flag_bit f i q,
    )

bit_or-IsFlags : (f : ℕ) → IsFlags f → IsFlags (bit_or page_flag_pse f)
bit_or-IsFlags f q = (bit_or-lt 64 page_flag_pse f (omega arith) (q.0), omega (arith, pse_low f q))

-- An entry of a large page: present, marked as large, with address `pa` behind `mask`.
abbrev pub IsHuge : (entry mask pa f : ℕ) → Type 0
IsHuge entry mask pa f =
    (entry_present entry ≡ true)
    × (entry_huge entry ≡ true)
    × (bit_and entry mask ≡ pa)
    × (entry_raw_flags entry ≡ bit_or page_flag_pse f)

entry-IsHuge :
    (k : ℕ)
    → 12 ≤ k
    → k < 48
    → (pa flags : ℕ) → IsAddress k pa
    → IsMode (bit_and flags map_flag_mode_mask)
    → let f = map_flags_to_page_flags flags in
      IsHuge
        (bit_or (bit_or (without_offset k pa) page_flag_pse) f)
        (bit_and (bit_mask_below 48) (bit_mask_above k))
        pa
        f
unfolding entry_present entry_huge entry_raw_flags
entry-IsHuge k lo hi pa flags h mode =
    let f = map_flags_to_page_flags flags in
    let (q, here, small) = map_flags_to_page_flags-IsFlags flags mode in
    let g = bit_or page_flag_pse f in
    let r = bit_or-IsFlags f q in
    let e = bit_or (without_offset k pa) g in
    rw
      (bit_or_assoc (without_offset k pa) page_flag_pse f (bit_and-lt 64 pa _ (lnot-lt _))
        (omega arith) (q.0))
      (
        ground (
          arith,
          is_bit_set-bit e 0 (omega arith),
          bit-entry k lo hi pa h g r 0,
          bit-bit_or page_flag_pse f 0,
        ),
        ground (
          arith,
          is_bit_set-bit e 7 (omega arith),
          bit-entry k lo hi pa h g r 7,
          bit-bit_or page_flag_pse f 7,
        ),
        address_back k lo hi pa h g r,
        flags_back k lo hi pa h g r,
      )

-- The entry that `assign_data_2mib` writes is present, marked as that of a large page, and gives
-- back the address and the page flags, for an address of 48 bits that is aligned to 2 MiB, and
-- one of the three modes.
pub assign_data_2mib-back :
    (memory : Memory) (pmd index pa flags : ℕ)
    → IsAddress 21 pa
    → IsMode (bit_and flags map_flag_mode_mask)
    → IsHuge
        (assign_data_2mib memory pmd index pa flags (entry_at pmd index))
        page_table_phys_addr_mask_2mib
        pa
        (map_flags_to_page_flags flags)
unfolding assign_data_2mib page_table_phys_addr_mask_2mib
assign_data_2mib-back memory pmd index pa flags h mode =
    rw (store-here memory (entry_at pmd index) _)
      (entry-IsHuge 21 (omega arith) (omega arith) pa flags h mode)

-- The same of `assign_data_1gib`, for an address that is aligned to 1 GiB.
pub assign_data_1gib-back :
    (memory : Memory) (pud index pa flags : ℕ)
    → IsAddress 30 pa
    → IsMode (bit_and flags map_flag_mode_mask)
    → IsHuge
        (assign_data_1gib memory pud index pa flags (entry_at pud index))
        page_table_phys_addr_mask_1gib
        pa
        (map_flags_to_page_flags flags)
unfolding assign_data_1gib page_table_phys_addr_mask_1gib
assign_data_1gib-back memory pud index pa flags h mode =
    rw (store-here memory (entry_at pud index) _)
      (entry-IsHuge 30 (omega arith) (omega arith) pa flags h mode)
