-- ===== src/Page/Translate.antt =====
-- Pages that `_map_page_range_ptd` maps are found again by the walk.
use native.Mathlib.Nat.{div-le_self}
use zeptux.Base.{
  ℕ, ◌+◌, ◌-◌, ◌*◌, ◌/◌, ◌%◌, ◌^◌, min, ◌≤◌, ◌<◌, true, false, some, ◌≡◌, ◌≢◌, refl, ap, ◌∙◌, arith,
  bit_and,
}
use zeptux.Word.Laws.{bit_and-mask_below}
use zeptux.Page.Address.{virt_pgde_index, virt_pude_index, virt_pmde_index, virt_ptde_index}
use zeptux.Page.Entry.{
  Memory, entry_at, entry_present, entry_huge, entry_address, map_flags_to_page_flags,
  map_flag_mode_mask,
}
use zeptux.Page.Flags.{IsMode}
use zeptux.Page.Walk.{
  walk_to_data, phys_at, raw_flags_at, walk_virt_to_phys, walk_virt_to_raw_flags,
}
use zeptux.Page.Map.{Mapping, done, map_page_range_ptd}
use zeptux.Page.Fill.{IsLeaf, Filled, CanFill, map_page_range_ptd-Filled}

-- The three entries through which a walk from `root` comes to the table `ptd`: their addresses,
-- and what stands in them.
pub record Chain (memory : Memory) (root pg pu pm ptd : ℕ) : Type 0 where
  pub pgde_at : ℕ
  pub pude_at : ℕ
  pub pmde_at : ℕ
  pub pgde_place : entry_at root pg ≡ pgde_at
  pub pude_place : entry_at (entry_address (memory pgde_at)) pu ≡ pude_at
  pub pmde_place : entry_at (entry_address (memory pude_at)) pm ≡ pmde_at
  pub pgde_present : entry_present (memory pgde_at) ≡ true
  pub pude_present : entry_present (memory pude_at) ≡ true
  pub pmde_present : entry_present (memory pmde_at) ≡ true
  pub pude_small : entry_huge (memory pude_at) ≡ false
  pub pmde_small : entry_huge (memory pmde_at) ≡ false
  pub leads : entry_address (memory pmde_at) ≡ ptd

abbrev pub Walks : Memory → ℕ → ℕ → ℕ → ℕ → Type 0
Walks memory root va pa flags =
    (walk_virt_to_phys memory root va ≡ some pa)
    × (walk_virt_to_raw_flags memory root va ≡ some flags)

walk-leaf :
    (memory : Memory) (root va ptd pa flags : ℕ)
    → Chain memory root (virt_pgde_index va) (virt_pude_index va) (virt_pmde_index va) ptd
    → IsLeaf (memory (entry_at ptd (virt_ptde_index va))) pa flags
    → Walks memory root va pa (map_flags_to_page_flags flags)
unfolding walk_virt_to_phys walk_virt_to_raw_flags walk_to_data phys_at raw_flags_at
walk-leaf memory root va ptd pa flags c (here, address, raw) =
    rw
      (
        c.pgde_place, c.pude_place, c.pmde_place, c.pgde_present, c.pude_present, c.pude_small,
        c.pmde_present, c.pmde_small, c.leads, here, address, raw,
      )
      (refl, refl)

index-eq : (va k : ℕ) → va < 2 ^ 64 → bit_and (va / 2 ^ k) 511 ≡ va / 2 ^ k % 512
index-eq va k h =
    bit_and-mask_below (va / 2 ^ k) 9 (omega arith) (omega (arith, div-le_self va (2 ^ k)))

-- Pages of one PTD have the same indexes above it.
same_above :
    (va n : ℕ)
    → va + n * 4096 < 2 ^ 64
    → va / 4096 % 512 + n < 512
    → (virt_pgde_index (va + n * 4096) ≡ virt_pgde_index va)
      × (virt_pude_index (va + n * 4096) ≡ virt_pude_index va)
      × (virt_pmde_index (va + n * 4096) ≡ virt_pmde_index va)
      × (virt_ptde_index (va + n * 4096) ≡ va / 4096 % 512 + n)
unfolding virt_pgde_index virt_pude_index virt_pmde_index virt_ptde_index
same_above va n h lt = (
  omega (arith, index-eq va 39 (omega arith), index-eq (va + n * 4096) 39 h),
  omega (arith, index-eq va 30 (omega arith), index-eq (va + n * 4096) 30 h),
  omega (arith, index-eq va 21 (omega arith), index-eq (va + n * 4096) 21 h),
  omega (arith, index-eq (va + n * 4096) 12 h),
)

-- The entry at `a` is none of those that the run writes.
abbrev pub Outside : ℕ → ℕ → Type 0
Outside ptd a = (k : ℕ) → k < 512 → entry_at ptd k ≢ a

Chain-kept :
    {S : Type 0} (flags ptd i count root pg pu pm : ℕ) (s t : Mapping S)
    → i + count ≤ 512
    → Filled flags ptd i count s t
    → (c : Chain s.memory root pg pu pm ptd) → Outside ptd c.pgde_at
    → Outside ptd c.pude_at
    → Outside ptd c.pmde_at
    → Chain t.memory root pg pu pm ptd
Chain-kept flags ptd i count root pg pu pm s t room filled c o1 o2 o3 =
    let e1 = filled.kept c.pgde_at λ j h. o1 (i + j) (omega arith) in
    let e2 = filled.kept c.pude_at λ j h. o2 (i + j) (omega arith) in
    let e3 = filled.kept c.pmde_at λ j h. o3 (i + j) (omega arith) in
    record {
      pgde_at = c.pgde_at;
      pude_at = c.pude_at;
      pmde_at = c.pmde_at;
      pgde_place = c.pgde_place;
      pude_place = rw e1 c.pude_place;
      pmde_place = rw e2 c.pmde_place;
      pgde_present = rw e1 c.pgde_present;
      pude_present = rw e2 c.pude_present;
      pmde_present = rw e3 c.pmde_present;
      pude_small = rw e2 c.pude_small;
      pmde_small = rw e3 c.pmde_small;
      leads = rw e3 c.leads;
    }

module _ {S : Type 0} (flags ptd i root : ℕ) (mode : IsMode (bit_and flags map_flag_mode_mask))
    (s : Mapping S) where
  abbrev num : ℕ
  num = min s.num_remaining_pages (512 - i)

  -- A run of `_map_page_range_ptd` with 512 rounds ends without a panic, and the walk from
  -- `root` finds each page that it mapped: at its physical address, and with the page flags of
  -- `flags`. Before the run the walk already comes to the table, through present entries outside
  -- of it; the entries to fill are free, the addresses page-aligned and in range, the mode one
  -- of the three, and the table lies in the direct mapping.
  pub map_page_range_ptd-Walks :
      i < 512
      → CanFill ptd i num s
      → (c : Chain s.memory root
          (virt_pgde_index s.va)
          (virt_pude_index s.va)
          (virt_pmde_index s.va)
          ptd)
      → Outside ptd c.pgde_at
      → Outside ptd c.pude_at
      → Outside ptd c.pmde_at
      → (t : Mapping S) × (map_page_range_ptd 512 flags ptd s ≡ done t)
        × ((j : ℕ)
            → j < num
            → Walks t.memory root
                (s.va + j * 4096)
                (s.pa + j * 4096)
                (map_flags_to_page_flags flags))
  map_page_range_ptd-Walks lt can c o1 o2 o3 =
      let (t, ran, filled) =
        map_page_range_ptd-Filled flags ptd mode 512 i s lt (omega arith) can in
      let kept = Chain-kept flags ptd i num root _ _ _ s t (omega arith) filled c o1 o2 o3 in
      (
        t,
        ran,
        λ j h.
            let (e1, e2, e3, e4) =
              same_above s.va j (omega (arith, can.va_room)) (omega (arith, can.index)) in
            let there = e4 ∙ ap (λ (k : ℕ). k + j) can.index in
            walk-leaf t.memory root (s.va + j * 4096) ptd (s.pa + j * 4096) flags
              (rw (e1, e2, e3) kept) (rw there (filled.mapped j h)),
      )
