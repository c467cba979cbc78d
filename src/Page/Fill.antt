-- ===== src/Page/Fill.antt =====
-- `_map_page_range_ptd` on entries that are free: what it maps, and what it leaves alone.
use zeptux.Base.{
  ℕ, zero, suc, ◌+◌, ◌-◌, ◌*◌, ◌/◌, ◌%◌, ◌^◌, min, ◌≤◌, ◌<◌, true, false, ◌≡◌, ◌≢◌, refl, ap, ◌∙◌,
  subst, ◌==◌, if◌then◌else◌, arith, bit_and, inl, inr, Bool-cases,
}
use zeptux.Page.Address.{virt_ptde_index, offset_pages, phys_to_virt, kernel_direct_map_base}
use zeptux.Page.Entry.{
  Memory, store, entry_at, entry_present, entry_address, entry_raw_flags, assign_data,
  map_flags_to_page_flags, map_flag_mode_mask,
}
use zeptux.Word.{shl}
use zeptux.Word.Laws.{bit_and-mask_below}
use zeptux.Page.Flags.{IsMode}
use zeptux.Page.Entries.{assign_data-back}
use zeptux.Page.Map.{Mapping, Outcome, done, advance, last_index, map_page_range_ptd}

pub entry_at-eq :
    (table i : ℕ)
    → table + 4096 ≤ 2 ^ 47
    → i < 512
    → entry_at table i ≡ kernel_direct_map_base + table + i * 8
unfolding entry_at phys_to_virt
entry_at-eq table i h lt = omega arith

store-other : (memory : Memory) (a value b : ℕ) → a ≢ b → store memory a value b ≡ memory b
unfolding store
store-other memory a value b ne = ground arith

-- A present entry that refers to the page `pa`, with the page flags of `flags`.
abbrev pub IsLeaf : ℕ → ℕ → ℕ → Type 0
IsLeaf e pa flags =
    (entry_present e ≡ true)
    × (entry_address e ≡ pa)
    × (entry_raw_flags e ≡ map_flags_to_page_flags flags)

-- The run from `s` to `t` mapped `count` pages to the entries of `ptd` from `i` on.
pub record Filled {S : Type 0} (flags ptd i count : ℕ) (s t : Mapping S) : Type 0 where
  pub mapped :
      (j : ℕ) → j < count → IsLeaf (t.memory (entry_at ptd (i + j))) (s.pa + j * 4096) flags
  pub kept : (a : ℕ) → ((j : ℕ) → j < count → entry_at ptd (i + j) ≢ a) → t.memory a ≡ s.memory a
  pub left : t.num_remaining_pages ≡ s.num_remaining_pages - count
  pub moved_va : t.va ≡ s.va + count * 4096
  pub moved_pa : t.pa ≡ s.pa + count * 4096
  pub same_tables : t.num_pagetables_allocated ≡ s.num_pagetables_allocated

-- The aligned addresses, the free entries and the bounds that a run needs.
pub record CanFill {S : Type 0} (ptd i count : ℕ) (s : Mapping S) : Type 0 where
  pub index : s.va / 4096 % 512 ≡ i
  pub va_aligned : s.va ≡ s.va / 4096 * 4096
  pub pa_aligned : s.pa ≡ s.pa / 4096 * 4096
  pub va_room : s.va + count * 4096 < 2 ^ 64
  pub pa_room : s.pa + count * 4096 < 2 ^ 48
  pub table_room : ptd + 4096 ≤ 2 ^ 47
  pub free : (j : ℕ) → j < count → entry_present (s.memory (entry_at ptd (i + j))) ≡ false

offset_pages-eq : (a : ℕ) → a ≡ a / 4096 * 4096 → a + 4096 < 2 ^ 64 → offset_pages a 1 ≡ a + 4096
unfolding offset_pages shl
offset_pages-eq a e h = omega (arith, e)

pub virt_ptde_index-eq : (va : ℕ) → va < 2 ^ 64 → virt_ptde_index va ≡ va / 4096 % 512
unfolding virt_ptde_index
virt_ptde_index-eq va h = bit_and-mask_below (va / 2 ^ 12) 9 (omega arith) (omega arith)

entry_at-injective :
    (table i k : ℕ)
    → table + 4096 ≤ 2 ^ 47
    → i < 512
    → k < 512
    → i ≢ k
    → entry_at table i ≢ entry_at table k
entry_at-injective table i k h p q ne e =
    ne (omega (arith, entry_at-eq table i h p, entry_at-eq table k h q, e))

module _ {S : Type 0} (flags ptd : ℕ) (mode : IsMode (bit_and flags map_flag_mode_mask)) where
  abbrev after_one : ℕ → Mapping S → Mapping S
  after_one i s = advance 1 (record s { memory = assign_data s.memory ptd i s.pa flags })

  -- One page, then the rest.
  one_more :
      (i count : ℕ) (s t : Mapping S)
      → i + count < 512
      → CanFill ptd i (suc count) s
      → Filled flags ptd (i + 1) count (after_one i s) t
      → Filled flags ptd i (suc count) s t
  unfolding advance assign_data
  one_more i count s t lt can rest = record {
    mapped = mapped;
    kept = λ a ne.
        rest.kept a (λ j h e. ne (suc j) (omega arith) (ap (entry_at ptd) (next_index j) ∙ e))
        ∙ store-other s.memory (entry_at ptd i) _ a
            (λ e. ne 0 (omega arith) (ap (entry_at ptd) first_index ∙ e));
    left = omega (arith, rest.left);
    moved_va =
        omega
          (arith, rest.moved_va, offset_pages-eq s.va can.va_aligned (omega (arith, can.va_room)));
    moved_pa = omega (arith, rest.moved_pa, pa_next);
    same_tables = rest.same_tables;
  }
    where
      next_index : (j : ℕ) → i + suc j ≡ i + 1 + j
      next_index j = omega arith

      first_index : i + 0 ≡ i
      first_index = omega arith

      pa_next : offset_pages s.pa 1 ≡ s.pa + 4096
      pa_next = offset_pages-eq s.pa can.pa_aligned (omega (arith, can.pa_room))

      written : t.memory (entry_at ptd i) ≡ assign_data s.memory ptd i s.pa flags (entry_at ptd i)
      written = rest.kept (entry_at ptd i) λ j h.
          entry_at-injective ptd (i + 1 + j) i can.table_room (omega arith) (omega arith)
            λ e. absurd (omega arith)

      same_pa : s.pa ≡ s.pa + 0 * 4096
      same_pa = omega arith

      pa_shift : (j : ℕ) → offset_pages s.pa 1 + j * 4096 ≡ s.pa + suc j * 4096
      pa_shift j = omega (arith, pa_next)

      mapped :
          (j : ℕ) → j < suc count → IsLeaf (t.memory (entry_at ptd (i + j))) (s.pa + j * 4096) flags
      mapped zero h =
          rw (ap (entry_at ptd) first_index, written)
            (subst (λ p. IsLeaf (assign_data s.memory ptd i s.pa flags (entry_at ptd i)) p flags)
              same_pa
              (assign_data-back s.memory ptd i s.pa flags
                (omega (arith, can.pa_room), can.pa_aligned) mode))
      mapped (suc j) h =
          subst (λ p. IsLeaf (t.memory (entry_at ptd (i + suc j))) p flags) (pa_shift j)
            (rw (next_index j) (rest.mapped j (omega arith)))

  can_next :
      (i count : ℕ) (s : Mapping S)
      → i + count < 512
      → i + 1 < 512
      → CanFill ptd i (suc count) s
      → CanFill ptd (i + 1) count (after_one i s)
  unfolding advance assign_data
  can_next i count s lt lt1 can = record {
    index = omega (
      arith,
      offset_pages-eq s.va can.va_aligned (omega (arith, can.va_room)),
      can.index,
      can.va_aligned,
    );
    va_aligned =
        omega
          (arith, offset_pages-eq s.va can.va_aligned (omega (arith, can.va_room)), can.va_aligned);
    pa_aligned =
        omega
          (arith, offset_pages-eq s.pa can.pa_aligned (omega (arith, can.pa_room)), can.pa_aligned);
    va_room =
        omega
          (arith, offset_pages-eq s.va can.va_aligned (omega (arith, can.va_room)), can.va_room);
    pa_room =
        omega
          (arith, offset_pages-eq s.pa can.pa_aligned (omega (arith, can.pa_room)), can.pa_room);
    table_room = can.table_room;
    free = λ j h.
        ap entry_present (
          store-other s.memory (entry_at ptd i) _ (entry_at ptd (i + 1 + j)) (
            entry_at-injective ptd i (i + 1 + j) can.table_room (omega arith) (omega arith)
              λ e. absurd (omega arith)))
        ∙ subst (λ k. entry_present (s.memory (entry_at ptd k)) ≡ false) (omega arith)
            (can.free (suc j) (omega arith));
  }

  -- A run over no page.
  no_more : (i : ℕ) (s : Mapping S) → Filled flags ptd i 0 s s
  no_more i s = record {
    mapped = λ j h. absurd (omega arith);
    kept = λ a _. refl;
    left = omega arith;
    moved_va = omega arith;
    moved_pa = omega arith;
    same_tables = refl;
  }

  abbrev Result : ℕ → ℕ → Mapping S → Outcome (Mapping S) → Type 0
  Result i count s r = (t : Mapping S) × (r ≡ done t) × Filled flags ptd i count s t

  one_round :
      (fuel i : ℕ) (s : Mapping S)
      → (s.num_remaining_pages == 0) ≡ false
      → entry_present (s.memory (entry_at ptd i)) ≡ false
      → virt_ptde_index s.va ≡ i
      → map_page_range_ptd (suc fuel) flags ptd s ≡ (
          if last_index i
          then done (after_one i s)
          else map_page_range_ptd fuel flags ptd (after_one i s))
  unfolding map_page_range_ptd
  one_round fuel i s some_left absent e =
      subst
        (λ k.
          entry_present (s.memory (entry_at ptd k)) ≡ false
          → map_page_range_ptd (suc fuel) flags ptd s ≡ (
              if last_index k
              then done (after_one k s)
              else map_page_range_ptd fuel flags ptd (after_one k s)))
        e
        (λ a. elim (Bool-cases (last_index (virt_ptde_index s.va))) [
          | inl l ↦ rw (some_left, a, l, a, map_page_range_ptd) refl
          | inr l ↦ rw (some_left, a, l, a, map_page_range_ptd) refl
        ])
        absent

  -- On free entries the run ends within 512 rounds and without a panic. It maps one page to each
  -- entry from the index of `va` on, until the pages or the entries run out, and changes no other
  -- word of memory. The addresses are page-aligned and stay below 2 ^ 64 and 2 ^ 48, the mode is
  -- one of the three, and the table lies in the direct mapping.
  pub map_page_range_ptd-Filled :
      (fuel i : ℕ) (s : Mapping S)
      → i < 512
      → 512 ≤ fuel + i
      → CanFill ptd i (min s.num_remaining_pages (512 - i)) s
      → Result i (min s.num_remaining_pages (512 - i)) s (map_page_range_ptd fuel flags ptd s)
  unfolding map_page_range_ptd advance
  map_page_range_ptd-Filled zero i s lt enough can = absurd (omega arith)
  map_page_range_ptd-Filled (suc fuel) i s lt enough can =
      elim (Bool-cases (s.num_remaining_pages == 0)) [
        | inl none_left ↦
            let e : min s.num_remaining_pages (512 - i) ≡ 0 = ground arith in
            rw (none_left, map_page_range_ptd, e) (s, refl, no_more i s)
        | inr some_left ↦
            let count = min (s.num_remaining_pages - 1) (512 - (i + 1)) in
            let e : min s.num_remaining_pages (512 - i) ≡ suc count = ground arith in
            let can' : CanFill ptd i (suc count) s = subst (λ c. CanFill ptd i c s) e can in
            let first : i + 0 ≡ i = omega arith in
            let absent : entry_present (s.memory (entry_at ptd i)) ≡ false =
              subst (λ k. entry_present (s.memory (entry_at ptd k)) ≡ false) first
                (can'.free 0 (omega arith)) in
            let index = virt_ptde_index-eq s.va (omega (arith, can'.va_room)) ∙ can'.index in
            rw (e, one_round fuel i s some_left absent index)
              (elim (Bool-cases (last_index i)) [
                | inl last ↦
                    let z : count ≡ 0 = ground arith in
                    rw (last, z)
                      (
                        after_one i s,
                        refl,
                        one_more i 0 s (after_one i s) (omega arith)
                            (subst (λ c. CanFill ptd i (suc c) s) z can')
                            (no_more (i + 1) (after_one i s)),
                      )
                | inr more ↦
                    let (t, ran, rest) =
                      map_page_range_ptd-Filled fuel (i + 1) (after_one i s) (ground arith)
                        (omega arith) (can_next i count s (omega arith) (ground arith) can') in
                    rw (more, ran) (t, refl, one_more i count s t (omega arith) can' rest)
              ])
      ]
