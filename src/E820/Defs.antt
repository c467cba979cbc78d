-- ===== src/E820/Defs.antt =====
-- The E820 entries of `struct early_boot_info`, sorted, merged, aligned and added up.
use zeptux.Base.{
  ℕ, zero, suc, ◌+◌, ◌-◌, ◌/◌, ◌%◌, ◌^◌, Bool, true, false, not, ◌&&◌, ◌||◌, List, ◌==◌, ltb,
  if◌then◌else◌, Option, some, none, get_or, set,
}
use zeptux.Word.{align, align_up, is_aligned}
use zeptux.Range.{RangePair, separate, adjacent, overlap, coincide, range_compare}

-- `struct e820_entry`; `ty` is the field `type`.
pub record E820Entry : Type 0 where
  pub base : ℕ
  pub size : ℕ
  pub ty : ℕ

abbrev pub e820_type_ram : ℕ
e820_type_ram = 1

-- `(PAGE_SIZE - sizeof(struct early_page_alloc_state)) / sizeof(struct early_page_alloc_span)`, of
-- which the first is 48 and the second 56.
abbrev pub max_e820_ram_entries : ℕ
max_e820_ram_entries = (4096 - 48) / 56

-- `struct early_boot_info`. The array has no declared length.
pub record EarlyBootInfo : Type 0 where
  pub total_avail_ram_bytes : ℕ
  pub num_ram_spans : ℕ
  pub apic_base : ℕ
  pub kernel_elf_size_bytes : ℕ
  pub num_e820_entries : ℕ
  pub e820_entries : List E820Entry

-- What is read past the end of the memory that is modelled.
abbrev pub no_entry : E820Entry
no_entry = record { base = 0; size = 0; ty = 0 }

abbrev pub entry_of : List E820Entry → ℕ → E820Entry
entry_of es i = get_or es i no_entry

unfoldable pub less : E820Entry → E820Entry → Bool
less a b = ltb a.base b.base || ((a.base == b.base) && ltb a.size b.size)

-- The inner loop, from `j = i - 1` down: here `i` is `j + 1`, the place that is free.
unfoldable pub place : ℕ → E820Entry → List E820Entry → List E820Entry
place zero key es = set es 0 key
place (suc j) key es = elim (less (entry_of es j) key) [
  | true ↦ set es (suc j) key
  | false ↦ place j key (set es (suc j) (entry_of es j))
]

-- The outer loop: `left` rounds, from `i` on.
unfoldable pub sort_from : ℕ → ℕ → List E820Entry → List E820Entry
sort_from zero i es = es
sort_from (suc left) i es = sort_from left (i + 1) (place i (entry_of es i) es)

unfoldable pub early_sort_e820 : EarlyBootInfo → EarlyBootInfo
early_sort_e820 info = record info {
  e820_entries = sort_from (info.num_e820_entries - 1) 1 info.e820_entries;
}

-- `from` and `to` are uint64_t.
unfoldable pub entry_range : E820Entry → RangePair
entry_range e = record { from = e.base; to = (e.base + e.size + 2 ^ 64 - 1) % 2 ^ 64 }

-- `keep:` moves to the next place, and copies the entry there unless it stands there.
unfoldable pub keep : ℕ → ℕ → List E820Entry → ℕ × List E820Entry
keep curr_index i es =
    let next = curr_index + 1 in (next, if next == i then es else set es next (entry_of es i))

-- One round of the loop of `early_merge_e820`.
unfoldable pub merge_round : ℕ → ℕ → List E820Entry → ℕ × List E820Entry
merge_round curr_index i es =
    let curr = entry_of es curr_index in
    let entry = entry_of es i in
    let curr_range = entry_range curr in
    let range = entry_range entry in
    let grown = record curr {
      size = (curr.size + (range.to + 2 ^ 64 - curr_range.to) % 2 ^ 64) % 2 ^ 64;
    } in
    let kept = keep curr_index i es in
    let merged : ℕ × List E820Entry = (curr_index, set es curr_index grown) in
    let by_range : ℕ × List E820Entry = elim (range_compare curr_range range) [
      | separate ↦ kept
      | adjacent ↦ merged
      | overlap ↦ merged
      | coincide ↦ (curr_index, es)
    ] in
    if entry.ty == curr.ty then by_range else kept

unfoldable pub merge_from : ℕ → ℕ → ℕ → List E820Entry → ℕ × List E820Entry
merge_from zero curr_index i es = (curr_index, es)
merge_from (suc left) curr_index i es =
    let r = merge_round curr_index i es in merge_from left (r.0) (i + 1) (r.1)

unfoldable pub early_merge_e820 : EarlyBootInfo → EarlyBootInfo
early_merge_e820 info =
    let r = merge_from (info.num_e820_entries - 1) 0 1 info.e820_entries in
    record info { num_e820_entries = r.0 + 1; e820_entries = r.1 }

-- `for (i = index; i < num_e820_entries - 1; i++)`, with `left` rounds.
unfoldable pub shift_down : ℕ → ℕ → List E820Entry → List E820Entry
shift_down zero i es = es
shift_down (suc left) i es = shift_down left (i + 1) (set es i (entry_of es (i + 1)))

-- `none` is the panic "0 e820 entries?".
unfoldable pub delete_e820_entry : EarlyBootInfo → ℕ → Option EarlyBootInfo
delete_e820_entry info index =
    if info.num_e820_entries == 0
    then none
    else some (record info {
      num_e820_entries = info.num_e820_entries - 1;
      e820_entries = shift_down (info.num_e820_entries - 1 - index) index info.e820_entries;
    })

-- What a round of `early_normalise_e820` does with an entry: leave it, give it a new range, or
-- delete it.
pub data Fate : Type 0 where
  leave delete : Fate
  resize : ℕ → ℕ → Fate

unfoldable pub fate : E820Entry → Fate
fate e =
    let last = (e.base + e.size) % 2 ^ 64 in
    let start = align_up e.base 4096 in
    let finish = align last 4096 in
    if not (e.ty == e820_type_ram)
    then leave
    else if is_aligned e.base 4096 && is_aligned last 4096
    then leave
    else if ltb start finish
    then resize start (finish - start)
    else delete

-- The loop, on fuel: a round either moves on to the next entry or takes one entry away.
unfoldable pub normalise_from : ℕ → ℕ → EarlyBootInfo → Option EarlyBootInfo
normalise_from zero i info = none
normalise_from (suc fuel) i info =
    let e = entry_of info.e820_entries i in
    let go : Fate → Option EarlyBootInfo = λ f. elim f [
      | leave ↦ normalise_from fuel (i + 1) info
      | resize start size ↦ normalise_from fuel (i + 1) (record info {
        e820_entries = set info.e820_entries i (record e { base = start; size = size });
      })
      | delete ↦ elim (delete_e820_entry info i) [
        | none ↦ none
        | some shorter ↦ normalise_from fuel i shorter
      ]
    ] in
    elim (ltb i info.num_e820_entries) [ true ↦ go (fate e) | false ↦ some info ]

unfoldable pub early_normalise_e820 : EarlyBootInfo → Option EarlyBootInfo
early_normalise_e820 info = normalise_from (info.num_e820_entries + 1) 0 info

-- The bytes and the number of the RAM entries, `left` of them from `i` on.
unfoldable pub add_ram : ℕ → ℕ → ℕ → ℕ → List E820Entry → ℕ × ℕ
add_ram zero i bytes num es = (bytes, num)
add_ram (suc left) i bytes num es =
    let e = entry_of es i in
    if e.ty == e820_type_ram
    then add_ram left (i + 1) ((bytes + e.size) % 2 ^ 64) (num + 1) es
    else add_ram left (i + 1) bytes num es

-- `none` is the panic on too many RAM entries.
unfoldable pub early_set_total_ram : EarlyBootInfo → Option EarlyBootInfo
early_set_total_ram info =
    let (bytes, num) = add_ram info.num_e820_entries 0 0 0 info.e820_entries in
    if ltb max_e820_ram_entries num
    then none
    else some (record info { total_avail_ram_bytes = bytes; num_ram_spans = num })
