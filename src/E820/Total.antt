-- ===== src/E820/Total.antt =====
-- The total of the RAM: what `early_set_total_ram` stores, and that the early page allocator
-- accepts it.
use zeptux.Base.{
  ℕ, zero, suc, ◌+◌, ◌%◌, ◌^◌, ◌≤◌, ◌<◌, true, false, List, Option, some, none, ◌≡◌, refl, ◌==◌,
  ltb, if◌then◌else◌, inl, inr, arith, Bool-cases, ap, ◌∙◌,
}
use zeptux.Word.{is_aligned}
use zeptux.Word.Laws.{is_aligned-eq}
use zeptux.E820.Defs.{
  E820Entry, EarlyBootInfo, entry_of, e820_type_ram, max_e820_ram_entries, add_ram,
  early_set_total_ram,
}
use zeptux.E820.Normalise.{TidyBelow}

-- The bytes of the first `n` entries that are RAM, and the number of these.
abbrev pub ram_bytes : ℕ → List E820Entry → ℕ
ram_bytes zero es = 0
ram_bytes (suc n) es =
    let e = entry_of es n in ram_bytes n es + (if e.ty == e820_type_ram then e.size else 0)

abbrev pub ram_entries : ℕ → List E820Entry → ℕ
ram_entries zero es = 0
ram_entries (suc n) es = ram_entries n es + (if (entry_of es n).ty == e820_type_ram then 1 else 0)

add_ram-eq :
    (left i bytes num : ℕ) (es : List E820Entry)
    → bytes ≡ ram_bytes i es % 2 ^ 64
    → num ≡ ram_entries i es
    → ((add_ram left i bytes num es).0 ≡ ram_bytes (i + left) es % 2 ^ 64)
      × ((add_ram left i bytes num es).1 ≡ ram_entries (i + left) es)
unfolding add_ram
add_ram-eq zero i bytes num es b n = let e : i + 0 ≡ i = omega arith in rw e (b, n)
add_ram-eq (suc left) i bytes num es b n =
    let e : i + suc left ≡ suc i + left = omega arith in
    let one : i + 1 ≡ suc i = omega arith in
    elim (Bool-cases ((entry_of es i).ty == e820_type_ram)) [
      | inl ram ↦
          rw (e, ram, one)
            (add_ram-eq left (suc i) ((bytes + (entry_of es i).size) % 2 ^ 64) (num + 1) es
              (rw ram (omega (arith, b))) (rw ram (omega (arith, n))))
      | inr other ↦
          rw (e, other, one)
            (add_ram-eq left (suc i) bytes num es (rw other (omega (arith, b)))
              (rw other (omega (arith, n))))
    ]

ram_bytes-aligned : (n : ℕ) (es : List E820Entry) → TidyBelow n es → ram_bytes n es % 4096 ≡ 0
ram_bytes-aligned zero es tidy = refl
ram_bytes-aligned (suc n) es tidy =
    let before = ram_bytes-aligned n es (λ k lt. tidy k (omega arith)) in
    elim (tidy n (omega arith)) [
      | inl other ↦
          let z : ((entry_of es n).ty == e820_type_ram) ≡ false = ground arith in
          rw z (omega (arith, before))
      | inr (base, size) ↦ ground (arith, before, size)
    ]

-- The totals are stored, and are what `early_page_alloc_init` asks for.
pub record Totalled (info t : EarlyBootInfo) : Type 0 where
  pub fits : ram_entries info.num_e820_entries info.e820_entries ≤ max_e820_ram_entries
  pub bytes : t.total_avail_ram_bytes ≡ ram_bytes info.num_e820_entries info.e820_entries % 2 ^ 64
  pub spans : t.num_ram_spans ≡ ram_entries info.num_e820_entries info.e820_entries
  pub accepted : is_aligned t.total_avail_ram_bytes 4096 ≡ true
  pub same_entries :
      (t.num_e820_entries ≡ info.num_e820_entries) × (t.e820_entries ≡ info.e820_entries)

abbrev pub TotalResult : EarlyBootInfo → Option EarlyBootInfo → Type 0
TotalResult info none = max_e820_ram_entries < ram_entries info.num_e820_entries info.e820_entries
TotalResult info (some t) = Totalled info t

-- On entries that are normalised, `early_set_total_ram` stores the sum of the sizes of the RAM
-- entries, as a uint64_t, and their number, and leaves the entries alone; the sum is a multiple of
-- the page size, so that `early_page_alloc_init` does not panic on it. It panics just when there
-- are more than 72 RAM entries.
pub early_set_total_ram-TotalResult :
    (info : EarlyBootInfo)
    → TidyBelow info.num_e820_entries info.e820_entries
    → TotalResult info (early_set_total_ram info)
unfolding early_set_total_ram
early_set_total_ram-TotalResult info tidy =
    let es = info.e820_entries in
    let n = info.num_e820_entries in
    let (bytes, num) = add_ram-eq n 0 0 0 es refl refl in
    let z : 0 + n ≡ n = omega arith in
    let b = bytes ∙ ap (λ (k : ℕ). ram_bytes k es % 2 ^ 64) z in
    let m = num ∙ ap (λ (k : ℕ). ram_entries k es) z in
    elim (Bool-cases (ltb max_e820_ram_entries (add_ram n 0 0 0 es).1)) [
      | inl many ↦ rw many (ground (arith, m))
      | inr few ↦ rw few (record {
        fits = ground (arith, m);
        bytes = b;
        spans = m;
        accepted =
            let sum = ram_bytes n es % 2 ^ 64 in
            let whole : sum % 4096 ≡ 0 = omega (arith, ram_bytes-aligned n es tidy) in
            rw (b, is_aligned-eq sum 12 (omega arith) (omega arith)) (ground (arith, whole));
        same_entries = (refl, refl);
      })
    ]
