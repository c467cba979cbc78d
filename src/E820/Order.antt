-- ===== src/E820/Order.antt =====
-- `early_sort_e820` leaves the entries in order, and keeps each as often as it was there.
use zeptux.Base.{
  ℕ, zero, suc, ◌+◌, ◌-◌, ◌≤◌, ◌<◌, Bool, true, false, List, ◌≡◌, ◌⊎◌, refl, sym, ap, ◌∙◌, subst,
  ◌==◌, ltb, arith, Bool-cases, inl, inr, length,
}
use zeptux.E820.Defs.{E820Entry, EarlyBootInfo, entry_of, less, place, sort_from, early_sort_e820}
use zeptux.E820.Sort.{count, IsSorted, Placed, place-Placed, count-place}

-- Below a smaller entry there is no larger one.
less_trans : (a b c : E820Entry) → less b c ≡ true → less b a ≡ false → less c a ≡ false
unfolding less
less_trans a b c p q = ground arith

less_irrefl : (a : E820Entry) → less a a ≡ false
unfolding less
less_irrefl a = ground arith

-- The key, against an entry before its place.
key_above :
    (n : ℕ) (key : E820Entry) (es r : List E820Entry) (p : Placed n key es r)
    → IsSorted n es
    → (i : ℕ) → i < p.place_at
    → less key (entry_of es i) ≡ false
key_above n key es r p sorted i h = elim (Bool-cases (suc i == p.place_at)) [
  | inl next ↦
      less_trans (entry_of es i) (entry_of es i) key (p.below i (ground arith))
        (less_irrefl (entry_of es i))
  | inr far ↦
      let k = p.place_at - 1 in
      less_trans (entry_of es i) (entry_of es k) key (p.below k (omega arith))
        (sorted i k (ground arith) (omega (arith, p.bound)))
]

-- What stands at place `k` of the result.
abbrev Stands : (n : ℕ) (key : E820Entry) (es r : List E820Entry) → Placed n key es r → ℕ → Type 0
Stands n key es r p k =
    ((k < p.place_at) × (entry_of r k ≡ entry_of es k))
    ⊎ ((k ≡ p.place_at) × (entry_of r k ≡ key))
    ⊎ ((m : ℕ) × (k ≡ suc m) × (p.place_at ≤ m) × (entry_of r k ≡ entry_of es m))

stands :
    (n : ℕ) (key : E820Entry) (es r : List E820Entry) (p : Placed n key es r) (k : ℕ)
    → k < suc n
    → Stands n key es r p k
stands n key es r p zero h = elim (Bool-cases (0 == p.place_at)) [
  | inl here ↦
      inr (
        inl (ground arith, let e : p.place_at ≡ 0 = ground arith in ap (entry_of r) (sym e) ∙ p.at))
  | inr later ↦ inl (ground arith, p.before 0 (ground arith))
]
stands n key es r p (suc k) h = elim (Bool-cases (ltb (suc k) p.place_at)) [
  | inl before ↦ inl (ground arith, p.before (suc k) (ground arith))
  | inr rest ↦ elim (Bool-cases (p.place_at == suc k)) [
    | inl here ↦ inr (
        inl (
          ground arith,
          let e : p.place_at ≡ suc k = ground arith in ap (entry_of r) (sym e) ∙ p.at,
        ))
    | inr later ↦ inr (inr (k, refl, ground arith, p.moved k (ground arith) (omega arith)))
  ]
]

Placed-IsSorted :
    (n : ℕ) (key : E820Entry) (es r : List E820Entry)
    → Placed n key es r
    → IsSorted n es
    → IsSorted (suc n) r
Placed-IsSorted n key es r p sorted i j h lt = elim (stands n key es r p i (omega arith)) [
  | inl (a, e) ↦ elim (stands n key es r p j lt) [
    | inl (b, f) ↦ rw (e, f) (sorted i j h (omega (arith, p.bound)))
    | inr (inl (b, f)) ↦ rw (e, f) (key_above n key es r p sorted i a)
    | inr (inr (m, b, c, f)) ↦ rw (e, f) (sorted i m (omega arith) (omega arith))
  ]
  | inr (inl (a, e)) ↦ elim (stands n key es r p j lt) [
    | inl (b, f) ↦ absurd (omega arith)
    | inr (inl (b, f)) ↦ absurd (omega arith)
    | inr (inr (m, b, c, f)) ↦ rw (e, f) (p.above m c (omega arith))
  ]
  | inr (inr (l, a, c, e)) ↦ elim (stands n key es r p j lt) [
    | inl (b, f) ↦ absurd (omega arith)
    | inr (inl (b, f)) ↦ absurd (omega arith)
    | inr (inr (m, b, d, f)) ↦ rw (e, f) (sorted l m (omega arith) (omega arith))
  ]
]

record Sorts (n : ℕ) (es r : List E820Entry) : Type 0 where
  sorted : IsSorted n r
  same_length : length r ≡ length es
  same_count : (p : E820Entry → Bool) → count p r ≡ count p es

sort_from-Sorts :
    (left i : ℕ) (es : List E820Entry)
    → i + left ≤ length es
    → IsSorted i es
    → Sorts (i + left) es (sort_from left i es)
unfolding sort_from
sort_from-Sorts zero i es h s = record {
  sorted = let e : i + 0 ≡ i = omega arith in rw e s;
  same_length = refl;
  same_count = λ p. refl;
}
sort_from-Sorts (suc left) i es h s =
    let key = entry_of es i in
    let p = place-Placed i key es (omega arith) in
    let e : i + suc left ≡ suc i + left = omega arith in
    let f : i + 1 ≡ suc i = omega arith in
    let rest =
      sort_from-Sorts left (suc i) (place i key es) (omega (arith, p.same_length))
        (Placed-IsSorted i key es _ p s) in
    rw (e, f)
      (record {
        sorted = rest.sorted;
        same_length = rest.same_length ∙ p.same_length;
        same_count = λ q. omega (arith, rest.same_count q, count-place q i key es (omega arith));
      })

-- After `early_sort_e820` no entry is less than one before it, and for every test on entries as
-- many pass it as before. The array is to hold the entries that are counted.
pub early_sort_e820-IsSorted :
    (info : EarlyBootInfo)
    → info.num_e820_entries ≤ length info.e820_entries
    → IsSorted info.num_e820_entries (early_sort_e820 info).e820_entries
      × ((p : E820Entry → Bool)
          → count p (early_sort_e820 info).e820_entries ≡ count p info.e820_entries)
unfolding early_sort_e820 sort_from
early_sort_e820-IsSorted info h = elim (Bool-cases (info.num_e820_entries == 0)) [
  | inl none ↦
      let e : info.num_e820_entries ≡ 0 = ground arith in
      (rw e (λ i j a b. absurd (omega arith)), λ p. rw e refl)
  | inr some ↦
      let n = info.num_e820_entries - 1 in
      let e : 1 + n ≡ info.num_e820_entries = ground arith in
      let all =
        sort_from-Sorts n 1 info.e820_entries (omega arith) (λ i j a b. absurd (omega arith)) in
      (subst (λ k. IsSorted k (sort_from n 1 info.e820_entries)) e all.sorted, all.same_count)
]
