-- ===== src/E820/Normalise.antt =====
-- `early_normalise_e820` ends, and leaves only page-aligned RAM entries.
use zeptux.Base.{
  ℕ, zero, suc, ◌+◌, ◌-◌, ◌*◌, ◌/◌, ◌%◌, ◌^◌, ◌≤◌, ◌<◌, false, not, ◌&&◌, List, [], ◌∷◌, ◌≡◌, ◌≢◌,
  ◌⊎◌, refl, ◌∙◌, subst, ◌==◌, ltb, arith, Bool-cases, if-elim, inl, inr, length, set, Option, some,
  length-set,
}
use zeptux.Word.Laws.{align-eq, align_up-eq, is_aligned-eq}
use zeptux.E820.Defs.{
  E820Entry, EarlyBootInfo, entry_of, e820_type_ram, Fate, leave, delete, resize, fate, shift_down,
  delete_e820_entry, normalise_from, early_normalise_e820,
}
use zeptux.E820.Sort.{got-other, got-here}

-- An entry that ends at least a page before the end of the address space.
abbrev pub Fits : E820Entry → Type 0
Fits e = e.base + e.size + 4096 ≤ 2 ^ 64

-- The RAM of `e` that whole pages hold: what the fate of `e` keeps of it.
abbrev pub Keeps : E820Entry → Fate → Type 0
Keeps e leave = (e.ty ≢ e820_type_ram) ⊎ ((e.base % 4096 ≡ 0) × (e.size % 4096 ≡ 0))
Keeps e (resize start size) =
    (e.ty ≡ e820_type_ram)
    × (0 < size)
    × (start % 4096 ≡ 0)
    × (size % 4096 ≡ 0)
    × (e.base ≤ start)
    × (start < e.base + 4096)
    × (start + size ≤ e.base + e.size)
    × (e.base + e.size < start + size + 4096)
Keeps e delete =
    (e.ty ≡ e820_type_ram)
    × ((page : ℕ) → e.base ≤ page * 4096 → e.base + e.size < page * 4096 + 4096)

-- The fate of an entry that ends at least a page below 2 ^ 64. An entry is left alone if it is no
-- RAM or is aligned; cut to the pages that lie in it wholly, all of them and at least one; or
-- deleted if no page lies in it wholly.
pub fate-Keeps : (e : E820Entry) → Fits e → Keeps e (fate e)
unfolding fate
fate-Keeps e h =
    let last : (e.base + e.size) % 2 ^ 64 ≡ e.base + e.size = omega arith in
    let up = align_up-eq e.base 12 (omega arith) (omega arith) in
    let down = align-eq (e.base + e.size) 12 (omega arith) (omega arith) in
    let a1 = is_aligned-eq e.base 12 (omega arith) (omega arith) in
    let a2 = is_aligned-eq (e.base + e.size) 12 (omega arith) (omega arith) in
    rw (last, up, down, a1, a2)
      (if-elim (Keeps e) (not (e.ty == e820_type_ram)) (λ t. inl (ground arith))
        λ t.
          if-elim (Keeps e) ((e.base % 2 ^ 12 == 0) && ((e.base + e.size) % 2 ^ 12 == 0))
            (λ a. inr (ground arith))
            λ a.
              if-elim (Keeps e)
                (ltb ((e.base + 2 ^ 12 - 1) / 2 ^ 12 * 2 ^ 12)
                  ((e.base + e.size) / 2 ^ 12 * 2 ^ 12))
                (λ b. (
                  ground arith,
                  ground arith,
                  ground arith,
                  ground arith,
                  ground arith,
                  ground arith,
                  ground arith,
                  ground arith,
                ))
                λ b. (ground arith, λ page le. ground arith))

-- A RAM entry is made of whole pages.
abbrev pub IsTidy : E820Entry → Type 0
IsTidy e = (e.ty ≢ e820_type_ram) ⊎ ((e.base % 4096 ≡ 0) × (e.size % 4096 ≡ 0))

abbrev pub TidyBelow : ℕ → List E820Entry → Type 0
TidyBelow n es = (k : ℕ) → k < n → IsTidy (entry_of es k)

abbrev pub AllFit : List E820Entry → Type 0
AllFit es = (k : ℕ) → Fits (entry_of es k)

set-AllFit :
    (es : List E820Entry) (i : ℕ) (v : E820Entry) → AllFit es → Fits v → AllFit (set es i v)
set-AllFit [] i v h f k = h k
set-AllFit (e ∷ es) zero v h f zero = f
set-AllFit (e ∷ es) zero v h f (suc k) = h (suc k)
set-AllFit (e ∷ es) (suc i) v h f zero = h 0
set-AllFit (e ∷ es) (suc i) v h f (suc k) = set-AllFit es i v (λ j. h (suc j)) f k

-- A shift down from `i` keeps what stands below `i`, and brings in nothing new.
record Shifted (i : ℕ) (es r : List E820Entry) : Type 0 where
  same_length : length r ≡ length es
  below : (k : ℕ) → k < i → entry_of r k ≡ entry_of es k
  fits : AllFit r

shift_down-Shifted :
    (left i : ℕ) (es : List E820Entry)
    → i + left ≤ length es
    → AllFit es
    → Shifted i es (shift_down left i es)
unfolding shift_down
shift_down-Shifted zero i es h f = record { same_length = refl; below = λ k lt. refl; fits = f }
shift_down-Shifted (suc left) i es h f =
    let v = entry_of es (i + 1) in
    let rest =
      shift_down-Shifted left (i + 1) (set es i v) (omega (arith, length-set es i v))
        (set-AllFit es i v f (f (i + 1))) in
    record {
      same_length = rest.same_length ∙ length-set es i v;
      below = λ k lt.
          rest.below k (omega arith) ∙ got-other es i v k (omega arith) λ e. absurd (omega arith);
      fits = rest.fits;
    }

pub record Tidied (info : EarlyBootInfo) (r : Option EarlyBootInfo) : Type 0 where
  pub final : EarlyBootInfo
  pub returns : r ≡ some final
  pub fewer : final.num_e820_entries ≤ info.num_e820_entries
  pub tidy : TidyBelow final.num_e820_entries final.e820_entries

-- What the loop relies on before the round for entry `i`.
record Ready (i : ℕ) (info : EarlyBootInfo) : Type 0 where
  inside : i ≤ info.num_e820_entries
  held : info.num_e820_entries ≤ length info.e820_entries
  fits : AllFit info.e820_entries
  tidy : TidyBelow i info.e820_entries

next-Ready :
    (i : ℕ) (info : EarlyBootInfo) (v : E820Entry)
    → Ready i info
    → i < info.num_e820_entries
    → Fits v
    → IsTidy v
    → Ready (i + 1) (record info { e820_entries = set info.e820_entries i v })
next-Ready i info v r lt f t = record {
  inside = omega arith;
  held = omega (arith, length-set info.e820_entries i v, r.held);
  fits = set-AllFit info.e820_entries i v r.fits f;
  tidy = λ k h. elim (Bool-cases (i == k)) [
    | inl here ↦
        let e : i ≡ k = ground arith in
        subst (λ x. IsTidy (entry_of (set info.e820_entries i v) x)) e
          (rw (got-here info.e820_entries i v (omega (arith, r.held))) t)
    | inr other ↦
        rw (got-other info.e820_entries i v k (omega (arith, r.held)) (ground arith))
          (r.tidy k (ground arith))
  ];
}

leave-Ready :
    (i : ℕ) (info : EarlyBootInfo)
    → Ready i info
    → i < info.num_e820_entries
    → IsTidy (entry_of info.e820_entries i)
    → Ready (i + 1) info
leave-Ready i info r lt t = record {
  inside = omega arith;
  held = r.held;
  fits = r.fits;
  tidy = λ k h. elim (Bool-cases (i == k)) [
    | inl here ↦
        let e : i ≡ k = ground arith in subst (λ x. IsTidy (entry_of info.e820_entries x)) e t
    | inr other ↦ r.tidy k (ground arith)
  ];
}

abbrev shorter : ℕ → EarlyBootInfo → EarlyBootInfo
shorter i info = record info {
  num_e820_entries = info.num_e820_entries - 1;
  e820_entries = shift_down (info.num_e820_entries - 1 - i) i info.e820_entries;
}

delete-Ready :
    (i : ℕ) (info : EarlyBootInfo)
    → Ready i info
    → i < info.num_e820_entries
    → Ready i (shorter i info)
delete-Ready i info r lt =
    let s =
      shift_down-Shifted (info.num_e820_entries - 1 - i) i info.e820_entries (omega (arith, r.held))
        r.fits in
    record {
      inside = omega arith;
      held = omega (arith, s.same_length, r.held);
      fits = s.fits;
      tidy = λ k h. rw (s.below k h) (r.tidy k h);
    }

Fate-cases :
    (f : Fate) → (f ≡ leave) ⊎ (f ≡ delete) ⊎ ((start : ℕ) × (size : ℕ) × (f ≡ resize start size))
Fate-cases leave = inl refl
Fate-cases delete = inr (inl refl)
Fate-cases (resize start size) = inr (inr (start, size, refl))

normalise_from-Tidied :
    (fuel i : ℕ) (info : EarlyBootInfo)
    → info.num_e820_entries - i < fuel
    → Ready i info
    → Tidied info (normalise_from fuel i info)
unfolding normalise_from delete_e820_entry
normalise_from-Tidied zero i info h r = absurd (omega arith)
normalise_from-Tidied (suc fuel) i info h r = elim (Bool-cases (ltb i info.num_e820_entries)) [
  | inr past ↦
      let e : i ≡ info.num_e820_entries = ground (arith, r.inside) in
      rw (past, normalise_from)
        (record {
          final = info;
          returns = refl;
          fewer = omega arith;
          tidy = subst (λ n. TidyBelow n info.e820_entries) e r.tidy;
        })
  | inl more ↦
      let lt : i < info.num_e820_entries = ground arith in
      let e = entry_of info.e820_entries i in
      let keeps = fate-Keeps e (r.fits i) in
      elim (Fate-cases (fate e)) [
        | inl left_alone ↦
            let t : IsTidy e = subst (Keeps e) left_alone keeps in
            let rest =
              normalise_from-Tidied fuel (i + 1) info (omega arith) (leave-Ready i info r lt t) in
            rw (more, left_alone, normalise_from) rest
        | inr (inl deleted) ↦
            let z : (info.num_e820_entries == 0) ≡ false = ground arith in
            let rest =
              normalise_from-Tidied fuel i (shorter i info) (omega arith)
                (delete-Ready i info r lt) in
            rw (more, deleted, normalise_from, z)
              (record {
                final = rest.final;
                returns = rest.returns;
                fewer = omega (arith, rest.fewer);
                tidy = rest.tidy;
              })
        | inr (inr (start, size, resized)) ↦
            let k : Keeps e (resize start size) = subst (Keeps e) resized keeps in
            let v : E820Entry = record e { base = start; size = size } in
            let f : Fits v = ground (arith, r.fits i, k) in
            let t : IsTidy v = inr (ground (arith, k), ground (arith, k)) in
            let rest =
              normalise_from-Tidied fuel (i + 1)
                (record info { e820_entries = set info.e820_entries i v }) (omega arith)
                (next-Ready i info v r lt f t) in
            rw (more, resized, normalise_from)
              (record {
                final = rest.final;
                returns = rest.returns;
                fewer = rest.fewer;
                tidy = rest.tidy;
              })
      ]
]

-- `early_normalise_e820` ends without a panic, with at most as many entries as before, and every
-- RAM entry that is left begins and ends at a page boundary. The array is to hold the entries
-- that are counted, each of which ends at least a page below 2 ^ 64.
pub early_normalise_e820-Tidied :
    (info : EarlyBootInfo)
    → info.num_e820_entries ≤ length info.e820_entries
    → AllFit info.e820_entries
    → Tidied info (early_normalise_e820 info)
unfolding early_normalise_e820
early_normalise_e820-Tidied info held fits =
    normalise_from-Tidied (info.num_e820_entries + 1) 0 info (omega arith) (record {
      inside = omega arith;
      held = held;
      fits = fits;
      tidy = λ k h. absurd (omega arith);
    })
