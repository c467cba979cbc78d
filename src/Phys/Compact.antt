-- ===== src/Phys/Compact.antt =====
-- mm/phys.c, `compact_free_blocks_locked`: a free block is joined with its buddy as often as it can.
use zeptux.Base.{
  ℕ, ◌+◌, ◌*◌, ◌/◌, ◌%◌, ◌^◌, ◌≤◌, ◌<◌, List, some, ◌≡◌, ◌≢◌, ◌⊎◌, inl, inr, refl, ap, ◌∙◌, ◌==◌,
  arith, Bool-cases,
}
use mathlib.Core.Path.{fun_ext}
use native.Mathlib.Nat.{mul_comm, add-mul, div-add-mod, mul-mod_left}
use zeptux.Spinlock.{spinlock_release, atomic_store_release}
use zeptux.Phys.{
  Outcome, returns, max_order, Physblock, Phys, span_from, pfn_to_span_locked, pfn_to_buddy_pfn,
  release_block,
}
use zeptux.Phys.Buddy.{pfn_to_buddy_pfn-Buddies}
use zeptux.Phys.Lists.{In}
use zeptux.Phys.Split.{two_pow_next}
use zeptux.Phys.Managed.{IsManaged, Covers, locked}
use zeptux.Phys.Tiles.{IsTiled}

-- The buddy of an aligned block is its right neighbour or its left one.
pub halves :
    (n p : ℕ)
    → n ≤ max_order
    → p < 2 ^ 64
    → p % 2 ^ n ≡ 0
    → (h : ℕ) × (h % 2 ^ (n + 1) ≡ 0)
      × (h % 2 ^ n ≡ 0)
      × ((h + 2 ^ n) % 2 ^ n ≡ 0)
      × (((p ≡ h) × (pfn_to_buddy_pfn p n ≡ h + 2 ^ n))
          ⊎ ((p ≡ h + 2 ^ n) × (pfn_to_buddy_pfn p n ≡ h)))
halves n p le lt al =
    let d = p / 2 ^ n in
    let e = d / 2 in
    let h = e * 2 ^ (n + 1) in
    let whole : 2 ^ n * d + p % 2 ^ n ≡ p = div-add-mod p (2 ^ n) in
    let even : h ≡ (e + e) * 2 ^ n =
      ap (λ (t : ℕ). e * t) (two_pow_next n)
      ∙ omega (
        arith,
        mul_comm e (2 ^ n + 2 ^ n),
        add-mul (2 ^ n) (2 ^ n) e,
        add-mul e e (2 ^ n),
        mul_comm (2 ^ n) e,
      ) in
    let aligned : h % 2 ^ (n + 1) ≡ 0 = mul-mod_left e (2 ^ (n + 1)) in
    let left : h % 2 ^ n ≡ 0 = ap (λ (t : ℕ). t % 2 ^ n) even ∙ mul-mod_left (e + e) (2 ^ n) in
    let next : (h + 2 ^ n) % 2 ^ n ≡ 0 =
      ap (λ (t : ℕ). t % 2 ^ n) (omega (arith, even, add-mul (e + e) 1 (2 ^ n)))
      ∙ mul-mod_left (e + e + 1) (2 ^ n) in
    (
      h,
      aligned,
      left,
      next,
      elim (Bool-cases (d % 2 == 0)) [
        | inl z ↦
            let two : d ≡ e + e = ground arith in
            let same : p ≡ h =
              omega (arith, whole, al, even, mul_comm (2 ^ n) d, ap (λ (t : ℕ). t * 2 ^ n) two) in
            let (twice, both) = pfn_to_buddy_pfn-Buddies n h le (omega (arith, same)) in
            inl (same, ap (λ t. pfn_to_buddy_pfn t n) same ∙ (both aligned).0)
        | inr z ↦
            let two : d ≡ e + e + 1 = ground arith in
            let same : p ≡ h + 2 ^ n = omega (
              arith,
              whole,
              al,
              even,
              mul_comm (2 ^ n) d,
              ap (λ (t : ℕ). t * 2 ^ n) two,
              add-mul (e + e) 1 (2 ^ n),
            ) in
            let (twice, both) = pfn_to_buddy_pfn-Buddies n h le (omega (arith, same)) in
            inr (same, ap (λ t. pfn_to_buddy_pfn t n) same ∙ (both aligned).1)
      ],
    )

-- Both lie in the same span.
abbrev pub SameSpan : Phys → ℕ → ℕ → Type 0
SameSpan m p q =
    (i : ℕ) × (span_from m.state.spans 0 p ≡ some i) × (span_from m.state.spans 0 q ≡ some i)

-- `k` has the free blocks of `m`, of which some are joined, and the one at `q` cannot be any more.
pub record Compacted (m k : Phys) (xs ys : ℕ → List ℕ) (q i : ℕ) : Type 0 where
  pub managed : IsManaged k ys
  pub tiled : IsTiled k ys
  pub small : i ≤ max_order
  pub listed : In q (ys i)
  pub kept : Covers ys xs
  pub free : k.state.stats.num_free_4k_pages ≡ m.state.stats.num_free_4k_pages
  pub largest :
      i < max_order → SameSpan k q (pfn_to_buddy_pfn q i) → ¬ In (pfn_to_buddy_pfn q i) (ys i)

abbrev pub CompactsTo : Phys → (ℕ → List ℕ) → Outcome (ℕ × Phys) → Type 0
CompactsTo m xs o =
    (q : ℕ) × (k : Phys) × (ys : ℕ → List ℕ) × (i : ℕ) × (o ≡ returns (q, locked k q))
    × Compacted m k xs ys q i

-- A lock that is released is taken again.
pub relocked : (m : Phys) (p : ℕ) → (m.blocks p).lock ≡ 1 → locked (release_block m p) p ≡ m
unfolding release_block spinlock_release atomic_store_release
relocked m p held =
    ap (λ (b : ℕ → Physblock). record m { blocks = b })
      (fun_ext (λ q. elim (Bool-cases (q == p)) [
        | inl e ↦ let same : p ≡ q = ground arith in ground arith
        | inr e ↦ ground arith
      ]))

pub locked_twice : (m : Phys) (p q : ℕ) → p ≢ q → locked (locked m p) q ≡ locked (locked m q) p
locked_twice m p q ne =
    ap (λ (b : ℕ → Physblock). record m { blocks = b })
      (fun_ext (λ r. elim (Bool-cases (r == p)) [
        | inl e ↦ let same : r ≡ p = ground arith in ground arith
        | inr e ↦ ground arith
      ]))

pub to_span : (m : Phys) (p q : ℕ) → pfn_to_span_locked (locked m p) q ≡ span_from m.state.spans 0 q
unfolding pfn_to_span_locked
to_span m p q = refl
