-- ===== src/Phys/CompactRound.antt =====
-- mm/phys.c, `compact_free_blocks_locked`: how one round of its loop goes on.
use zeptux.Base.{
  ℕ, suc, ◌+◌, ◌<◌, Option, some, none, ◌≡◌, ◌⊎◌, inl, inr, refl, ap, ◌∙◌, ◌==◌, arith, true, false,
  not, ◌||◌, Bool-cases, ltb,
}
use zeptux.Phys.{
  Outcome, returns, ◌>>=◌, physblock_free, masked_type, Phys, span_from, pfn_to_span_locked,
  pfn_to_buddy_pfn, pfn_to_physblock_lock, release_block,
}
use zeptux.Phys.Free.{physblock_to_buddy_lock, join_physblocks_locked, compact_from}
use zeptux.Phys.Managed.{locked}
use zeptux.Phys.Compact.{SameSpan, to_span}

-- The buddy is looked up where both are in the same span.
pub buddy_found :
    (m : Phys) (p n b : ℕ) (r : ℕ × Phys)
    → (m.blocks p).order ≡ n
    → pfn_to_buddy_pfn p n ≡ b
    → SameSpan m p b
    → pfn_to_physblock_lock (locked m p) b ≡ returns r
    → physblock_to_buddy_lock (locked m p) p ≡ returns (some r.0, r.1)
unfolding physblock_to_buddy_lock
buddy_found m p n b r ord buddy (i, here, there) found =
    let o : ((locked m p).blocks p).order ≡ n = ground (arith, ord) in
    let a : pfn_to_span_locked (locked m p) p ≡ some i = to_span m p p ∙ here in
    let c : pfn_to_span_locked (locked m p) b ≡ some i = to_span m p b ∙ there in
    let s : (i == i) ≡ true = ground arith in
    let looked : pfn_to_physblock_lock (locked m p)
          (pfn_to_buddy_pfn p ((locked m p).blocks p).order)
        ≡ returns r =
      ap (pfn_to_physblock_lock (locked m p)) (ap (pfn_to_buddy_pfn p) o ∙ buddy) ∙ found in
    rw (physblock_to_buddy_lock, o, buddy, a, c, s)
      (ap (λ t. t >>= (λ x. returns (some x.0, x.1))) looked)

pub buddy_lookup :
    (m : Phys) (p n b : ℕ)
    → (m.blocks p).order ≡ n
    → pfn_to_buddy_pfn p n ≡ b
    → SameSpan m p b
      ⊎ ((physblock_to_buddy_lock (locked m p) p ≡ returns (none, locked m p)) × ¬ SameSpan m p b)
unfolding physblock_to_buddy_lock
buddy_lookup m p n b ord buddy =
    by_spans (span_from m.state.spans 0 p) (span_from m.state.spans 0 b) refl refl
  where
    o : ((locked m p).blocks p).order ≡ n
    o = ground (arith, ord)

    by_spans :
        (x y : Option ℕ)
        → span_from m.state.spans 0 p ≡ x
        → span_from m.state.spans 0 b ≡ y
        → SameSpan m p b
          ⊎ ((physblock_to_buddy_lock (locked m p) p ≡ returns (none, locked m p))
              × ¬ SameSpan m p b)
    by_spans none y e f =
        let a : pfn_to_span_locked (locked m p) p ≡ none = to_span m p p ∙ e in
        inr (
          rw (physblock_to_buddy_lock, o, buddy, a) refl,
          λ (i, here, there). ground (arith, e, here),
        )
    by_spans (some i) none e f =
        let a : pfn_to_span_locked (locked m p) p ≡ some i = to_span m p p ∙ e in
        let c : pfn_to_span_locked (locked m p) b ≡ none = to_span m p b ∙ f in
        inr (
          rw (physblock_to_buddy_lock, o, buddy, a, c) refl,
          λ (j, here, there). ground (arith, f, there),
        )
    by_spans (some i) (some j) e f = elim (Bool-cases (i == j)) [
      | inl z ↦ let same : j ≡ i = ground arith in inl (i, e, f ∙ ap some same)
      | inr z ↦
          let a : pfn_to_span_locked (locked m p) p ≡ some i = to_span m p p ∙ e in
          let c : pfn_to_span_locked (locked m p) b ≡ some j = to_span m p b ∙ f in
          inr (
            rw (physblock_to_buddy_lock, o, buddy, a, c, z) refl,
            λ (t, here, there). ground (arith, z, e, f, here, there),
          )
    ]

-- A round that stops.
pub stops :
    (left : ℕ) (m : Phys) (p n : ℕ)
    → physblock_to_buddy_lock m p ≡ returns (none, m)
    → compact_from (suc left) m p n ≡ returns (p, m)
unfolding compact_from
stops left m p n e = rw e refl

module _ (left : ℕ) (m m1 : Phys) (p n f : ℕ)
    (e : physblock_to_buddy_lock m p ≡ returns (some f, m1)) where
  abbrev round : Outcome (ℕ × Phys)
  round =
      elim (not (masked_type (m1.blocks f).type == physblock_free)
        || not ((m1.blocks f).order == n)) [
          | true ↦ returns (p, release_block m1 f)
          | false ↦ elim (ltb f p) [
            | true ↦ compact_from left (join_physblocks_locked m1 f p (n + 1)) f (n + 1)
            | false ↦ compact_from left (join_physblocks_locked m1 p f (n + 1)) p (n + 1)
          ]
        ]

  compact_from-round : compact_from (suc left) m p n ≡ round
  unfolding compact_from
  compact_from-round = rw e refl

  pub stops_there :
      ¬ ((masked_type (m1.blocks f).type ≡ physblock_free) × ((m1.blocks f).order ≡ n))
      → compact_from (suc left) m p n ≡ returns (p, release_block m1 f)
  stops_there differs =
      let c : (not (masked_type (m1.blocks f).type == physblock_free)
            || not ((m1.blocks f).order == n))
          ≡ true =
        ground (arith, differs) in
      compact_from-round ∙ rw (round, c) refl

  module _ (kind : masked_type (m1.blocks f).type ≡ physblock_free)
      (order : (m1.blocks f).order ≡ n) where
    both :
        (not (masked_type (m1.blocks f).type == physblock_free) || not ((m1.blocks f).order == n))
        ≡ false
    both = ground (arith, kind, order)

    pub goes_left :
        f < p
        → compact_from (suc left) m p n
          ≡ compact_from left (join_physblocks_locked m1 f p (n + 1)) f (n + 1)
    goes_left lt =
        let l : ltb f p ≡ true = ground arith in compact_from-round ∙ rw (round, both, l) refl

    pub goes_on :
        p < f
        → compact_from (suc left) m p n
          ≡ compact_from left (join_physblocks_locked m1 p f (n + 1)) p (n + 1)
    goes_on lt =
        let l : ltb f p ≡ false = ground arith in compact_from-round ∙ rw (round, both, l) refl
