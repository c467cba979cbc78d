-- ===== src/Phys/CompactJoin.antt =====
-- mm/phys.c, `compact_free_blocks_locked`: a round that joins, and a block that stays as it is.
use zeptux.Base.{
  ℕ, suc, ◌+◌, ◌%◌, ◌^◌, ◌≤◌, ◌<◌, List, some, ◌≡◌, inl, inr, refl, sym, ap, subst, ◌∙◌, ◌==◌,
  arith, Bool-cases,
}
use zeptux.Phys.{Outcome, returns, max_order, Physblock, Phys, span_from, pfn_to_buddy_pfn}
use zeptux.Phys.Free.{join_physblocks_locked, compact_from}
use zeptux.Phys.Lists.{In}
use zeptux.Phys.Split.{two_pow_next}
use zeptux.Phys.Join.{join_physblocks_locked-Joined}
use zeptux.Phys.Managed.{IsManaged, Covers, Covers-trans, locked}
use zeptux.Phys.JoinLaws.{both_locked, whole_again, locked_here}
use zeptux.Phys.Rejoin.{Rejoined, join_physblocks_locked-IsManaged}
use zeptux.Phys.Tiles.{IsTiled}
use zeptux.Phys.Retile.{joined-IsTiled}
use zeptux.Phys.Compact.{SameSpan, CompactsTo, relocked}

whole_again-held :
    (m : Phys) (h n : ℕ)
    → n < max_order
    → locked (whole_again m h n) h
      ≡ join_physblocks_locked (both_locked m h n) h (h + 2 ^ n) (n + 1)
whole_again-held m h n lt =
    let joined = join_physblocks_locked-Joined (both_locked m h n) h n lt in
    relocked (join_physblocks_locked (both_locked m h n) h (h + 2 ^ n) (n + 1)) h (
      ap (λ (b : Physblock). b.lock) joined.head
      ∙ ap (λ (b : Physblock). b.lock) (locked_here m h n))

Rejoined-Covers :
    (m : Phys) (xs ys : ℕ → List ℕ) (n p : ℕ)
    → IsManaged m xs
    → n < max_order
    → In p (xs n)
    → In (p + 2 ^ n) (xs n)
    → Rejoined xs ys n p
    → Covers ys xs
Rejoined-Covers m xs ys n p ok lt at there again i q le on =
    let double = two_pow_next n in
    elim (Bool-cases (q == p)) [
      | inl e ↦
          let same : q ≡ p = ground arith in
          let size : i ≡ n =
            ok.lists.once i n p le (omega arith) (subst (λ r. In r (xs i)) same on) at in
          let width : 2 ^ i ≡ 2 ^ n = ap (λ (o : ℕ). 2 ^ o) size in
          (n + 1, p, omega arith, again.whole, omega arith, omega arith)
      | inr e ↦ elim (Bool-cases (q == p + 2 ^ n)) [
        | inl f ↦
            let same : q ≡ p + 2 ^ n = ground arith in
            let size : i ≡ n =
              ok.lists.once i n (p + 2 ^ n) le (omega arith) (subst (λ r. In r (xs i)) same on)
                there in
            let width : 2 ^ i ≡ 2 ^ n = ap (λ (o : ℕ). 2 ^ o) size in
            (n + 1, p, omega arith, again.whole, omega arith, omega arith)
        | inr f ↦ (
          i,
          q,
          le,
          again.kept i q on (λ z. ground arith) (λ z. ground arith),
          omega arith,
          omega arith,
        )
      ]
    ]

-- What the last `left` rounds do, whatever block they start with.
unfoldable pub Rounds : ℕ → Type 0
Rounds left =
    (n p : ℕ) (k : Phys) (xs : ℕ → List ℕ)
    → IsManaged k xs
    → IsTiled k xs
    → In p (xs n)
    → left + n ≡ max_order
    → CompactsTo k xs (compact_from left (locked k p) p n)

-- A round that joins, at `h`, and those that follow.
pub join-Rounds :
    (left n h i : ℕ) (k : Phys) (xs : ℕ → List ℕ)
    → Rounds left
    → IsManaged k xs
    → IsTiled k xs
    → suc left + n ≡ max_order
    → h % 2 ^ (n + 1) ≡ 0
    → In h (xs n)
    → In (h + 2 ^ n) (xs n)
    → span_from k.state.spans 0 h ≡ some i
    → span_from k.state.spans 0 (h + 2 ^ n) ≡ some i
    → CompactsTo k xs (
        compact_from left
          (join_physblocks_locked (both_locked k h n) h (h + 2 ^ n) (n + 1))
          h
          (n + 1))
unfolding Rounds
join-Rounds left n h i k xs rounds ok tiled e al at there here next =
    let lt : n < max_order = omega arith in
    let (ys, managed, again, change) =
      join_physblocks_locked-IsManaged k xs n h ok lt al at there in
    let tiles =
      joined-IsTiled k (whole_again k h n) xs ys n h i i ok tiled lt al at there here next change
        again in
    let (q, m, zs, j, result, after) =
      rounds (n + 1) h (whole_again k h n) ys managed tiles again.whole (omega arith) in
    (
      q,
      m,
      zs,
      j,
      ap (λ t. compact_from left t h (n + 1)) (sym (whole_again-held k h n lt)) ∙ result,
      record {
        managed = after.managed;
        tiled = after.tiled;
        small = after.small;
        listed = after.listed;
        kept = Covers-trans zs ys xs after.kept (Rejoined-Covers k xs ys n h ok lt at there again);
        free = after.free ∙ change.free;
        largest = after.largest;
      },
    )

-- A block that is left as it is.
pub unchanged :
    (k : Phys) (xs : ℕ → List ℕ) (n p : ℕ) (o : Outcome (ℕ × Phys))
    → IsManaged k xs
    → IsTiled k xs
    → n ≤ max_order
    → In p (xs n)
    → (n < max_order → SameSpan k p (pfn_to_buddy_pfn p n) → ¬ In (pfn_to_buddy_pfn p n) (xs n))
    → o ≡ returns (p, locked k p)
    → CompactsTo k xs o
unchanged k xs n p o ok tiled le at last e = (
  p,
  k,
  xs,
  n,
  e,
  record {
    managed = ok;
    tiled = tiled;
    small = le;
    listed = at;
    kept = λ i q li on. (i, q, li, on, omega arith, omega arith);
    free = refl;
    largest = last;
  },
)
