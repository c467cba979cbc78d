-- ===== src/Phys/CompactLoop.antt =====
-- mm/phys.c, `compact_free_blocks_locked`: its rounds keep the state well-formed, and end with the
-- largest block there is.
use zeptux.Base.{
  ℕ, zero, suc, ◌+◌, ◌-◌, ◌%◌, ◌^◌, ◌≤◌, List, some, ◌≡◌, ◌≢◌, ◌⊎◌, inl, inr, refl, sym, ap, subst,
  ◌∙◌, ◌==◌, arith, Bool-cases,
}
use zeptux.Phys.{returns, max_order, physblock_free, masked_type, Phys, span_from, pfn_to_buddy_pfn}
use zeptux.Phys.Free.{
  physblock_to_buddy_lock, join_physblocks_locked, compact_from, compact_free_blocks_locked,
}
use zeptux.Phys.Buddy.{two_pow_pos}
use zeptux.Phys.Lists.{In}
use zeptux.Phys.Managed.{IsFreeBlock, IsManaged, locked}
use zeptux.Phys.Tiles.{IsTiled, Found, lookup, unlocked_again}
use zeptux.Phys.Compact.{SameSpan, CompactsTo, halves, locked_twice}
use zeptux.Phys.CompactRound.{buddy_found, buddy_lookup, stops, stops_there, goes_left, goes_on}
use zeptux.Phys.CompactJoin.{Rounds, join-Rounds, unchanged}

-- One round before those that follow it.
module _ (left n p : ℕ) (k : Phys) (xs : ℕ → List ℕ) (rounds : Rounds left) (ok : IsManaged k xs)
    (tiled : IsTiled k xs) (at : In p (xs n)) (e : suc left + n ≡ max_order) where
  block : IsFreeBlock (k.blocks p) n p
  block = ok.block n p (omega arith) at

  abbrev b : ℕ
  b = pfn_to_buddy_pfn p n

  locked_type : (f : ℕ) → f ≢ p → ((locked (locked k p) f).blocks f).type ≡ (k.blocks f).type
  locked_type f ne = ground arith

  locked_order : (f : ℕ) → f ≢ p → ((locked (locked k p) f).blocks f).order ≡ (k.blocks f).order
  locked_order f ne = ground arith

  locked_lock : (f : ℕ) → f ≢ p → ((locked k p).blocks f).lock ≡ 0
  locked_lock f ne = ground (arith, ok.quiet f)

  Same : Type 0
  Same = SameSpan k p b

  -- The lookup found another block, or one that is in use or of another order.
  round_stops :
      (f : ℕ)
      → Found k xs n p b f
      → physblock_to_buddy_lock (locked k p) p ≡ returns (some f, locked (locked k p) f)
      → ¬ ((masked_type (k.blocks f).type ≡ physblock_free) × ((k.blocks f).order ≡ n))
      → CompactsTo k xs (compact_from (suc left) (locked k p) p n)
  round_stops f found look differs =
      unchanged k xs n p (compact_from (suc left) (locked k p) p n) ok tiled (omega arith) at
        (λ lt same there.
          let there_free = ok.block n b (omega arith) there in
          let here = found.found there in
          differs (
            ap (λ r. masked_type (k.blocks r).type) here ∙ ap masked_type there_free.type,
            ap (λ r. (k.blocks r).order) here ∙ there_free.order,
          ))
        (stops_there left (locked k p) (locked (locked k p) f) p n f look (λ (kind, order).
            differs (
              ap masked_type (sym (locked_type f found.other)) ∙ kind,
              sym (locked_order f found.other) ∙ order,
            ))
          ∙ ap (λ (m : Phys). returns (p, m))
              (unlocked_again (locked k p) f (locked_lock f found.other)))

  module _ (i f : ℕ) (found : Found k xs n p b f) (here : span_from k.state.spans 0 p ≡ some i)
      (there : span_from k.state.spans 0 b ≡ some i)
      (look : physblock_to_buddy_lock (locked k p) p ≡ returns (some f, locked (locked k p) f))
      (kind : masked_type (k.blocks f).type ≡ physblock_free) (order : (k.blocks f).order ≡ n) where
    buddy : f ≡ b
    buddy = (found.free kind order).0

    kind_held : masked_type ((locked (locked k p) f).blocks f).type ≡ physblock_free
    kind_held = ap masked_type (locked_type f found.other) ∙ kind

    order_held : ((locked (locked k p) f).blocks f).order ≡ n
    order_held = locked_order f found.other ∙ order

    joins_on :
        p % 2 ^ (n + 1) ≡ 0
        → b ≡ p + 2 ^ n
        → CompactsTo k xs (compact_from (suc left) (locked k p) p n)
    joins_on al right =
        let same : f ≡ p + 2 ^ n = buddy ∙ right in
        let pos = two_pow_pos n in
        subst (CompactsTo k xs)
          (sym (
            goes_on left (locked k p) (locked (locked k p) f) p n f look kind_held order_held
              (omega arith)
            ∙ ap
                (λ t.
                  compact_from left (join_physblocks_locked (locked (locked k p) t) p t (n + 1)) p
                    (n + 1))
                same))
          (join-Rounds left n p i k xs rounds ok tiled e al at
            (subst (λ r. In r (xs n)) right (found.free kind order).1) here
            (subst (λ r. span_from k.state.spans 0 r ≡ some i) right there))

    joins_left :
        f % 2 ^ (n + 1) ≡ 0
        → p ≡ f + 2 ^ n
        → CompactsTo k xs (compact_from (suc left) (locked k p) p n)
    joins_left al right =
        let pos = two_pow_pos n in
        subst (CompactsTo k xs)
          (sym (
            goes_left left (locked k p) (locked (locked k p) f) p n f look kind_held order_held
              (omega arith)
            ∙ ap (λ t. compact_from left (join_physblocks_locked t f p (n + 1)) f (n + 1))
                (locked_twice k p f (λ z. found.other (sym z)))
            ∙ ap
                (λ t.
                  compact_from left (join_physblocks_locked (locked (locked k f) t) f t (n + 1)) f
                    (n + 1))
                right))
          (join-Rounds left n f i k xs rounds ok tiled e al
            (subst (λ r. In r (xs n)) (sym buddy) (found.free kind order).1)
            (subst (λ r. In r (xs n)) right at)
            (subst (λ r. span_from k.state.spans 0 r ≡ some i) (sym buddy) there)
            (subst (λ r. span_from k.state.spans 0 r ≡ some i) right here))

  compact_round : CompactsTo k xs (compact_from (suc left) (locked k p) p n)
  compact_round =
      let (h, al, first, second, side) =
        halves n p (omega arith) (omega (arith, block.fits)) block.aligned in
      elim (buddy_lookup k p n b block.order refl) [
        | inr (none_found, apart) ↦
            unchanged k xs n p (compact_from (suc left) (locked k p) p n) ok tiled (omega arith) at
              (λ lt same there. apart same) (stops left (locked k p) p n none_found)
        | inl (i, here, there) ↦
            let beside : (b ≡ p + 2 ^ n) ⊎ (p ≡ b + 2 ^ n) = elim side [
              | inl (l, r) ↦ inl (omega (arith, l, r))
              | inr (l, r) ↦ inr (omega (arith, l, r))
            ] in
            let aligned : b % 2 ^ n ≡ 0 = elim side [
              | inl (l, r) ↦ ap (λ (t : ℕ). t % 2 ^ n) r ∙ second
              | inr (l, r) ↦ ap (λ (t : ℕ). t % 2 ^ n) r ∙ first
            ] in
            let (f, found) = lookup k xs n p b i ok tiled (omega arith) at beside aligned there in
            let look =
              buddy_found k p n b (f, locked (locked k p) f) block.order refl (i, here, there)
                found.result in
            elim (Bool-cases (masked_type (k.blocks f).type == physblock_free)) [
              | inr used ↦ round_stops f found look (λ (kind, order). ground (arith, used, kind))
              | inl is_free ↦ elim (Bool-cases ((k.blocks f).order == n)) [
                | inr other ↦
                    round_stops f found look (λ (kind, order). ground (arith, other, order))
                | inl same ↦
                    let kind : masked_type (k.blocks f).type ≡ physblock_free =
                      ground (arith, is_free) in
                    let order : (k.blocks f).order ≡ n = ground (arith, same) in
                    elim side [
                      | inl (l, r) ↦
                          joins_on i f found here there look kind order
                            (ap (λ (t : ℕ). t % 2 ^ (n + 1)) l ∙ al) (omega (arith, l, r))
                      | inr (l, r) ↦
                          let is_buddy = (found.free kind order).0 in
                          joins_left i f found here there look kind order
                            (ap (λ (t : ℕ). t % 2 ^ (n + 1)) (is_buddy ∙ r) ∙ al)
                            (omega (arith, l, r, is_buddy))
                    ]
              ]
            ]
      ]

compact_from-Rounds : (left : ℕ) → Rounds left
unfolding Rounds compact_from
compact_from-Rounds zero n p k xs ok tiled at e =
    unchanged k xs n p (compact_from zero (locked k p) p n) ok tiled (omega arith) at
      (λ lt same there. omega arith) refl
compact_from-Rounds (suc left) n p k xs ok tiled at e =
    compact_round left n p k xs (compact_from-Rounds left) ok tiled at e

-- In a well-formed state where every physblock of a span is the head or a tail of a block, and the
-- blocks of free type are the listed ones, compaction of a listed block, with its lock held, ends
-- without panic or deadlock. It gives a listed block, with its lock held, in a state that is such a
-- state again once that lock is released. The number of free pages is the same, every block that
-- was free lies in one that is, and the block that it gives has the largest order, or its buddy is
-- no listed block of its order in its span.
pub compact_free_blocks_locked-CompactsTo :
    (k : Phys) (xs : ℕ → List ℕ) (n p : ℕ)
    → IsManaged k xs
    → IsTiled k xs
    → n ≤ max_order
    → In p (xs n)
    → CompactsTo k xs (compact_free_blocks_locked (locked k p) p)
unfolding compact_free_blocks_locked Rounds
compact_free_blocks_locked-CompactsTo k xs n p ok tiled le at =
    let free = ok.block n p le at in
    let order : ((locked k p).blocks p).order ≡ n = ground (arith, free.order) in
    rw (compact_free_blocks_locked, order)
      (compact_from-Rounds (max_order - n) n p k xs ok tiled at (omega arith))
