-- ===== src/Phys/Refill.antt =====
-- The free list of an order gets a block: finding a larger block, and splitting it down.
use zeptux.Base.{
  ℕ, zero, suc, ◌+◌, ◌-◌, ◌^◌, ◌≤◌, ◌<◌, List, [], ◌∷◌, ◌++◌, some, none, ◌≡◌, ◌⊎◌, inl, inr, refl,
  sym, ap, subst, ◌∙◌, ◌==◌, arith, if◌then◌else◌, Bool, true, false, not, ◌||◌, length, ltb,
  Bool-cases, if-elim, ==_self,
}
use zeptux.Ring.{list_empty}
use zeptux.Ring.Chain.{IsRing, list_count-length}
use zeptux.Spinlock.{spinlock_acquire}
use zeptux.Phys.{
  returns, max_order, physblock_free, Phys, free_list, physblock_to_pfn, acquire_block,
  release_block,
}
use zeptux.Phys.Buddy.{physblock_to_pfn-back}
use zeptux.Phys.Alloc.{first_block, first_order, lock_free, split_block_locked, split_down}
use zeptux.Phys.Lists.{In, set_list, append_to, nodes, node-lem}
use zeptux.Phys.Managed.{IsManaged, split_lists, locked, Covers, Covers-trans}
use zeptux.Phys.SplitLaws.{
  split_block_locked-IsManaged, split_block_locked-Covers, split_block_locked_state,
}

abbrev pub HasFirst : List ℕ → Type 0
HasFirst xs = (p : ℕ) × (ps : List ℕ) × (xs ≡ p ∷ ps)

HasFirst-append : (xs : List ℕ) (p : ℕ) → HasFirst (xs ++ p ∷ [])
HasFirst-append [] p = (p, [], refl)
HasFirst-append (x ∷ xs) p = (x, xs ++ p ∷ [], refl)

HasFirst-append_to : (xs : ℕ → List ℕ) (o p : ℕ) → HasFirst (append_to xs o p o)
HasFirst-append_to xs o p =
    if-elim HasFirst (o == o) (λ e. HasFirst-append (xs o) p) (λ e. ground arith)

module _ {m : Phys} {xs : ℕ → List ℕ} (ok : IsManaged m xs) where
  empty_iff :
      (o : ℕ) → o ≤ max_order → list_empty m.heap (free_list m o) ≡ (length (nodes (xs o)) == 0)
  empty_iff o le =
      (list_count-length (suc (length (nodes (xs o)))) m.heap (free_list m o) (nodes (xs o))
        (ok.lists.ring o le) (omega arith)).1

  pub list_empty-HasFirst :
      (o : ℕ) → o ≤ max_order → HasFirst (xs o) → list_empty m.heap (free_list m o) ≡ false
  list_empty-HasFirst o le (p, ps, e) =
      let z : (suc (length (nodes ps)) == 0) ≡ false = ground arith in
      empty_iff o le ∙ ap (λ (l : List ℕ). length (nodes l) == 0) e ∙ z

  pub list_empty-nil :
      (o : ℕ) → o ≤ max_order → xs o ≡ [] → list_empty m.heap (free_list m o) ≡ true
  list_empty-nil o le e = empty_iff o le ∙ ap (λ (l : List ℕ). length (nodes l) == 0) e

  pub first_block-lem :
      (o p : ℕ) (ps : List ℕ) → o ≤ max_order → xs o ≡ p ∷ ps → first_block m o ≡ p
  unfolding first_block physblock_to_pfn
  first_block-lem o p ps le e =
      let (first, prev, rest) =
        (subst (λ zs. IsRing m.heap (free_list m o) (nodes zs)) e (ok.lists.ring o le)).0 in
      let here : In p (xs o) = subst (λ zs. In p zs) (sym e) (inl refl) in
      let lt = ok.lists.small o p le here in
      rw first (omega (arith, node-lem p lt, physblock_to_pfn-back p lt))

  -- Taking the lock of a free block.
  pub acquire_block-lem : (p : ℕ) → acquire_block m p ≡ returns (locked m p)
  unfolding acquire_block spinlock_acquire
  acquire_block-lem p = rw (acquire_block, ok.quiet p) refl

pub list_cases : (xs : List ℕ) → (xs ≡ []) ⊎ HasFirst xs
list_cases [] = inl refl
list_cases (x ∷ xs) = inr (x, xs, refl)

-- The search finds the first list from `o` on that has an element, or there is none.
pub first_order-First :
    {m : Phys} {xs : ℕ → List ℕ}
    → IsManaged m xs
    → (left o : ℕ) → o + left ≡ suc max_order
    → ((first_order left m o ≡ none) × ((i : ℕ) → o ≤ i → i ≤ max_order → xs i ≡ []))
      ⊎ ((k : ℕ) × (first_order left m o ≡ some k) × (o ≤ k) × (k ≤ max_order) × HasFirst (xs k))
unfolding first_order
first_order-First ok zero o e = inl (refl, λ i lo hi. absurd (omega arith))
first_order-First {m} {xs} ok (suc left) o e = elim (list_cases (xs o)) [
  | inl nil ↦
      let z = list_empty-nil ok o (omega arith) nil in
      elim (first_order-First ok left (o + 1) (omega arith)) [
        | inl (none_left, all) ↦ inl (
          rw (z, none_left) refl,
          λ i lo hi. elim (Bool-cases (o == i)) [
            | inl same ↦ let f : o ≡ i = ground arith in subst (λ j. xs j ≡ []) f nil
            | inr other ↦ all i (ground arith) hi
          ],
        )
        | inr (k, found, lo, hi, has) ↦ inr (k, rw (z, found) refl, omega arith, hi, has)
      ]
  | inr has ↦
      let z = list_empty-HasFirst ok o (omega arith) has in
      inr (o, rw z refl, omega arith, omega arith, has)
]

-- What looking for a block of the order `o` leaves: the lists `ys`.
pub record Refilled (m k : Phys) (xs ys : ℕ → List ℕ) (o : ℕ) : Type 0 where
  pub managed : IsManaged k ys
  pub has : HasFirst (ys o)
  pub lock : k.state.lock ≡ m.state.lock
  pub free : k.state.stats.num_free_4k_pages ≡ m.state.stats.num_free_4k_pages
  pub covers : Covers xs ys

-- A block that is free passes the test of its type and order.
pub lock_free-lem :
    {m : Phys} {xs : ℕ → List ℕ}
    → IsManaged m xs
    → (o p : ℕ) → o ≤ max_order
    → In p (xs o)
    → lock_free m p o ≡ returns (true, locked m p)
unfolding lock_free
lock_free-lem {m} ok o p le at =
    let free = ok.block o p le at in
    let type : ((locked m p).blocks p).type ≡ physblock_free = ground (arith, free.type) in
    let order : ((locked m p).blocks p).order ≡ o = ground (arith, free.order) in
    let unfit : Bool =
      not (((locked m p).blocks p).type == physblock_free)
      || not (((locked m p).blocks p).order == o) in
    let w : unfit ≡ false = rw (type, order, ==_self o) refl in
    rw (acquire_block-lem ok p) (
      ap
        (λ (b : Bool).
          returns (if b then (false, release_block (locked m p) p) else (true, locked m p)))
        w)

split_down_done :
    (fuel : ℕ) (m : Phys) (target k : ℕ) → k ≤ target → split_down (suc fuel) m target k ≡ returns m
unfolding split_down
split_down_done fuel m target k le =
    let z : ltb k (target + 1) ≡ true = ground arith in rw (split_down, z) refl

split_down_step :
    (fuel : ℕ) {m : Phys} {xs : ℕ → List ℕ} (target n p : ℕ) (ps : List ℕ)
    → IsManaged m xs
    → target ≤ n
    → n < max_order
    → xs (n + 1) ≡ p ∷ ps
    → split_down (suc fuel) m target (n + 1)
      ≡ split_down fuel (split_block_locked (locked m p) p) target n
unfolding split_down
split_down_step fuel {m} {xs} target n p ps ok lo hi e =
    let z : ltb (n + 1) (target + 1) ≡ false = ground arith in
    let here : In p (xs (n + 1)) = subst (λ zs. In p zs) (sym e) (inl refl) in
    let down : n + 1 - 1 ≡ n = omega arith in
    let first = first_block-lem ok (n + 1) p ps (omega arith) e in
    rw (split_down, z, first, lock_free-lem ok (n + 1) p (omega arith) here, down, first) refl

-- The lists of the order that is looked for has a block after the loop.
pub split_down-Refilled :
    (fuel : ℕ) (m : Phys) (xs : ℕ → List ℕ) (target more : ℕ)
    → IsManaged m xs
    → target + more ≤ max_order
    → HasFirst (xs (target + more))
    → more < fuel
    → (n : Phys) × (ys : ℕ → List ℕ) × (split_down fuel m target (target + more) ≡ returns n)
      × Refilled m n xs ys target
split_down-Refilled zero m xs target more ok hi has enough = absurd (omega arith)
split_down-Refilled (suc fuel) m xs target zero ok hi has enough =
    let same : target + 0 ≡ target = omega arith in
    (
      m,
      xs,
      split_down_done fuel m target (target + 0) (omega arith),
      record {
        managed = ok;
        has = subst (λ o. HasFirst (xs o)) same has;
        lock = refl;
        free = refl;
        covers = λ i q le at. (i, q, le, at, omega arith, omega arith);
      },
    )
split_down-Refilled (suc fuel) m xs target (suc more) ok hi (p, ps, e) enough =
    let k = target + more in
    let next : target + suc more ≡ k + 1 = omega arith in
    let f : xs (k + 1) ≡ p ∷ ps = subst (λ o. xs o ≡ p ∷ ps) next e in
    let m1 = split_block_locked (locked m p) p in
    let ys = split_lists xs k p ps in
    let (lock, free) = split_block_locked_state m xs k p ps ok (omega arith) f in
    let has = HasFirst-append_to (append_to (set_list xs (k + 1) ps) k p) k (p + 2 ^ k) in
    let (n, zs, runs, rest) =
      split_down-Refilled fuel m1 ys target more
        (split_block_locked-IsManaged m xs k p ps ok (omega arith) f) (omega arith) has
        (omega arith) in
    (
      n,
      zs,
      subst (λ o. split_down (suc fuel) m target o ≡ returns n) (sym next)
          (split_down_step fuel target k p ps ok (omega arith) (omega arith) f ∙ runs),
      record {
        managed = rest.managed;
        has = rest.has;
        lock = rest.lock ∙ lock;
        free = rest.free ∙ free;
        covers =
            Covers-trans xs ys zs (split_block_locked-Covers m xs k p ps ok (omega arith) f)
              rest.covers;
      },
    )
