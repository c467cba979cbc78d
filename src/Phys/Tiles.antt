-- ===== src/Phys/Tiles.antt =====
-- The blocks of the spans lie side by side: every physblock of a span is the head of a block, or a
-- tail of one. What `pfn_to_physblock_lock` then finds at the buddy of a free block.
use zeptux.Base.{
  ℕ, ◌+◌, ◌-◌, ◌*◌, ◌/◌, ◌%◌, ◌^◌, ◌≤◌, ◌<◌, List, some, ◌≡◌, ◌≢◌, ◌⊎◌, inl, inr, refl, sym, ap,
  subst, ◌∙◌, ◌==◌, arith, false, Bool-cases,
}
use mathlib.Core.Path.{fun_ext}
use native.Mathlib.Nat.{add-mod, mod-eq_of_lt}
use zeptux.Spinlock.{spinlock_release, atomic_store_release}
use zeptux.Phys.{
  returns, max_order, physblock_free, masked_type, Physblock, Phys, sub_u64, span_from,
  release_block, pfn_to_physblock_lock,
}
use zeptux.Phys.Buddy.{two_pow_pos}
use zeptux.Phys.Join.{IsTail}
use zeptux.Phys.Lists.{In}
use zeptux.Phys.Managed.{IsFreeBlock, IsManaged, locked}
use zeptux.Phys.Tails.{acquire_block-free, physblock_tail_to_head-lem}

-- The physblock of `q` belongs to the block of the order `o` at `h`, which is listed if it is free.
pub record IsOwner (m : Phys) (xs : ℕ → List ℕ) (q h o : ℕ) : Type 0 where
  pub small : o ≤ max_order
  pub low : h ≤ q
  pub high : q < h + 2 ^ o
  pub aligned : h % 2 ^ o ≡ 0
  pub order : (m.blocks h).order ≡ o
  pub head_offset : (m.blocks h).head_offset ≡ 0
  pub tails : (r : ℕ) → h < r → r < h + 2 ^ o → IsTail h r (m.blocks r)
  pub listed : masked_type (m.blocks h).type ≡ physblock_free → In h (xs o)

abbrev pub IsTiled : Phys → (ℕ → List ℕ) → Type 0
IsTiled m xs = (q i : ℕ) → span_from m.state.spans 0 q ≡ some i → (h o : ℕ) × IsOwner m xs q h o

-- The lock of a physblock is taken and released again.
pub unlocked_again : (m : Phys) (p : ℕ) → (m.blocks p).lock ≡ 0 → release_block (locked m p) p ≡ m
unfolding release_block spinlock_release atomic_store_release
unlocked_again m p free =
    ap (λ (b : ℕ → Physblock). record m { blocks = b })
      (fun_ext (λ q. elim (Bool-cases (q == p)) [
        | inl e ↦ let same : p ≡ q = ground arith in ground arith
        | inr e ↦ ground arith
      ]))

-- Two multiples of a size are not less than the size apart.
multiples_apart : (m a b : ℕ) → a % m ≡ 0 → b % m ≡ 0 → a < b → b < a + m → ⊥
multiples_apart m a b za zb lo hi =
    let d = b - a in
    let e : a + d ≡ b = omega arith in
    let small : d % m ≡ d = mod-eq_of_lt (omega arith) in
    let sum : a % m + d % m ≡ d = omega (arith, za, small) in
    let c : (a + d) % m ≡ d % m = add-mod a d m ∙ ap (λ (t : ℕ). t % m) sum in
    omega (arith, c, small, ap (λ (t : ℕ). t % m) e, zb)

-- What the lookup of `b` finds: `f`, which is free and of the order `n` only if it is `b`, on a list.
pub record Found (k : Phys) (xs : ℕ → List ℕ) (n p b f : ℕ) : Type 0 where
  pub result : pfn_to_physblock_lock (locked k p) b ≡ returns (f, locked (locked k p) f)
  pub other : f ≢ p
  pub free :
      masked_type (k.blocks f).type ≡ physblock_free
      → (k.blocks f).order ≡ n
      → (f ≡ b) × In b (xs n)
  pub found : In b (xs n) → f ≡ b

module _ (k : Phys) (xs : ℕ → List ℕ) (n p b i : ℕ) (ok : IsManaged k xs) (tiled : IsTiled k xs)
    (le : n ≤ max_order) (at : In p (xs n)) (side : (b ≡ p + 2 ^ n) ⊎ (p ≡ b + 2 ^ n))
    (al : b % 2 ^ n ≡ 0) (span : span_from k.state.spans 0 b ≡ some i) where
  here_free : IsFreeBlock (k.blocks p) n p
  here_free = ok.block n p le at

  differ : b ≢ p
  differ e = let pos = two_pow_pos n in ground (arith, e)

  lock_of : (q : ℕ) → q ≢ p → ((locked k p).blocks q).lock ≡ 0
  lock_of q ne = ground (arith, ok.quiet q)

  block_of : (q : ℕ) → q ≢ p → (locked k p).blocks q ≡ k.blocks q
  block_of q ne = ground arith

  at_head : (k.blocks b).head_offset ≡ 0 → Found k xs n p b b
  unfolding pfn_to_physblock_lock
  at_head z =
      let o : ((locked (locked k p) b).blocks b).head_offset ≡ 0 = ground arith in
      record {
        result = rw (acquire_block-free (locked k p) b (lock_of b differ), o) refl;
        other = differ;
        free = λ f ord.
            let (h, o, own) = tiled b i span in
            elim (Bool-cases (h == b)) [
              | inl e ↦
                  let same : h ≡ b = ground arith in
                  let size : o ≡ n = sym own.order ∙ ap (λ r. (k.blocks r).order) same ∙ ord in
                  (
                    refl,
                    subst (λ r. In r (xs n)) same
                        (subst (λ j. In h (xs j)) size
                          (own.listed (ap (λ r. masked_type (k.blocks r).type) same ∙ f))),
                  )
              | inr e ↦
                  let low = own.low in
                  let ne : h ≢ b = ground arith in
                  let lt : h < b = omega arith in
                  absurd (omega (arith, (own.tails b lt own.high).head_offset))
            ];
        found = λ there. refl;
      }

  -- The lookup goes through the tail at `b` of the block at `h`.
  through : (h o : ℕ) → IsOwner k xs b h o → h < b → Found k xs n p b (h + (b - h) / 256 * 256)
  unfolding pfn_to_physblock_lock
  through h o own lt =
      let d = b - h in
      let f = h + d / 256 * 256 in
      let high = own.high in
      let tail = own.tails b lt high in
      let m1 = locked (locked k p) b in
      let back : release_block m1 b ≡ locked k p =
        unlocked_again (locked k p) b (lock_of b differ) in
      let offset : (m1.blocks b).head_offset ≡ d = ground (arith, tail.head_offset) in
      let nz : (d == 0) ≡ false = ground arith in
      let fits = here_free.fits in
      let where_found : sub_u64 b (d % 2 ^ 8) ≡ f = ground arith in
      let ne : f ≢ p = apart_from in
      let free : ((release_block m1 b).blocks f).lock ≡ 0 =
        ap (λ (m : Phys). (m.blocks f).lock) back ∙ lock_of f ne in
      record {
        result =
            rw
              (
                acquire_block-free (locked k p) b (lock_of b differ),
                offset,
                nz,
                physblock_tail_to_head-lem m1 b d f offset where_found free,
                back,
              )
              refl;
        other = ne;
        free = λ kind ord. absurd (never kind ord);
        found =
            λ there. absurd (omega (arith, tail.head_offset, (ok.block n b le there).head_offset));
      }
    where
      inside : (r : ℕ) → h < r → r < h + 2 ^ o → (k.blocks r).head_offset ≢ 0
      inside r a z e = omega (arith, (own.tails r a z).head_offset)

      apart_from : h + (b - h) / 256 * 256 ≢ p
      apart_from e = elim (Bool-cases (h == p)) [
        | inl same ↦
            let here : h ≡ p = ground arith in
            let size : o ≡ n =
              sym own.order ∙ ap (λ r. (k.blocks r).order) here ∙ here_free.order in
            let width : 2 ^ o ≡ 2 ^ n = ap (λ (j : ℕ). 2 ^ j) size in
            let high = own.high in ground arith
        | inr before ↦
            let high = own.high in inside p (ground arith) (omega arith) here_free.head_offset
      ]

      never :
          masked_type (k.blocks (h + (b - h) / 256 * 256)).type ≡ physblock_free
          → (k.blocks (h + (b - h) / 256 * 256)).order ≡ n
          → ⊥
      never kind ord = elim (Bool-cases ((b - h) / 256 == 0)) [
        | inl zero ↦
            let e : h + (b - h) / 256 * 256 ≡ h = ground arith in
            let size : o ≡ n = sym own.order ∙ ap (λ r. (k.blocks r).order) (sym e) ∙ ord in
            let width : 2 ^ o ≡ 2 ^ n = ap (λ (j : ℕ). 2 ^ j) size in
            let high = own.high in
            multiples_apart (2 ^ n) h b (ap (λ (w : ℕ). h % w) (sym width) ∙ own.aligned) al lt
              (omega arith)
        | inr more ↦
            let high = own.high in
            let tail = own.tails (h + (b - h) / 256 * 256) (ground arith) (omega arith) in
            ground (arith, ap masked_type tail.type ∙ refl, kind)
      ]

  pub lookup : (f : ℕ) × Found k xs n p b f
  lookup = elim (Bool-cases ((k.blocks b).head_offset == 0)) [
    | inl z ↦ (b, at_head (ground arith))
    | inr nz ↦
        let (h, o, own) = tiled b i span in
        elim (Bool-cases (h == b)) [
          | inl e ↦
              let same : h ≡ b = ground arith in
              absurd (ground (arith, own.head_offset, ap (λ r. (k.blocks r).head_offset) same))
          | inr e ↦
              let low = own.low in
              let ne : h ≢ b = ground arith in
              (h + (b - h) / 256 * 256, through h o own (omega arith))
        ]
  ]
