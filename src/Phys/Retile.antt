-- ===== src/Phys/Retile.antt =====
-- After two buddies are joined, the blocks of the spans lie side by side again.
use zeptux.Base.{
  ℕ, ◌+◌, ◌%◌, ◌^◌, ◌≤◌, ◌<◌, List, some, ◌≡◌, ◌≢◌, ◌⊎◌, inl, inr, sym, ap, subst, ◌∙◌, ◌==◌, arith,
  Bool-cases, ltb,
}
use zeptux.Phys.{max_order, Physblock, PhysAllocSpan, Phys, span_from, masked_type}
use zeptux.Phys.Buddy.{two_pow_pos}
use zeptux.Phys.Join.{IsTail}
use zeptux.Phys.Lists.{In}
use zeptux.Phys.Split.{two_pow_next}
use zeptux.Phys.Managed.{IsManaged}
use zeptux.Phys.JoinLaws.{Changed}
use zeptux.Phys.Rejoin.{Rejoined}
use zeptux.Phys.Tiles.{IsOwner, IsTiled}

-- A physblock without an offset is the head of its block.
head-IsOwner :
    (m : Phys) (xs : ℕ → List ℕ) (q h o : ℕ)
    → IsOwner m xs q h o
    → (m.blocks q).head_offset ≡ 0
    → IsOwner m xs q q (m.blocks q).order
head-IsOwner m xs q h o own z = elim (Bool-cases (h == q)) [
  | inl e ↦
      let same : h ≡ q = ground arith in
      subst (λ j. IsOwner m xs q q j) (sym own.order ∙ ap (λ r. (m.blocks r).order) same)
        (subst (λ r. IsOwner m xs q r o) same own)
  | inr e ↦
      let low = own.low in
      let ne : h ≢ q = ground arith in
      absurd (omega (arith, (own.tails q (omega arith) own.high).head_offset))
]

module _ (m k : Phys) (xs ys : ℕ → List ℕ) (n p i j : ℕ) (ok : IsManaged m xs)
    (tiled : IsTiled m xs) (lt : n < max_order) (al : p % 2 ^ (n + 1) ≡ 0) (left : In p (xs n))
    (right : In (p + 2 ^ n) (xs n)) (left_span : span_from m.state.spans 0 p ≡ some i)
    (right_span : span_from m.state.spans 0 (p + 2 ^ n) ≡ some j) (change : Changed m k n p)
    (again : Rejoined xs ys n p) where
  half : (q s : ℕ) → In q (xs n) → span_from m.state.spans 0 q ≡ some s → IsOwner m xs q q n
  half q s at span =
      let free = ok.block n q (omega arith) at in
      let (h, o, own) = tiled q s span in
      subst (λ r. IsOwner m xs q q r) free.order (head-IsOwner m xs q h o own free.head_offset)

  -- Another block shares no physblock with a half.
  clear :
      (q h o r s : ℕ)
      → IsOwner m xs q h o
      → In r (xs n)
      → span_from m.state.spans 0 r ≡ some s
      → (q < r) ⊎ (r + 2 ^ n ≤ q)
      → (h + 2 ^ o ≤ r) ⊎ (r + 2 ^ n ≤ h)
  clear q h o r s own at span out =
      let low = own.low in
      let high = own.high in
      let mine = half r s at span in
      elim (Bool-cases (ltb h r)) [
        | inl before ↦ elim (Bool-cases (ltb r (h + 2 ^ o))) [
          | inl reaches ↦ absurd (
              ground
                (arith, (own.tails r (ground arith) (ground arith)).head_offset, mine.head_offset))
          | inr stops ↦ inl (ground arith)
        ]
        | inr behind ↦ elim (Bool-cases (h == r)) [
          | inl e ↦
              let same : h ≡ r = ground arith in
              let size : o ≡ n = sym own.order ∙ ap (λ t. (m.blocks t).order) same ∙ mine.order in
              let width : 2 ^ o ≡ 2 ^ n = ap (λ (t : ℕ). 2 ^ t) size in absurd (ground arith)
          | inr ne ↦ elim (Bool-cases (ltb h (r + 2 ^ n))) [
            | inl within ↦ absurd (
                ground (
                  arith,
                  (mine.tails h (ground arith) (ground arith)).head_offset,
                  own.head_offset,
                ))
            | inr beyond ↦ inr (ground arith)
          ]
        ]
      ]

  whole-IsOwner : (q : ℕ) → p ≤ q → q < p + 2 ^ (n + 1) → IsOwner k ys q p (n + 1)
  whole-IsOwner q a b = record {
    small = omega arith;
    low = a;
    high = b;
    aligned = al;
    order = ap (λ (t : Physblock). t.order) change.head;
    head_offset =
        ap (λ (t : Physblock). t.head_offset) change.head
        ∙ (ok.block n p (omega arith) left).head_offset;
    tails = change.tails;
    listed = λ f. again.whole;
  }

  other-IsOwner :
      (q h o : ℕ) → IsOwner m xs q h o → (q < p) ⊎ (p + 2 ^ (n + 1) ≤ q) → IsOwner k ys q h o
  other-IsOwner q h o own out =
      let double = two_pow_next n in
      let pos = two_pow_pos n in
      let width = two_pow_pos o in
      let a = clear q h o p i own left left_span (ground (arith, out)) in
      let b = clear q h o (p + 2 ^ n) j own right right_span (ground (arith, out)) in
      let same : (r : ℕ) → h ≤ r → r < h + 2 ^ o → k.blocks r ≡ m.blocks r =
        λ r lo hi. change.others r (ground (arith, a, b)) in
      let here : k.blocks h ≡ m.blocks h = same h (omega arith) (omega arith) in
      record {
        small = own.small;
        low = own.low;
        high = own.high;
        aligned = own.aligned;
        order = ap (λ (t : Physblock). t.order) here ∙ own.order;
        head_offset = ap (λ (t : Physblock). t.head_offset) here ∙ own.head_offset;
        tails = λ r lo hi. subst (IsTail h r) (sym (same r (omega arith) hi)) (own.tails r lo hi);
        listed = λ f.
            again.kept o h (own.listed (ap (λ (t : Physblock). masked_type t.type) (sym here) ∙ f))
              (λ e. ground (arith, a, b)) (λ e. ground (arith, a, b));
      }

  pub joined-IsTiled : IsTiled k ys
  joined-IsTiled q s span =
      let before : span_from m.state.spans 0 q ≡ some s =
        ap (λ (t : List PhysAllocSpan). span_from t 0 q) (sym change.spans) ∙ span in
      let (h, o, own) = tiled q s before in
      elim (Bool-cases (ltb q p)) [
        | inl below ↦ (h, o, other-IsOwner q h o own (inl (ground arith)))
        | inr above ↦ elim (Bool-cases (ltb q (p + 2 ^ (n + 1)))) [
          | inl within ↦ (p, n + 1, whole-IsOwner q (ground arith) (ground arith))
          | inr beyond ↦ (h, o, other-IsOwner q h o own (inr (ground arith)))
        ]
      ]
