-- ===== src/Phys/Remove.antt =====
-- Taking a block from anywhere in its free list.
use zeptux.Base.{
  ℕ, suc, ◌+◌, ◌*◌, ◌^◌, ◌≤◌, List, [], ◌∷◌, ◌++◌, ◌≡◌, ◌≢◌, ◌⊎◌, inl, inr, refl, sym, ap, subst,
  ◌==◌, arith, if-elim, length, length-append,
}
use native.Mathlib.Nat.{suc-mul}
use zeptux.Ring.{ListHeap, list_detach}
use zeptux.Ring.Chain.{IsRing}
use zeptux.Ring.Back.{All, Outside}
use zeptux.Ring.Middle.{list_detach-middle, list_detach_middle-Outside, Distinct-around}
use zeptux.Phys.{max_order, node}
use zeptux.Phys.Lists.{
  In, nodes, set_list, IsLists, In-set_list, All-nodes, list-Outside, other-Outside,
}
use zeptux.Phys.Managed.{pages_in, pages_in-set_list}

-- Where a PFN stands in a list.
pub In-split : (p : ℕ) (xs : List ℕ) → In p xs → (us : List ℕ) × (vs : List ℕ) × (xs ≡ us ++ p ∷ vs)
In-split p [] at = elim at [ ]
In-split p (x ∷ xs) (inl e) = ([], xs, ap (λ y. y ∷ xs) e)
In-split p (x ∷ xs) (inr at) =
    let (us, vs, e) = In-split p xs at in (x ∷ us, vs, ap (λ ys. x ∷ ys) e)

-- The others stay.
In-others : (p q : ℕ) (us vs : List ℕ) → In q (us ++ vs) → In q (us ++ p ∷ vs)
In-others p q [] vs at = inr at
In-others p q (u ∷ us) vs (inl e) = inl e
In-others p q (u ∷ us) vs (inr at) = inr (In-others p q us vs at)

pub In-rest : (p q : ℕ) (us vs : List ℕ) → In q (us ++ p ∷ vs) → q ≢ p → In q (us ++ vs)
In-rest p q [] vs (inl e) ne = absurd (ne (sym e))
In-rest p q [] vs (inr at) ne = at
In-rest p q (u ∷ us) vs (inl e) ne = inl e
In-rest p q (u ∷ us) vs (inr at) ne = inr (In-rest p q us vs at ne)

In-middle : (p : ℕ) (us vs : List ℕ) → In p (us ++ p ∷ vs)
In-middle p [] vs = inl refl
In-middle p (u ∷ us) vs = inr (In-middle p us vs)

nodes-append : (us vs : List ℕ) → nodes (us ++ vs) ≡ nodes us ++ nodes vs
nodes-append [] vs = refl
nodes-append (u ∷ us) vs = ap (λ ns. node u ∷ ns) (nodes-append us vs)

All-In : (p : ℕ) (us : List ℕ) → All (λ n. n ≢ node p) (nodes us) → ¬ In p us
All-In p [] all at = at
All-In p (u ∷ us) (ne, all) (inl e) = ne (ap node e)
All-In p (u ∷ us) (ne, all) (inr at) = All-In p us all at

In-append : (q : ℕ) (us vs : List ℕ) → In q (us ++ vs) → In q us ⊎ In q vs
In-append q [] vs at = inr at
In-append q (u ∷ us) vs (inl e) = inl (inl e)
In-append q (u ∷ us) vs (inr at) = elim (In-append q us vs at) [
  | inl left ↦ inl (inr left)
  | inr right ↦ inr right
]

module _ {h : ListHeap} {base : ℕ} {xs : ℕ → List ℕ} (ls : IsLists h base xs) (o p : ℕ)
    (us vs : List ℕ) (lo : o ≤ max_order) (e : xs o ≡ us ++ p ∷ vs) where
  whole : IsRing h (base + 16 * o) (nodes us ++ node p ∷ nodes vs)
  whole =
      subst (IsRing h (base + 16 * o)) (nodes-append us (p ∷ vs))
        (subst (λ zs. IsRing h (base + 16 * o) (nodes zs)) e (ls.ring o lo))

  on : (q : ℕ) → In q (us ++ p ∷ vs) → In q (xs o)
  on q at = subst (λ zs. In q zs) (sym e) at

  -- Who is on a list after the removal was on it before, and is another.
  pub In-removed :
      (i q : ℕ) → i ≤ max_order → In q (set_list xs o (us ++ vs) i) → In q (xs i) × (q ≢ p)
  In-removed i q le at = elim (In-set_list xs o i q (us ++ vs) at) [
    | inl (f, there) ↦ (
      subst (λ j. In q (xs j)) (sym f) (on q (In-others p q us vs there)),
      λ same. gone (subst (λ r. In r (us ++ vs)) same there),
    )
    | inr (ne, old) ↦ (
      old,
      λ same. ne (
          sym (ls.once o i p lo le (on p (In-middle p us vs)) (subst (λ r. In r (xs i)) same old))),
    )
  ]
    where
      gone : ¬ In p (us ++ vs)
      gone there =
          let (c, out, different) = whole in
          let (before, behind) = Distinct-around (nodes us) (node p) (nodes vs) different in
          elim (In-append p us vs there) [
            | inl left ↦ All-In p us before left
            | inr right ↦ All-In p vs behind right
          ]

  pub remove-IsLists : IsLists (list_detach h (node p)) base (set_list xs o (us ++ vs))
  remove-IsLists = record {
    fits = ls.fits;
    ring = λ i le.
        if-elim (λ zs. IsRing h' (base + 16 * i) (nodes zs)) (i == o)
          (λ f.
            let same : o ≡ i = ground arith in
            subst (λ j. IsRing h' (base + 16 * j) (nodes (us ++ vs))) same
              (subst (IsRing h' (base + 16 * o)) (sym (nodes-append us vs))
                (list_detach-middle h (base + 16 * o) (nodes us) (node p) (nodes vs) whole)))
          (λ f.
            let ne : o ≢ i = ground arith in
            list_detach_middle-Outside h (base + 16 * o) (nodes us) (node p) (nodes vs)
              (base + 16 * i) (nodes (xs i)) whole (ls.ring i le) (list-Outside ls o i lo le ne)
              (subst (All (Outside (base + 16 * i) (nodes (xs i)))) (nodes-append us (p ∷ vs)) (
                All-nodes (Outside (base + 16 * i) (nodes (xs i))) (us ++ p ∷ vs)
                  (λ q at. other-Outside ls o i q lo le ne (on q at)))));
    small = λ i q le at. ls.small i q le (In-removed i q le at).0;
    once = λ i j q li lj at there.
        ls.once i j q li lj (In-removed i q li at).0 (In-removed j q lj there).0;
  }
    where
      h' : ListHeap
      h' = list_detach h (node p)

  pub length-removed : suc (length (us ++ vs)) ≡ length (xs o)
  length-removed = omega (arith, ap length e, length-append us (p ∷ vs), length-append us vs)

  pub pages_in-removed : pages_in (set_list xs o (us ++ vs)) 13 + 2 ^ o ≡ pages_in xs 13
  pages_in-removed = omega (
    arith,
    pages_in-set_list xs o (us ++ vs) 13 (omega arith),
    ap (λ (l : ℕ). l * 2 ^ o) length-removed,
    suc-mul (length (us ++ vs)) (2 ^ o),
  )
