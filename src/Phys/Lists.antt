-- ===== src/Phys/Lists.antt =====
-- The free lists of the physical allocator: one ring of list nodes for each order, read as the
-- lists of the PFNs of its physblocks.
use zeptux.Base.{
  ℕ, ◌+◌, ◌*◌, ◌^◌, ◌≤◌, ◌<◌, List, [], ◌∷◌, ◌++◌, map, ◌≡◌, ◌≢◌, ◌⊎◌, inl, inr, refl, sym, subst,
  ap, ◌==◌, if◌then◌else◌, arith, Bool-cases, if-elim,
}
use zeptux.Ring.{ListHeap, list_push_back, list_detach}
use zeptux.Ring.Chain.{Avoids, IsRing, list_detach-IsRing}
use zeptux.Ring.Back.{
  All, Outside, list_push_back-IsRing, list_push_back-Outside, list_detach-Outside,
}
use zeptux.Phys.{max_order, kernel_mem_map_address, node, pfn_to_physblock_raw}

abbrev pub In : ℕ → List ℕ → Type 0
In p [] = ⊥
In p (x ∷ xs) = (x ≡ p) ⊎ In p xs

abbrev pub max_pfn : ℕ
max_pfn = 2 ^ 40

abbrev pub nodes : List ℕ → List ℕ
nodes xs = map node xs

-- The list of the order `o` becomes `ys`; it gets `p` behind its last element.
abbrev pub set_list : (ℕ → List ℕ) → ℕ → List ℕ → ℕ → List ℕ
set_list xs o ys i = if i == o then ys else xs i

abbrev pub append_to : (ℕ → List ℕ) → ℕ → ℕ → ℕ → List ℕ
append_to xs o p = set_list xs o (xs o ++ p ∷ [])

-- Below `max_pfn` the physblocks do not wrap around.
pub node-lem : (p : ℕ) → p < max_pfn → node p ≡ kernel_mem_map_address + 32 * p + 8
unfolding node pfn_to_physblock_raw
node-lem p lt = omega arith

-- The lists are rings, at `base` and behind it, and no PFN is on two of them.
pub record IsLists (h : ListHeap) (base : ℕ) (xs : ℕ → List ℕ) : Type 0 where
  pub fits : base + 208 ≤ kernel_mem_map_address
  pub ring : (o : ℕ) → o ≤ max_order → IsRing h (base + 16 * o) (nodes (xs o))
  pub small : (o p : ℕ) → o ≤ max_order → In p (xs o) → p < max_pfn
  pub once : (o i p : ℕ) → o ≤ max_order → i ≤ max_order → In p (xs o) → In p (xs i) → o ≡ i

pub Avoids-nodes : (n : ℕ) (xs : List ℕ) → ((p : ℕ) → In p xs → node p ≢ n) → Avoids n (nodes xs)
Avoids-nodes n [] h = tt
Avoids-nodes n (x ∷ xs) h = (h x (inl refl), Avoids-nodes n xs (λ p i. h p (inr i)))

pub All-nodes : (P : ℕ → Type 0) (xs : List ℕ) → ((p : ℕ) → In p xs → P (node p)) → All P (nodes xs)
All-nodes P [] h = tt
All-nodes P (x ∷ xs) h = (h x (inl refl), All-nodes P xs (λ p i. h p (inr i)))

In-Distinct : (p : ℕ) (xs : List ℕ) → Avoids (node p) (nodes xs) → ¬ In p xs
In-Distinct p [] av i = i
In-Distinct p (x ∷ xs) (ne, av) (inl e) = absurd (ne (ap node e))
In-Distinct p (x ∷ xs) (ne, av) (inr i) = In-Distinct p xs av i

pub In-append_one : (p x : ℕ) (xs : List ℕ) → In p (xs ++ x ∷ []) → In p xs ⊎ (x ≡ p)
In-append_one p x [] (inl e) = inr e
In-append_one p x [] (inr i) = inl i
In-append_one p x (y ∷ xs) (inl e) = inl (inl e)
In-append_one p x (y ∷ xs) (inr i) = elim (In-append_one p x xs i) [
  | inl j ↦ inl (inr j)
  | inr e ↦ inr e
]

nodes-append_one : (x : ℕ) (xs : List ℕ) → nodes (xs ++ x ∷ []) ≡ nodes xs ++ node x ∷ []
nodes-append_one x [] = refl
nodes-append_one x (y ∷ xs) = ap (λ ns. node y ∷ ns) (nodes-append_one x xs)

pub In-set_list :
    (xs : ℕ → List ℕ) (o i q : ℕ) (ys : List ℕ)
    → In q (set_list xs o ys i)
    → ((i ≡ o) × In q ys) ⊎ ((i ≢ o) × In q (xs i))
In-set_list xs o i q ys at = elim (Bool-cases (i == o)) [
  | inl e ↦ inl (ground arith, subst (λ b. In q (if b then ys else xs i)) e at)
  | inr e ↦ inr (ground arith, subst (λ b. In q (if b then ys else xs i)) e at)
]

-- Who is on a list after the push, and after the detaching.
pub In-pushed :
    (xs : ℕ → List ℕ) (o i p q : ℕ) → In q (append_to xs o p i) → In q (xs i) ⊎ ((i ≡ o) × (p ≡ q))
In-pushed xs o i p q at = elim (In-set_list xs o i q (xs o ++ p ∷ []) at) [
  | inl (e, new) ↦ elim (In-append_one q p (xs o) new) [
    | inl old ↦ inl (subst (λ j. In q (xs j)) (sym e) old)
    | inr same ↦ inr (e, same)
  ]
  | inr (ne, old) ↦ inl old
]

pub In-detached :
    (xs : ℕ → List ℕ) (o i p q : ℕ) (ps : List ℕ)
    → xs o ≡ p ∷ ps
    → In q (set_list xs o ps i)
    → In q (xs i)
In-detached xs o i p q ps e at = elim (In-set_list xs o i q ps at) [
  | inl (f, there) ↦
      let here : In q (xs o) = subst (λ zs. In q zs) (sym e) (inr there) in
      subst (λ j. In q (xs j)) (sym f) here
  | inr (ne, old) ↦ old
]

module _ {h : ListHeap} {base : ℕ} {xs : ℕ → List ℕ} (ls : IsLists h base xs) where
  fresh-Avoids :
      (p i : ℕ) → p < max_pfn → i ≤ max_order → ¬ In p (xs i) → Avoids (node p) (nodes (xs i))
  fresh-Avoids p i lt le new = Avoids-nodes (node p) (xs i) (λ q at e.
      let lq = node-lem q (ls.small i q le at) in
      let lp = node-lem p lt in
      let same : q ≡ p = omega arith in
      absurd (omega (arith, new (subst (λ r. In r (xs i)) same at))))

  fresh-Outside :
      (p i : ℕ)
      → p < max_pfn
      → i ≤ max_order
      → ¬ In p (xs i)
      → Outside (base + 16 * i) (nodes (xs i)) (node p)
  fresh-Outside p i lt le new =
      (λ e. omega (arith, e, ls.fits, node-lem p lt), fresh-Avoids p i lt le new)

  pub list-Outside :
      (o i : ℕ)
      → o ≤ max_order
      → i ≤ max_order
      → o ≢ i
      → Outside (base + 16 * i) (nodes (xs i)) (base + 16 * o)
  list-Outside o i lo le ne = (
    λ e. ne (omega arith),
    Avoids-nodes (base + 16 * o) (xs i)
        (λ q at e. omega (arith, e, ls.fits, node-lem q (ls.small i q le at))),
  )

  pub other-Outside :
      (o i p : ℕ)
      → o ≤ max_order
      → i ≤ max_order
      → o ≢ i
      → In p (xs o)
      → Outside (base + 16 * i) (nodes (xs i)) (node p)
  other-Outside o i p lo le ne at =
      fresh-Outside p i (ls.small o p lo at) le
        (λ there. absurd (ne (ls.once o i p lo le at there)))

  -- Pushing a PFN that is on no list to the back of the list of order `o`.
  pub push-IsLists :
      (o p : ℕ)
      → o ≤ max_order
      → p < max_pfn
      → ((i : ℕ) → i ≤ max_order → ¬ In p (xs i))
      → IsLists (list_push_back h (base + 16 * o) (node p)) base (append_to xs o p)
  push-IsLists o p lo lt new = record {
    fits = ls.fits;
    ring = λ i le.
        if-elim (λ zs. IsRing h' (base + 16 * i) (nodes zs)) (i == o)
          (λ e.
            let f : o ≡ i = ground arith in
            subst (λ j. IsRing h' (base + 16 * j) (nodes (xs o ++ p ∷ []))) f pushed)
          (λ e.
            let ne : o ≢ i = ground arith in
            list_push_back-Outside h (base + 16 * o) (node p) (nodes (xs o)) (base + 16 * i)
              (nodes (xs i)) (ls.ring o lo).0 (ls.ring i le) (list-Outside o i lo le ne)
              (fresh-Outside p i lt le (new i le))
              (All-nodes (Outside (base + 16 * i) (nodes (xs i))) (xs o)
                (λ q at. other-Outside o i q lo le ne at)));
    small = λ i q le at. elim (In-pushed xs o i p q at) [
      | inl old ↦ ls.small i q le old
      | inr (e, same) ↦ omega arith
    ];
    once = λ i j q li lj at there. elim (In-pushed xs o i p q at) [
      | inl old ↦ elim (In-pushed xs o j p q there) [
        | inl too ↦ ls.once i j q li lj old too
        | inr (e, same) ↦ absurd (new i li (subst (λ r. In r (xs i)) (sym same) old))
      ]
      | inr (e, same) ↦ elim (In-pushed xs o j p q there) [
        | inl too ↦ absurd (new j lj (subst (λ r. In r (xs j)) (sym same) too))
        | inr (f, again) ↦ omega arith
      ]
    ];
  }
    where
      h' : ListHeap
      h' = list_push_back h (base + 16 * o) (node p)

      pushed : IsRing h' (base + 16 * o) (nodes (xs o ++ p ∷ []))
      pushed =
          let (ne, av) = fresh-Outside p o lt lo (new o lo) in
          subst (IsRing h' (base + 16 * o)) (sym (nodes-append_one p (xs o))) (
            list_push_back-IsRing h (base + 16 * o) (node p) (nodes (xs o)) (ls.ring o lo)
              (λ e. ne (sym e)) av)

  -- The first PFN of a list is nowhere else.
  pub detached_gone :
      (o p : ℕ) (ps : List ℕ) (i : ℕ)
      → o ≤ max_order
      → i ≤ max_order
      → xs o ≡ p ∷ ps
      → ¬ In p (set_list xs o ps i)
  detached_gone o p ps i lo le e at = elim (In-set_list xs o i p ps at) [
    | inl (f, there) ↦ let (c, out, (apart, others)) = whole in In-Distinct p ps apart there
    | inr (ne, old) ↦
        absurd (ne (sym (ls.once o i p lo le (subst (λ zs. In p zs) (sym e) (inl refl)) old)))
  ]
    where
      whole : IsRing h (base + 16 * o) (node p ∷ nodes ps)
      whole = subst (λ zs. IsRing h (base + 16 * o) (nodes zs)) e (ls.ring o lo)

  -- Detaching the first PFN of the list of order `o`.
  pub detach-IsLists :
      (o p : ℕ) (ps : List ℕ)
      → o ≤ max_order
      → xs o ≡ p ∷ ps
      → IsLists (list_detach h (node p)) base (set_list xs o ps)
  detach-IsLists o p ps lo e = record {
    fits = ls.fits;
    ring = λ i le.
        if-elim (λ zs. IsRing h' (base + 16 * i) (nodes zs)) (i == o)
          (λ f.
            let same : o ≡ i = ground arith in
            subst (λ j. IsRing h' (base + 16 * j) (nodes ps)) same
              (list_detach-IsRing h (base + 16 * o) (node p) (nodes ps) whole))
          (λ f.
            let ne : o ≢ i = ground arith in
            list_detach-Outside h (base + 16 * o) (node p) (nodes ps) (base + 16 * i) (nodes (xs i))
              whole (ls.ring i le) (list-Outside o i lo le ne)
              (other-Outside o i p lo le ne (on p (inl refl)))
              (All-nodes (Outside (base + 16 * i) (nodes (xs i))) ps
                (λ q at. other-Outside o i q lo le ne (on q (inr at)))));
    small = λ i q le at. ls.small i q le (In-detached xs o i p q ps e at);
    once = λ i j q li lj at there.
        ls.once i j q li lj (In-detached xs o i p q ps e at) (In-detached xs o j p q ps e there);
  }
    where
      h' : ListHeap
      h' = list_detach h (node p)

      whole : IsRing h (base + 16 * o) (node p ∷ nodes ps)
      whole = subst (λ zs. IsRing h (base + 16 * o) (nodes zs)) e (ls.ring o lo)

      on : (q : ℕ) → In q (p ∷ ps) → In q (xs o)
      on q at = subst (λ zs. In q zs) (sym e) at
