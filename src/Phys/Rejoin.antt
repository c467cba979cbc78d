-- ===== src/Phys/Rejoin.antt =====
-- mm/phys.c, `_join_physblocks_locked`: two free buddies become one free block.
use zeptux.Base.{
  ℕ, ◌+◌, ◌%◌, ◌^◌, ◌≤◌, ◌<◌, List, [], ◌∷◌, ◌++◌, ◌≡◌, ◌≢◌, ◌⊎◌, inl, inr, refl, subst, ◌==◌,
  arith, if-elim,
}
use zeptux.Phys.{max_order, Phys}
use zeptux.Phys.Buddy.{two_pow_pos}
use zeptux.Phys.Lists.{In, set_list, append_to}
use zeptux.Phys.Remove.{In-split, In-rest}
use zeptux.Phys.Managed.{IsManaged}
use zeptux.Phys.JoinLaws.{whole_again, Changed, two, cases, changed, managed}

-- The lists `ys` have one block of the order `n + 1` at `p` where `xs` have its halves.
pub record Rejoined (xs ys : ℕ → List ℕ) (n p : ℕ) : Type 0 where
  pub whole : In p (ys (n + 1))
  pub old :
      (i q : ℕ)
      → i ≤ max_order
      → In q (ys i)
      → (In q (xs i) × (q ≢ p) × (q ≢ p + 2 ^ n)) ⊎ ((i ≡ n + 1) × (p ≡ q))
  pub kept : (i q : ℕ) → In q (xs i) → q ≢ p → q ≢ p + 2 ^ n → In q (ys i)

In-last : (p : ℕ) (xs : List ℕ) → In p (xs ++ p ∷ [])
In-last p [] = inl refl
In-last p (x ∷ xs) = inr (In-last p xs)

In-before : (p q : ℕ) (xs : List ℕ) → In q xs → In q (xs ++ p ∷ [])
In-before p q [] at = elim at [ ]
In-before p q (x ∷ xs) (inl e) = inl e
In-before p q (x ∷ xs) (inr at) = inr (In-before p q xs at)

pub In-append_to : (xs : ℕ → List ℕ) (o p i q : ℕ) → In q (xs i) → In q (append_to xs o p i)
In-append_to xs o p i q at =
    if-elim (λ ys. In q ys) (i == o)
      (λ e.
        let same : i ≡ o = ground arith in In-before p q (xs o) (subst (λ j. In q (xs j)) same at))
      (λ e. at)

pub In-append_to_last : (xs : ℕ → List ℕ) (o p : ℕ) → In p (append_to xs o p o)
In-append_to_last xs o p =
    if-elim (λ ys. In p ys) (o == o) (λ e. In-last p (xs o)) (λ e. ground arith)

-- In a well-formed state, joining a free block with its free buddy, with the locks of both held,
-- gives, once the lock of the head is released, a well-formed state: in place of the two, their
-- whole is on the list of the next higher order, every other free block stays on its list, the
-- numbers of free blocks follow, and all locks are free; of the physblocks, the head gets the
-- order of the whole, those behind it become its tails, and no other changes.
pub join_physblocks_locked-IsManaged :
    (m : Phys) (xs : ℕ → List ℕ) (n p : ℕ)
    → IsManaged m xs
    → n < max_order
    → p % 2 ^ (n + 1) ≡ 0
    → In p (xs n)
    → In (p + 2 ^ n) (xs n)
    → (ys : ℕ → List ℕ) × IsManaged (whole_again m p n) ys
      × Rejoined xs ys n p
      × Changed m (whole_again m p n) n p
join_physblocks_locked-IsManaged m xs n p ok lt al at there =
    let (us, vs, left) = In-split p (xs n) at in
    let pos = two_pow_pos n in
    let rest =
      In-rest p (p + 2 ^ n) us vs (subst (λ ys. In (p + 2 ^ n) ys) left there)
        (λ e. omega (arith, e)) in
    let (ws, zs, right) = In-split (p + 2 ^ n) (us ++ vs) rest in
    (
      append_to (two m xs n p us vs ws zs ok lt al left right at there) (n + 1) p,
      managed m xs n p us vs ws zs ok lt al left right at there,
      record {
        whole = if-elim (λ ys. In p ys) (n + 1 == n + 1) (λ e. In-last p _) (λ e. ground arith);
        old = cases m xs n p us vs ws zs ok lt al left right at there;
        kept = λ i q on ne nr.
            In-append_to (two m xs n p us vs ws zs ok lt al left right at there) (n + 1) p i q
              (still us vs ws zs left right i q on ne nr);
      },
      changed m xs n p us vs ws zs ok lt al left right at there,
    )
  where
    still :
        (us vs ws zs : List ℕ)
        → xs n ≡ us ++ p ∷ vs
        → us ++ vs ≡ ws ++ (p + 2 ^ n) ∷ zs
        → (i q : ℕ) → In q (xs i)
        → q ≢ p
        → q ≢ p + 2 ^ n
        → In q (set_list (set_list xs n (us ++ vs)) n (ws ++ zs) i)
    still us vs ws zs left right i q on ne nr =
        if-elim (λ ys. In q ys) (i == n)
          (λ e.
            let same : i ≡ n = ground arith in
            let here : In q (us ++ p ∷ vs) =
              subst (λ ys. In q ys) left (subst (λ j. In q (xs j)) same on) in
            In-rest (p + 2 ^ n) q ws zs (subst (λ ys. In q ys) right (In-rest p q us vs here ne))
              nr)
          (λ e. if-elim (λ ys. In q ys) (i == n) (λ f. ground arith) (λ f. on))
