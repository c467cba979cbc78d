-- ===== src/Phys/Managed.antt =====
-- The state of the physical allocator between two operations, with the lists of its free blocks,
-- and that detaching a block and splitting one keep it.
use zeptux.Base.{
  ℕ, zero, suc, ◌+◌, ◌*◌, ◌%◌, ◌^◌, ◌≤◌, ◌<◌, List, [], ◌∷◌, ◌++◌, ◌≡◌, ◌≢◌, ◌⊎◌, inl, inr, refl,
  ap, subst, ◌==◌, arith, if◌then◌else◌, true, false, length, length-append, Bool-cases, if-elim,
}
use native.Mathlib.Nat.{suc-mul, le-mul_of_pos_right}
use zeptux.Ring.{ListHeap, list_detach, list_push_back}
use zeptux.Phys.{max_order, physblock_free, Physblock, Phys, node, set_block}
use zeptux.Phys.Buddy.{two_pow_pos}
use zeptux.Phys.Lists.{
  In, max_pfn, set_list, append_to, IsLists, In-pushed, In-detached, detached_gone, push-IsLists,
  detach-IsLists,
}
use zeptux.Phys.Split.{two_pow_next, recount}

pub record IsFreeBlock (b : Physblock) (o p : ℕ) : Type 0 where
  pub type : b.type ≡ physblock_free
  pub order : b.order ≡ o
  pub head_offset : b.head_offset ≡ 0
  pub aligned : p % 2 ^ o ≡ 0
  pub fits : p + 2 ^ o ≤ max_pfn

-- The pages of the free blocks of an order below `n`.
abbrev pub pages_in : (ℕ → List ℕ) → ℕ → ℕ
pages_in xs zero = 0
pages_in xs (suc n) = pages_in xs n + length (xs n) * 2 ^ n

pub record IsManaged (m : Phys) (xs : ℕ → List ℕ) : Type 0 where
  pub lists : IsLists m.heap m.state.address xs
  pub block : (o p : ℕ) → o ≤ max_order → In p (xs o) → IsFreeBlock (m.blocks p) o p
  pub apart :
      (o i p q : ℕ)
      → o ≤ max_order
      → i ≤ max_order
      → In p (xs o)
      → In q (xs i)
      → p ≤ q
      → q < p + 2 ^ o
      → p ≡ q
  pub quiet : (q : ℕ) → (m.blocks q).lock ≡ 0
  pub count : (o : ℕ) → o ≤ max_order → m.state.stats.order_free_pages o ≡ length (xs o)
  pub total : m.state.stats.num_free_4k_pages ≡ pages_in xs 13
  pub bounded : m.state.stats.num_free_4k_pages < 2 ^ 64

pages_in-beyond :
    (xs : ℕ → List ℕ) (o : ℕ) (ys : List ℕ) (n : ℕ)
    → n ≤ o
    → pages_in (set_list xs o ys) n ≡ pages_in xs n
pages_in-beyond xs o ys zero le = refl
pages_in-beyond xs o ys (suc n) le =
    let z : (n == o) ≡ false = ground arith in rw (z, pages_in-beyond xs o ys n (omega arith)) refl

pub pages_in-set_list :
    (xs : ℕ → List ℕ) (o : ℕ) (ys : List ℕ) (n : ℕ)
    → o < n
    → pages_in (set_list xs o ys) n + length (xs o) * 2 ^ o ≡ pages_in xs n + length ys * 2 ^ o
pages_in-set_list xs o ys zero lt = absurd (omega arith)
pages_in-set_list xs o ys (suc n) lt = elim (Bool-cases (n == o)) [
  | inl e ↦
      let same : n ≡ o = ground arith in
      subst
        (λ (i : ℕ).
          pages_in (set_list xs i ys) (suc n) + length (xs i) * 2 ^ i
          ≡ pages_in xs (suc n) + length ys * 2 ^ i)
        same
        (let s : (n == n) ≡ true = ground arith in
          rw s (omega (arith, pages_in-beyond xs n ys n (omega arith))))
  | inr e ↦ let ih = pages_in-set_list xs o ys n (ground arith) in rw e (omega (arith, ih))
]

-- Every free block of `ys` lies in one of `xs`.
abbrev pub Covers : (ℕ → List ℕ) → (ℕ → List ℕ) → Type 0
Covers xs ys =
    (i q : ℕ)
    → i ≤ max_order
    → In q (ys i)
    → (j r : ℕ) × (j ≤ max_order) × In r (xs j) × (r ≤ q) × (q + 2 ^ i ≤ r + 2 ^ j)

pub Covers-trans : (xs ys zs : ℕ → List ℕ) → Covers xs ys → Covers ys zs → Covers xs zs
Covers-trans xs ys zs a b i q le at =
    let (j, r, lj, there, lo, hi) = b i q le at in
    let (k, s, lk, further, lo', hi') = a j r lj there in
    (k, s, lk, further, omega arith, omega arith)

-- The lists after the block `p` of the order `n + 1`, the first one of its list, is split.
abbrev pub split_lists : (ℕ → List ℕ) → ℕ → ℕ → List ℕ → ℕ → List ℕ
split_lists xs n p ps = append_to (append_to (set_list xs (n + 1) ps) n p) n (p + 2 ^ n)

-- A PFN on a list after the split: on the same list before, and not `p`, or one of the halves.
pub In-split_lists :
    (xs : ℕ → List ℕ) (n p : ℕ) (ps : List ℕ) (i q : ℕ)
    → xs (n + 1) ≡ p ∷ ps
    → ¬ In p (set_list xs (n + 1) ps i)
    → In q (split_lists xs n p ps i)
    → (In q (xs i) × (q ≢ p)) ⊎ ((i ≡ n) × (p ≡ q)) ⊎ ((i ≡ n) × (p + 2 ^ n ≡ q))
In-split_lists xs n p ps i q e gone at =
    elim (In-pushed (append_to (set_list xs (n + 1) ps) n p) n i (p + 2 ^ n) q at) [
      | inl at1 ↦ elim (In-pushed (set_list xs (n + 1) ps) n i p q at1) [
        | inl at2 ↦ inl (
          In-detached xs (n + 1) i p q ps e at2,
          λ z. gone (subst (λ r. In r (set_list xs (n + 1) ps i)) z at2),
        )
        | inr left ↦ inr (inl left)
      ]
      | inr right ↦ inr (inr right)
    ]

abbrev pub locked : Phys → ℕ → Phys
locked m p = set_block m p (record (m.blocks p) { lock = 1 })

pub pages_in-append_to :
    (xs : ℕ → List ℕ) (o p : ℕ)
    → o ≤ max_order
    → pages_in (append_to xs o p) 13 ≡ pages_in xs 13 + 2 ^ o
pages_in-append_to xs o p le =
    let e : length (xs o ++ p ∷ []) ≡ suc (length (xs o)) =
      omega (arith, length-append (xs o) (p ∷ [])) in
    omega (
      arith,
      pages_in-set_list xs o (xs o ++ p ∷ []) 13 (omega arith),
      ap (λ (l : ℕ). l * 2 ^ o) e,
      suc-mul (length (xs o)) (2 ^ o),
    )

pub pages_in-detach :
    (xs : ℕ → List ℕ) (o p : ℕ) (ps : List ℕ)
    → o ≤ max_order
    → xs o ≡ p ∷ ps
    → pages_in (set_list xs o ps) 13 + 2 ^ o ≡ pages_in xs 13
pages_in-detach xs o p ps le e = omega (
  arith,
  pages_in-set_list xs o ps 13 (omega arith),
  ap (λ (l : List ℕ). length l * 2 ^ o) e,
  suc-mul (length ps) (2 ^ o),
)

pub length-le-pages_in : (xs : ℕ → List ℕ) (o n : ℕ) → o < n → length (xs o) ≤ pages_in xs n
length-le-pages_in xs o n lt =
    omega
      (arith, pages_in-set_list xs o [] n lt, le-mul_of_pos_right (length (xs o)) (two_pow_pos o))

pub pages_in-split_lists :
    (xs : ℕ → List ℕ) (n p : ℕ) (ps : List ℕ)
    → n < max_order
    → xs (n + 1) ≡ p ∷ ps
    → pages_in (split_lists xs n p ps) 13 ≡ pages_in xs 13
pages_in-split_lists xs n p ps lt e =
    let a =
      pages_in-append_to (append_to (set_list xs (n + 1) ps) n p) n (p + 2 ^ n) (omega arith) in
    let b = pages_in-append_to (set_list xs (n + 1) ps) n p (omega arith) in
    let c = pages_in-detach xs (n + 1) p ps (omega arith) e in
    omega (arith, a, b, c, two_pow_next n)

pub split_lists-IsLists :
    (h : ListHeap) (base : ℕ) (xs : ℕ → List ℕ) (n p : ℕ) (ps : List ℕ)
    → IsLists h base xs
    → n < max_order
    → xs (n + 1) ≡ p ∷ ps
    → p + 2 ^ (n + 1) ≤ max_pfn
    → ((i : ℕ) → i ≤ max_order → ¬ In (p + 2 ^ n) (xs i))
    → IsLists
        (list_push_back
          (list_push_back (list_detach h (node p)) (base + 16 * n) (node p))
          (base + 16 * n)
          (node (p + 2 ^ n)))
        base
        (split_lists xs n p ps)
split_lists-IsLists h base xs n p ps ls lt e fits new =
    let pos = two_pow_pos n in
    let double = two_pow_next n in
    let one = detach-IsLists ls (n + 1) p ps (omega arith) e in
    let two =
      push-IsLists one n p (omega arith) (omega arith)
        (λ i le. detached_gone ls (n + 1) p ps i (omega arith) le e) in
    push-IsLists two n (p + 2 ^ n) (omega arith) (omega arith) (λ i le at.
      elim (In-pushed (set_list xs (n + 1) ps) n i p (p + 2 ^ n) at) [
        | inl old ↦ new i le (In-detached xs (n + 1) i p (p + 2 ^ n) ps e old)
        | inr (f, same) ↦ absurd (omega arith)
      ])

pub length-append_to :
    (xs : ℕ → List ℕ) (o p i : ℕ)
    → length (append_to xs o p i) ≡ (if i == o then suc (length (xs i)) else length (xs i))
length-append_to xs o p i = elim (Bool-cases (i == o)) [
  | inl e ↦
      let same : i ≡ o = ground arith in
      rw e (omega (arith, length-append (xs o) (p ∷ []), ap (λ j. length (xs j)) same))
  | inr e ↦ rw e refl
]

length-split_lists :
    (xs : ℕ → List ℕ) (n p : ℕ) (ps : List ℕ) (o : ℕ)
    → length (split_lists xs n p ps o) ≡ (
        if o == n
        then suc (suc (length (xs o)))
        else if o == n + 1
        then length ps
        else length (xs o))
length-split_lists xs n p ps o =
    let c : length (set_list xs (n + 1) ps o) ≡ (if o == n + 1 then length ps else length (xs o)) =
      if-elim (λ (l : List ℕ). length l ≡ (if o == n + 1 then length ps else length (xs o)))
        (o == n + 1) (λ z. rw z refl) (λ z. rw z refl) in
    let two = length-append_to (set_list xs (n + 1) ps) n p o in
    let three = length-append_to (append_to (set_list xs (n + 1) ps) n p) n (p + 2 ^ n) o in
    elim (Bool-cases (o == n)) [
      | inl e ↦ let f : (o == n + 1) ≡ false = ground arith in ground (arith, c, two, three)
      | inr e ↦ ground (arith, c, two, three)
    ]

-- The numbers of free blocks follow the lists.
pub recount-split_lists :
    (counts : ℕ → ℕ) (xs : ℕ → List ℕ) (n p : ℕ) (ps : List ℕ)
    → ((o : ℕ) → o ≤ max_order → counts o ≡ length (xs o))
    → n < max_order
    → xs (n + 1) ≡ p ∷ ps
    → pages_in xs 13 < 2 ^ 64
    → (o : ℕ) → o ≤ max_order
    → recount counts n o ≡ length (split_lists xs n p ps o)
recount-split_lists counts xs n p ps cs lt e small o le =
    let len = length-split_lists xs n p ps o in
    let most = length-le-pages_in (split_lists xs n p ps) o 13 (omega arith) in
    let total = pages_in-split_lists xs n p ps lt e in
    let c = cs o le in
    let d = cs (n + 1) (omega arith) in
    let l : length (xs (n + 1)) ≡ suc (length ps) = ap length e in
    let lw = length-le-pages_in xs (n + 1) 13 (omega arith) in
    ground (arith, len, most, total, c, d, l, lw)
