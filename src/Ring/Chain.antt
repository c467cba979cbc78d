-- ===== src/Ring/Chain.antt =====
-- The heap as the list of the nodes between the list and itself, and what the operations do to it.
use zeptux.Base.{
  ℕ, zero, suc, ◌+◌, ◌<◌, false, List, [], ◌∷◌, some, ◌≡◌, ◌≢◌, refl, sym, ap, ◌∙◌, ◌==◌, arith,
  ==_self, length,
}
use zeptux.Ring.{
  ListHeap, list_empty, list_node_insert_after, list_push_front, list_detach, count_from,
  list_count,
}

-- From `a` on, by `next`, the nodes `xs`, then `b`; and back by `prev`.
abbrev pub Chain : ListHeap → ℕ → List ℕ → ℕ → Type 0
Chain h a [] b = (h.next a ≡ b) × (h.prev b ≡ a)
Chain h a (x ∷ xs) b = (h.next a ≡ x) × (h.prev x ≡ a) × Chain h x xs b

abbrev pub Avoids : ℕ → List ℕ → Type 0
Avoids n [] = Unit {0}
Avoids n (x ∷ xs) = (x ≢ n) × Avoids n xs

abbrev pub Distinct : List ℕ → Type 0
Distinct [] = Unit {0}
Distinct (x ∷ xs) = Avoids x xs × Distinct xs

-- The list at `list` with the elements `xs`: a ring of different nodes.
abbrev pub IsRing : ListHeap → ℕ → List ℕ → Type 0
IsRing h list xs = Chain h list xs list × Avoids list xs × Distinct xs

-- A chain is kept where `next` changes at `u` and `v` only, `prev` at `w` and `v` only, and the
-- chain has none of these there.
pub Chain-frame :
    (h k : ListHeap) (u v w : ℕ) (a : ℕ) (xs : List ℕ) (b : ℕ)
    → ((n : ℕ) → n ≢ u → n ≢ v → k.next n ≡ h.next n)
    → ((n : ℕ) → n ≢ w → n ≢ v → k.prev n ≡ h.prev n)
    → a ≢ u
    → a ≢ v
    → b ≢ w
    → b ≢ v
    → Avoids u xs
    → Avoids v xs
    → Avoids w xs
    → Chain h a xs b
    → Chain k a xs b
Chain-frame h k u v w a [] b nexts prevs au av bw bv x y z (p, q) =
    (nexts a au av ∙ p, prevs b bw bv ∙ q)
Chain-frame h k u v w a (x ∷ xs) b nexts prevs au av bw bv (xu, ux) (xv, vx) (xw, wx) (p, q, c) = (
  nexts a au av ∙ p,
  prevs x xw xv ∙ q,
  Chain-frame h k u v w x xs b nexts prevs xu xv bw bv ux vx wx c,
)

-- Pushing a new node to the front of a ring makes it the first element, before the others.
pub list_push_front-IsRing :
    (h : ListHeap) (list it : ℕ) (xs : List ℕ)
    → IsRing h list xs
    → it ≢ list
    → Avoids it xs
    → IsRing (list_push_front h list it) list (it ∷ xs)
unfolding list_push_front list_node_insert_after
list_push_front-IsRing h list it [] ((p, q), out, distinct) ne new =
    ((ground arith, ground arith, (ground arith, ground arith)), (ne, out), (new, distinct))
list_push_front-IsRing h list it (x ∷ xs) ((p, q, c), (xl, out), (apart, distinct)) ne (xi, new) = (
  (
    ground arith,
    ground arith,
    (
      ground arith,
      ground arith,
      Chain-frame h (list_push_front h list it) list it x x xs list (λ n a b. ground arith)
          (λ n a b. ground arith) xl xi (λ e. xl (sym e)) (λ e. ne (sym e)) out new apart c,
    ),
  ),
  (ne, (xl, out)),
  ((xi, new), (apart, distinct)),
)

-- Detaching the first element of a ring leaves the ring of the others.
pub list_detach-IsRing :
    (h : ListHeap) (list x : ℕ) (xs : List ℕ)
    → IsRing h list (x ∷ xs)
    → IsRing (list_detach h x) list xs
unfolding list_detach
list_detach-IsRing h list x [] ((p, q, (r, s)), (xl, out), (apart, distinct)) =
    ((ground arith, ground arith), out, distinct)
list_detach-IsRing h list x (y ∷ ys)
      ((p, q, (r, s, c)), (xl, (yl, out)), ((yx, apart), (apart_y, distinct))) =
    (
      (
        ground arith,
        ground arith,
        Chain-frame h (list_detach h x) list x y y ys list (λ n a b. ground arith)
            (λ n a b. ground arith) yl yx (λ e. yl (sym e)) (λ e. xl (sym e)) out apart apart_y c,
      ),
      (yl, out),
      (apart_y, distinct),
    )

count_from-Chain :
    (fuel : ℕ) (h : ListHeap) (list a : ℕ) (xs : List ℕ) (ret : ℕ)
    → Chain h a xs list
    → Avoids list xs
    → length xs < fuel
    → count_from fuel h list (h.next a) ret ≡ some (ret + length xs)
unfolding count_from
count_from-Chain zero h list a xs ret c out enough = absurd (omega arith)
count_from-Chain (suc fuel) h list a [] ret (p, q) out enough =
    let e : ret + 0 ≡ ret = omega arith in rw (p, ==_self list, e) refl
count_from-Chain (suc fuel) h list a (x ∷ xs) ret (p, q, c) (xl, out) enough =
    let ne : (x == list) ≡ false = ground arith in
    let e : ret + 1 + length xs ≡ ret + suc (length xs) = omega arith in
    rw (p, ne) (count_from-Chain fuel h list x xs (ret + 1) c out (omega arith) ∙ ap some e)

-- On a ring the count ends, with more rounds than there are elements, and is their number; the
-- list is empty just when there are none.
pub list_count-length :
    (fuel : ℕ) (h : ListHeap) (list : ℕ) (xs : List ℕ)
    → IsRing h list xs
    → length xs < fuel
    → (list_count fuel h list ≡ some (length xs)) × (list_empty h list ≡ (length xs == 0))
unfolding list_count list_empty
list_count-length fuel h list [] (c, out, distinct) enough =
    (count_from-Chain fuel h list list [] 0 c out enough, ground arith)
list_count-length fuel h list (x ∷ xs) (c, (xl, out), distinct) enough =
    let e : 0 + length (x ∷ xs) ≡ length (x ∷ xs) = omega arith in
    (count_from-Chain fuel h list list (x ∷ xs) 0 c (xl, out) enough ∙ ap some e, ground arith)
