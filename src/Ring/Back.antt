-- ===== src/Ring/Back.antt =====
-- Pushing to the back of a ring, and what pushing and detaching leave of the other rings.
use zeptux.Base.{ℕ, List, [], ◌∷◌, ◌++◌, ◌≡◌, ◌≢◌, sym, subst, ◌∙◌, arith}
use zeptux.Ring.{ListHeap, list_node_insert_before, list_push_back, list_detach}
use zeptux.Ring.Chain.{Chain, Avoids, Distinct, IsRing, Chain-frame}

abbrev pub All {ℓ} : (ℕ → Type ℓ) → List ℕ → Type ℓ
All P [] = Unit
All P (x ∷ xs) = P x × All P xs

-- The node before the end of a chain is one of the chain's.
Chain_last :
    (P : ℕ → Type 0) (h : ListHeap) (a : ℕ) (xs : List ℕ) (b : ℕ)
    → Chain h a xs b
    → P a
    → All P xs
    → P (h.prev b)
Chain_last P h a [] b (p, q) pa all = subst P (sym q) pa
Chain_last P h a (x ∷ xs) b (p, q, c) pa (px, all) = Chain_last P h x xs b c px all

Avoids-All : (a : ℕ) (xs : List ℕ) → Avoids a xs → All (λ n. n ≢ a) xs
Avoids-All a [] av = tt
Avoids-All a (x ∷ xs) (ne, av) = (ne, Avoids-All a xs av)

-- `k` is `h` with `it` put between `b` and the node before it.
record Inserted (h k : ListHeap) (it b : ℕ) : Type 0 where
  nexts : (n : ℕ) → n ≢ h.prev b → n ≢ it → k.next n ≡ h.next n
  prevs : (n : ℕ) → n ≢ b → n ≢ it → k.prev n ≡ h.prev n
  last_next : k.next (h.prev b) ≡ it
  it_prev : k.prev it ≡ h.prev b
  it_next : k.next it ≡ b
  end_prev : k.prev b ≡ it

Chain-Inserted :
    {h k : ListHeap} {it b : ℕ}
    → Inserted h k it b
    → (a : ℕ) (xs : List ℕ) → Chain h a xs b
    → a ≢ it
    → Avoids it xs
    → Avoids b xs
    → Avoids a xs
    → Distinct xs
    → Chain k a (xs ++ it ∷ []) b
Chain-Inserted {h} {k} {it} {b} ins a [] (p, q) ne new out fresh distinct =
    (subst (λ n. k.next n ≡ it) q ins.last_next, ins.it_prev ∙ q, (ins.it_next, ins.end_prev))
Chain-Inserted {h} {k} {it} {b} ins a (x ∷ xs) (p, q, c) ne (xi, new) (xb, out) (xa, fresh)
      (apart, distinct) =
    (
      ins.nexts a (λ e. Chain_last (λ n. n ≢ a) h x xs b c xa (Avoids-All a xs fresh) (sym e)) ne
          ∙ p,
      ins.prevs x xb xi ∙ q,
      Chain-Inserted ins x xs c xi new out apart distinct,
    )

Avoids-append : (n : ℕ) (xs ys : List ℕ) → Avoids n xs → Avoids n ys → Avoids n (xs ++ ys)
Avoids-append n [] ys a b = b
Avoids-append n (x ∷ xs) ys (ne, a) b = (ne, Avoids-append n xs ys a b)

Distinct-append_one : (xs : List ℕ) (it : ℕ) → Distinct xs → Avoids it xs → Distinct (xs ++ it ∷ [])
Distinct-append_one [] it d a = (tt, tt)
Distinct-append_one (x ∷ xs) it (apart, d) (ne, a) =
    (Avoids-append x xs (it ∷ []) apart ((λ e. ne (sym e)), tt), Distinct-append_one xs it d a)

list_push_back-Inserted :
    (h : ListHeap) (list it : ℕ)
    → it ≢ list
    → it ≢ h.prev list
    → Inserted h (list_push_back h list it) it list
unfolding list_push_back list_node_insert_before
list_push_back-Inserted h list it ne new = record {
  nexts = λ n a b. ground arith;
  prevs = λ n a b. ground arith;
  last_next = ground arith;
  it_prev = ground arith;
  it_next = ground arith;
  end_prev = ground arith;
}

-- Pushing a new node to the back of a ring makes it the last element, behind the others.
pub list_push_back-IsRing :
    (h : ListHeap) (list it : ℕ) (xs : List ℕ)
    → IsRing h list xs
    → it ≢ list
    → Avoids it xs
    → IsRing (list_push_back h list it) list (xs ++ it ∷ [])
list_push_back-IsRing h list it xs (c, out, distinct) ne new =
    let flip : list ≢ it = λ e. ne (sym e) in
    let last : h.prev list ≢ it =
      Chain_last (λ n. n ≢ it) h list xs list c flip (Avoids-All it xs new) in
    let ins = list_push_back-Inserted h list it ne (λ e. last (sym e)) in
    (
      Chain-Inserted ins list xs c flip new out out distinct,
      Avoids-append list xs (it ∷ []) out (ne, tt),
      Distinct-append_one xs it distinct new,
    )

-- A node that is neither the list `list` nor one of `xs`.
abbrev pub Outside : ℕ → List ℕ → ℕ → Type 0
Outside list xs n = (list ≢ n) × Avoids n xs

-- Where a ring shares no node with another, pushing to the back of that one keeps it.
pub list_push_back-Outside :
    (h : ListHeap) (list it : ℕ) (xs : List ℕ) (other : ℕ) (ys : List ℕ)
    → Chain h list xs list
    → IsRing h other ys
    → Outside other ys list
    → Outside other ys it
    → All (Outside other ys) xs
    → IsRing (list_push_back h list it) other ys
unfolding list_push_back list_node_insert_before
list_push_back-Outside h list it xs other ys c (ring, out, distinct) (nl, al) (ni, ai) all =
    let (np, ap) = Chain_last (Outside other ys) h list xs list c (nl, al) all in
    (
      Chain-frame h (list_push_back h list it) (h.prev list) it list other ys other
          (λ n a b. ground arith) (λ n a b. ground arith) np ni nl ni ap ai al ring,
      out,
      distinct,
    )

-- Where a ring shares no node with another, detaching the first element of that one keeps it.
pub list_detach-Outside :
    (h : ListHeap) (list x : ℕ) (xs : List ℕ) (other : ℕ) (ys : List ℕ)
    → IsRing h list (x ∷ xs)
    → IsRing h other ys
    → Outside other ys list
    → Outside other ys x
    → All (Outside other ys) xs
    → IsRing (list_detach h x) other ys
unfolding list_detach
list_detach-Outside h list x xs other ys ((p, q, c), (xl, rest), (apart, others))
      (ring, out, distinct) (nl, al) (nx, ax) all =
    let (nn, an) = Chain_first (Outside other ys) h x xs list c (nl, al) all in
    (
      Chain-frame h (list_detach h x) list x (h.next x) other ys other (λ n a b. ground arith)
          (λ n a b. ground arith) nl nx nn nx al ax an ring,
      out,
      distinct,
    )
  where
    Chain_first :
        (P : ℕ → Type 0) (h : ListHeap) (a : ℕ) (xs : List ℕ) (b : ℕ)
        → Chain h a xs b
        → P b
        → All P xs
        → P (h.next a)
    Chain_first P h a [] b (p, q) pb all = subst P (sym p) pb
    Chain_first P h a (x ∷ xs) b (p, q, c) pb (px, all) = subst P (sym p) px
