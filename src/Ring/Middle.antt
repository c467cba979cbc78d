-- ===== src/Ring/Middle.antt =====
-- Detaching an element from anywhere in a ring.
use zeptux.Base.{ℕ, List, [], ◌∷◌, ◌++◌, ◌≡◌, ◌≢◌, sym, subst, ◌∙◌, arith}
use zeptux.Ring.{ListHeap, list_detach}
use zeptux.Ring.Chain.{Chain, Avoids, Distinct, IsRing, Chain-frame}
use zeptux.Ring.Back.{All, Outside}

-- The neighbours of an element of a chain are of the chain.
Chain_before :
    (P : ℕ → Type 0) (h : ListHeap) (a : ℕ) (us : List ℕ) (x : ℕ) (vs : List ℕ) (b : ℕ)
    → Chain h a (us ++ x ∷ vs) b
    → P a
    → All P us
    → P (h.prev x)
Chain_before P h a [] x vs b (p, q, c) pa all = subst P (sym q) pa
Chain_before P h a (z ∷ zs) x vs b (p, q, c) pa (pz, all) = Chain_before P h z zs x vs b c pz all

Chain_behind :
    (P : ℕ → Type 0) (h : ListHeap) (a : ℕ) (us : List ℕ) (x : ℕ) (vs : List ℕ) (b : ℕ)
    → Chain h a (us ++ x ∷ vs) b
    → P b
    → All P vs
    → P (h.next x)
Chain_behind P h a [] x [] b (p, q, (r, s)) pb all = subst P (sym r) pb
Chain_behind P h a [] x (y ∷ ys) b (p, q, (r, s, c)) pb (py, all) = subst P (sym r) py
Chain_behind P h a (z ∷ zs) x vs b (p, q, c) pb all = Chain_behind P h z zs x vs b c pb all

pub All-append_left : (P : ℕ → Type 0) (xs ys : List ℕ) → All P (xs ++ ys) → All P xs
All-append_left P [] ys all = tt
All-append_left P (x ∷ xs) ys (px, all) = (px, All-append_left P xs ys all)

pub All-append_right : (P : ℕ → Type 0) (xs ys : List ℕ) → All P (xs ++ ys) → All P ys
All-append_right P [] ys all = all
All-append_right P (x ∷ xs) ys (px, all) = All-append_right P xs ys all

All-Avoids : (a : ℕ) (xs : List ℕ) → Avoids a xs → All (λ n. n ≢ a) xs
All-Avoids a [] av = tt
All-Avoids a (x ∷ xs) (ne, av) = (ne, All-Avoids a xs av)

Avoids-All : (a : ℕ) (xs : List ℕ) → All (λ n. n ≢ a) xs → Avoids a xs
Avoids-All a [] all = tt
Avoids-All a (x ∷ xs) (ne, all) = (ne, Avoids-All a xs all)

Avoids-remove :
    (n : ℕ) (us : List ℕ) (x : ℕ) (vs : List ℕ) → Avoids n (us ++ x ∷ vs) → Avoids n (us ++ vs)
Avoids-remove n [] x vs (ne, av) = av
Avoids-remove n (z ∷ zs) x vs (ne, av) = (ne, Avoids-remove n zs x vs av)

Distinct-remove :
    (us : List ℕ) (x : ℕ) (vs : List ℕ) → Distinct (us ++ x ∷ vs) → Distinct (us ++ vs)
Distinct-remove [] x vs (apart, d) = d
Distinct-remove (z ∷ zs) x vs (apart, d) =
    (Avoids-remove z zs x vs apart, Distinct-remove zs x vs d)

-- An element is none of those before it, nor of those behind it.
pub Distinct-around :
    (us : List ℕ) (x : ℕ) (vs : List ℕ)
    → Distinct (us ++ x ∷ vs)
    → All (λ n. n ≢ x) us × All (λ n. n ≢ x) vs
Distinct-around [] x vs (apart, d) = (tt, All-Avoids x vs apart)
Distinct-around (z ∷ zs) x vs (apart, d) =
    let (before, behind) = Distinct-around zs x vs d in
    let flip = (All-append_right _ zs (x ∷ vs) (All-Avoids z (zs ++ x ∷ vs) apart)).0 in
    (((λ e. flip (sym e)), before), behind)

-- `k` is `h` without `x`, whose neighbours are each other's.
record Detached (h k : ListHeap) (x : ℕ) : Type 0 where
  nexts : (n : ℕ) → n ≢ h.prev x → n ≢ x → k.next n ≡ h.next n
  prevs : (n : ℕ) → n ≢ h.next x → n ≢ x → k.prev n ≡ h.prev n
  across : k.next (h.prev x) ≡ h.next x
  back : k.prev (h.next x) ≡ h.prev x

list_detach-Detached :
    (h : ListHeap) (x : ℕ) → h.prev x ≢ x → h.next x ≢ x → Detached h (list_detach h x) x
unfolding list_detach
list_detach-Detached h x a b = record {
  nexts = λ n c d. ground arith;
  prevs = λ n c d. ground arith;
  across = ground arith;
  back = ground arith;
}

-- Below, `x` is cut out of a chain whose nodes are different, and are not its end.
Chain-cut :
    {h k : ListHeap} {x : ℕ}
    → Detached h k x
    → (a : ℕ) (us vs : List ℕ) (b : ℕ) → Chain h a (us ++ x ∷ vs) b
    → Avoids a (us ++ x ∷ vs)
    → Avoids b (us ++ x ∷ vs)
    → Distinct (us ++ x ∷ vs)
    → Chain k a (us ++ vs) b
Chain-cut {h} {k} {x} d a [] [] b (p, q, (r, s)) (xa, fresh) (xb, out) (apart, others) =
    (subst (λ n. k.next n ≡ b) q (d.across ∙ r), subst (λ n. k.prev n ≡ a) r (d.back ∙ q))
Chain-cut {h} {k} {x} d a [] (y ∷ ys) b (p, q, (r, s, c)) (xa, (ya, fresh)) (xb, (yb, out))
      ((yx, apart), (apart_y, others)) =
    (
      subst (λ n. k.next n ≡ y) q (d.across ∙ r),
      subst (λ n. k.prev n ≡ a) r (d.back ∙ q),
      Chain-frame h k a x y y ys b (λ n e f. d.nexts n (λ z. e (z ∙ q)) f)
          (λ n e f. d.prevs n (λ z. e (z ∙ r)) f) ya yx (λ z. yb (sym z)) (λ z. xb (sym z)) fresh
          apart apart_y c,
    )
Chain-cut {h} {k} {x} d a (z ∷ zs) vs b (p, q, c) (za, fresh) (zb, out) (apart, others) =
    let before =
      Chain_before (λ n. n ≢ a) h z zs x vs b c za
        (All-append_left _ zs (x ∷ vs) (All-Avoids a (zs ++ x ∷ vs) fresh)) in
    let rest = All-append_right _ zs (x ∷ vs) (All-Avoids z (zs ++ x ∷ vs) apart) in
    let behind = Chain_behind (λ n. n ≢ z) h z zs x vs b c (λ e. zb (sym e)) rest.1 in
    let ax = (All-append_right _ zs (x ∷ vs) (All-Avoids a (zs ++ x ∷ vs) fresh)).0 in
    (
      d.nexts a (λ e. before (sym e)) (λ e. ax (sym e)) ∙ p,
      d.prevs z (λ e. behind (sym e)) (λ e. rest.0 (sym e)) ∙ q,
      Chain-cut d z zs vs b c apart out others,
    )

-- Detaching an element of a ring, wherever it stands, leaves the ring of the others.
pub list_detach-middle :
    (h : ListHeap) (list : ℕ) (us : List ℕ) (x : ℕ) (vs : List ℕ)
    → IsRing h list (us ++ x ∷ vs)
    → IsRing (list_detach h x) list (us ++ vs)
list_detach-middle h list us x vs (c, out, distinct) =
    let list_ne = (All-append_right _ us (x ∷ vs) (All-Avoids list (us ++ x ∷ vs) out)).0 in
    let flip : list ≢ x = λ e. list_ne (sym e) in
    let (before, behind) = Distinct-around us x vs distinct in
    let p = Chain_before (λ n. n ≢ x) h list us x vs list c flip before in
    let n = Chain_behind (λ n. n ≢ x) h list us x vs list c flip behind in
    (
      Chain-cut (list_detach-Detached h x p n) list us vs list c out out distinct,
      Avoids-remove list us x vs out,
      Distinct-remove us x vs distinct,
    )

-- Where a ring shares no node with another, detaching an element of that one keeps it.
pub list_detach_middle-Outside :
    (h : ListHeap) (list : ℕ) (us : List ℕ) (x : ℕ) (vs : List ℕ) (other : ℕ) (ys : List ℕ)
    → IsRing h list (us ++ x ∷ vs)
    → IsRing h other ys
    → Outside other ys list
    → All (Outside other ys) (us ++ x ∷ vs)
    → IsRing (list_detach h x) other ys
unfolding list_detach
list_detach_middle-Outside h list us x vs other ys (c, avoids, different) (ring, out, distinct) nl
      all =
    let (np, ap) =
      Chain_before (Outside other ys) h list us x vs list c nl
        (All-append_left _ us (x ∷ vs) all) in
    let ((nx, ax), behind) = All-append_right _ us (x ∷ vs) all in
    let (nn, an) = Chain_behind (Outside other ys) h list us x vs list c nl behind in
    (
      Chain-frame h (list_detach h x) (h.prev x) x (h.next x) other ys other (λ n a b. ground arith)
          (λ n a b. ground arith) np nx nn nx ap ax an ring,
      out,
      distinct,
    )
