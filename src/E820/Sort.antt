-- ===== src/E820/Sort.antt =====
-- One round of `early_sort_e820`: the key comes to its place, and nothing is lost.
use zeptux.Base.{
  ℕ, zero, suc, ◌+◌, ◌≤◌, ◌<◌, Bool, true, false, List, [], ◌∷◌, ◌≡◌, refl, sym, ap, ◌∙◌, ◌==◌, ltb,
  if◌then◌else◌, arith, Bool-cases, ==_self, ◌≢◌, subst, inl, inr, length, set, length-set,
  get_or-set,
}
use zeptux.E820.Defs.{E820Entry, entry_of, no_entry, less, place}

-- 1 if the test holds.
abbrev pub one_if : Bool → ℕ
one_if b = if b then 1 else 0

-- The entries of the array that pass a test.
abbrev pub count : (E820Entry → Bool) → List E820Entry → ℕ
count p [] = 0
count p (e ∷ es) = one_if (p e) + count p es

count-set :
    (p : E820Entry → Bool) (es : List E820Entry) (i : ℕ) (v : E820Entry)
    → i < length es
    → count p (set es i v) + one_if (p (entry_of es i)) ≡ count p es + one_if (p v)
count-set p [] i v h = absurd (omega arith)
count-set p (e ∷ es) zero v h = omega arith
count-set p (e ∷ es) (suc i) v h = omega (arith, count-set p es i v (omega arith))

-- The places below `n` are in order.
abbrev pub IsSorted : ℕ → List E820Entry → Type 0
IsSorted n es = (i j : ℕ) → i < j → j < n → less (entry_of es j) (entry_of es i) ≡ false

-- `r` is `es` with `key` at place `p`, and what was there, up to place `j`, one further on.
pub record Placed (j : ℕ) (key : E820Entry) (es r : List E820Entry) : Type 0 where
  pub place_at : ℕ
  pub bound : place_at ≤ j
  pub same_length : length r ≡ length es
  pub before : (k : ℕ) → k < place_at → entry_of r k ≡ entry_of es k
  pub at : entry_of r place_at ≡ key
  pub moved : (k : ℕ) → place_at ≤ k → k < j → entry_of r (suc k) ≡ entry_of es k
  pub after : (k : ℕ) → j < k → entry_of r k ≡ entry_of es k
  pub above : (k : ℕ) → place_at ≤ k → k < j → less (entry_of es k) key ≡ false
  pub below : (k : ℕ) → suc k ≡ place_at → less (entry_of es k) key ≡ true

pub got :
    (es : List E820Entry) (i : ℕ) (v : E820Entry) (k : ℕ)
    → i < length es
    → entry_of (set es i v) k ≡ (if i == k then v else entry_of es k)
got es i v k h = get_or-set es i k v no_entry h

pub got-here :
    (es : List E820Entry) (i : ℕ) (v : E820Entry) → i < length es → entry_of (set es i v) i ≡ v
got-here es i v h = got es i v i h ∙ rw (==_self i) refl

pub got-other :
    (es : List E820Entry) (i : ℕ) (v : E820Entry) (k : ℕ)
    → i < length es
    → i ≢ k
    → entry_of (set es i v) k ≡ entry_of es k
got-other es i v k h ne = got es i v k h ∙ (let z : (i == k) ≡ false = ground arith in rw z refl)

last_place :
    (j : ℕ) (key : E820Entry) (es : List E820Entry)
    → j < length es
    → ((k : ℕ) → suc k ≡ j → less (entry_of es k) key ≡ true)
    → Placed j key es (set es j key)
last_place j key es h low = record {
  place_at = j;
  bound = omega arith;
  same_length = length-set es j key;
  before = λ k m. got-other es j key k h λ e. absurd (omega arith);
  at = got-here es j key h;
  moved = λ k a b. absurd (omega arith);
  after = λ k m. got-other es j key k h λ e. absurd (omega arith);
  above = λ k a b. absurd (omega arith);
  below = low;
}

further :
    (j : ℕ) (key : E820Entry) (es r : List E820Entry)
    → suc j < length es
    → less (entry_of es j) key ≡ false
    → Placed j key (set es (suc j) (entry_of es j)) r
    → Placed (suc j) key es r
further j key es r h go p = record {
  place_at = p.place_at;
  bound = omega (arith, p.bound);
  same_length = p.same_length ∙ length-set es (suc j) (entry_of es j);
  before = λ k m. p.before k m ∙ same k (omega (arith, p.bound));
  at = p.at;
  moved = λ k a b. elim (Bool-cases (ltb k j)) [
    | inl lt ↦ p.moved k a (ground arith) ∙ same k (omega arith)
    | inr ge ↦
        let e : j ≡ k = ground arith in
        subst (λ x. entry_of r (suc x) ≡ entry_of es x) e
          (p.after (suc j) (omega arith) ∙ got-here es (suc j) (entry_of es j) h)
  ];
  after = λ k m.
      p.after k (omega arith) ∙ got-other es (suc j) (entry_of es j) k h λ e. absurd (omega arith);
  above = λ k a b. elim (Bool-cases (ltb k j)) [
    | inl lt ↦ ap (λ x. less x key) (sym (same k (omega arith))) ∙ p.above k a (ground arith)
    | inr ge ↦ let e : j ≡ k = ground arith in subst (λ x. less (entry_of es x) key ≡ false) e go
  ];
  below = λ k e. ap (λ x. less x key) (sym (same k (omega (arith, p.bound)))) ∙ p.below k e;
}
  where
    same : (k : ℕ) → k ≤ j → entry_of (set es (suc j) (entry_of es j)) k ≡ entry_of es k
    same k m = got-other es (suc j) (entry_of es j) k h λ e. absurd (omega arith)

pub place-Placed :
    (j : ℕ) (key : E820Entry) (es : List E820Entry)
    → j < length es
    → Placed j key es (place j key es)
unfolding place
place-Placed zero key es h = last_place 0 key es h λ k e. absurd (omega arith)
place-Placed (suc j) key es h = elim (Bool-cases (less (entry_of es j) key)) [
  | inl stop ↦
      rw (stop, place)
        (last_place (suc j) key es h
          λ k e. let f : j ≡ k = omega arith in subst (λ x. less (entry_of es x) key ≡ true) f stop)
  | inr go ↦
      rw (go, place)
        (further j key es _ h go (
          place-Placed j key (set es (suc j) (entry_of es j))
            (omega (arith, length-set es (suc j) (entry_of es j)))))
]

-- The key takes the place of what stood at `j`.
pub count-place :
    (p : E820Entry → Bool) (j : ℕ) (key : E820Entry) (es : List E820Entry)
    → j < length es
    → count p (place j key es) + one_if (p (entry_of es j)) ≡ count p es + one_if (p key)
unfolding place
count-place p zero key es h = count-set p es 0 key h
count-place p (suc j) key es h = elim (Bool-cases (less (entry_of es j) key)) [
  | inl stop ↦ rw (stop, place) (count-set p es (suc j) key h)
  | inr go ↦
      let e = entry_of es j in
      let same = got-other es (suc j) e j h (λ f. absurd (omega arith)) in
      let ih = count-place p j key (set es (suc j) e) (omega (arith, length-set es (suc j) e)) in
      rw (go, place) (omega (arith, ih, ap (λ x. one_if (p x)) same, count-set p es (suc j) e h))
]
