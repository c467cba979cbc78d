-- ===== src/Bitmap/Search.antt =====
-- `bitmap_first_set` and `bitmap_first_clear` find the lowest such bit of the whole array.
use zeptux.Base.{
  ℕ, zero, suc, ◌+◌, ◌-◌, ◌*◌, ◌/◌, ◌%◌, ◌^◌, ◌≤◌, ◌<◌, Bool, false, not, List, Option, none, some,
  ◌≡◌, sym, ap, subst, ◌∙◌, ltb, leb, arith, Option-cases, inl, inr, Bool-cases,
}
use zeptux.Base.Bits.{bit}
use zeptux.Word.{find_first_set_bit, find_first_clear_bit}
use zeptux.Word.Scan.{First, First-map, find_first_set_bit-First, find_first_clear_bit-First}
use zeptux.Bitmap.Defs.{
  Bitmap, word_at, bit_index, first_in, below, bitmap_first_set, bitmap_first_clear,
}
use zeptux.Bitmap.View.{member, IsValid}

module _ (p : ℕ → Bool) (i : ℕ) (small : i * 64 < 2 ^ 32) where
  abbrev in_word : ℕ → Bool
  in_word j = p (i * 64 + j)

  word_clear : (hi j : ℕ) → First in_word 0 64 none → i * 64 ≤ j → j < i * 64 + 64 → p j ≡ false
  word_clear hi j h a b = ap p (omega arith) ∙ h (j - i * 64) (omega arith) (omega arith)

  found-First :
      (hi index : ℕ)
      → i * 64 + 64 ≤ hi
      → First in_word 0 64 (some index)
      → First p (i * 64) hi (some (bit_index i index))
  found-First hi index le (a, b, c, d) =
      let e : bit_index i index ≡ i * 64 + index = omega arith in
      rw e (
        omega arith,
        omega arith,
        c,
        λ j m n. ap p (omega arith) ∙ d (j - i * 64) (omega arith) (omega arith),
      )

  missed-First :
      (hi : ℕ) (o : Option ℕ)
      → First in_word 0 64 none
      → First p ((i + 1) * 64) hi o
      → First p (i * 64) hi o
  missed-First hi none h t = λ j a b. elim (Bool-cases (ltb j (i * 64 + 64))) [
    | inl lt ↦ word_clear hi j h a (ground arith)
    | inr ge ↦ t j (ground arith) b
  ]
  missed-First hi (some r) h (a, b, c, d) = (
    omega arith,
    b,
    c,
    λ j m n. elim (Bool-cases (ltb j (i * 64 + 64))) [
      | inl lt ↦ word_clear hi j h m (ground arith)
      | inr ge ↦ d j (ground arith) n
    ],
  )

module _ (find : ℕ → Option ℕ) (ws : List ℕ) (p : ℕ → Bool) (n : ℕ) (small : n * 64 < 2 ^ 32 + 64)
    (each : (k : ℕ) → First (λ j. p (k * 64 + j)) 0 64 (find (word_at ws k))) where
  pub first_in-First :
      (left i : ℕ) → i + left ≡ n → First p (i * 64) (n * 64) (first_in find ws left i)
  unfolding first_in
  first_in-First zero i e = λ j a b. absurd (omega arith)
  first_in-First (suc left) i e = elim (Option-cases (find (word_at ws i))) [
    | inl miss ↦
        rw (miss, First)
          (missed-First p i (omega arith) (n * 64) _ (subst (First _ 0 64) miss (each i))
            (first_in-First left (i + 1) (omega arith)))
    | inr (index, hit) ↦
        rw (hit, First)
          (found-First p i (omega arith) (n * 64) index (omega arith)
            (subst (First _ 0 64) hit (each i)))
  ]

member-split : (b : Bitmap) (k j : ℕ) → j < 64 → member b (k * 64 + j) ≡ bit (word_at b.words k) j
member-split b k j h =
    let e : (k * 64 + j) / 64 ≡ k = omega arith in
    let f : (k * 64 + j) % 64 ≡ j = omega arith in rw (e, f)

-- The lowest bit of the array that is set, or none when no bit is.
pub bitmap_first_set-First :
    (b : Bitmap) → IsValid b → First (member b) 0 (b.num_words * 64) (bitmap_first_set b)
unfolding bitmap_first_set
bitmap_first_set-First b v =
    first_in-First find_first_set_bit b.words (member b) b.num_words
      (omega (arith, v.tight, v.narrow))
      (λ k.
        First-map (bit (word_at b.words k)) _ 0 64 _ (λ j lt. sym (member-split b k j lt))
          (find_first_set_bit-First (word_at b.words k)))
      b.num_words 0 (omega arith)

below-First :
    (p : ℕ → Bool) (n hi : ℕ) (o : Option ℕ) → n ≤ hi → First p 0 hi o → First p 0 n (below n o)
unfolding below
below-First p n hi none le h = λ j a b. h j a (omega arith)
below-First p n hi (some r) le (a, b, c, d) = elim (Bool-cases (leb n r)) [
  | inl out ↦ rw (out, First) (λ j m k. d j m (ground arith))
  | inr in_range ↦ rw (in_range, First) (a, ground arith, c, d)
]

-- On a well-formed bitmap `bitmap_first_clear` gives the lowest clear bit below `num_bits`, or
-- none when all of them are set.
pub bitmap_first_clear-First :
    (b : Bitmap) → IsValid b → First (λ i. not (member b i)) 0 b.num_bits (bitmap_first_clear b)
unfolding bitmap_first_clear
bitmap_first_clear-First b v = below-First _ b.num_bits (b.num_words * 64) _ v.enough (
    first_in-First find_first_clear_bit b.words (λ i. not (member b i)) b.num_words
      (omega (arith, v.tight, v.narrow))
      (λ k.
        First-map (λ j. not (bit (word_at b.words k) j)) _ 0 64 _
          (λ j lt. ap not (sym (member-split b k j lt)))
          (find_first_clear_bit-First (word_at b.words k) (v.width k)))
      b.num_words 0 (omega arith))
