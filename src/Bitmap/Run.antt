-- ===== src/Bitmap/Run.antt =====
-- The search for a run of set bits in a word: shifting and masking in halves marks the last
-- place of every run.
use zeptux.Base.{
  ℕ, zero, suc, ◌+◌, ◌-◌, ◌/◌, ◌≤◌, ◌<◌, Bool, true, false, ◌&&◌, Option, none, some, ◌≡◌, refl,
  sym, ap, subst, ◌∙◌, ltb, leb, arith, bit_and, inl, inr, Bool-cases,
}
use zeptux.Base.Bits.{bit, bit-bit_and}
use zeptux.Word.{shl}
use zeptux.Word.Laws.{bit-shl}
use zeptux.Word.Scan.{First, First-map, find_first_set_bit-First}
use zeptux.Bitmap.Defs.{shrink, start_of, find_bitstring_longer_than}

-- The `n` digits of `x` from place `lo` on are set.
pub run : ℕ → ℕ → ℕ → Bool
run x lo zero = true
run x lo (suc n) = bit x lo && run x (lo + 1) n

bit_move : (x a b : ℕ) → a ≡ b → bit x b ≡ true → bit x a ≡ true
bit_move x a b e h = subst (λ k. bit x k ≡ true) (sym e) h

pub run-bit : (x lo n j : ℕ) → run x lo n ≡ true → j < n → bit x (lo + j) ≡ true
unfolding run
run-bit x lo zero j h lt = absurd (omega arith)
run-bit x lo (suc n) zero h lt = bit_move x (lo + 0) lo (omega arith) (ground arith)
run-bit x lo (suc n) (suc j) h lt =
    bit_move x (lo + suc j) (lo + 1 + j) (omega arith)
      (run-bit x (lo + 1) n j (ground arith) (omega arith))

pub run_of_bits : (x lo n : ℕ) → ((j : ℕ) → j < n → bit x (lo + j) ≡ true) → run x lo n ≡ true
unfolding run
run_of_bits x lo zero h = refl
run_of_bits x lo (suc n) h =
    let first : bit x lo ≡ true = bit_move x lo (lo + 0) (omega arith) (h 0 (omega arith)) in
    rw first (
      run_of_bits x (lo + 1) n
        (λ j lt. bit_move x (lo + 1 + j) (lo + suc j) (omega arith) (h (suc j) (omega arith))))

bool_ext : (a b : Bool) → (a ≡ true → b ≡ true) → (b ≡ true → a ≡ true) → a ≡ b
bool_ext true b f g = sym (f refl)
bool_ext false true f g = g refl
bool_ext false false f g = refl

-- One round: digit `i` stays if digit `i - s` is set too.
bit-round :
    (x s i : ℕ) → i < 64 → bit (bit_and x (shl x s)) i ≡ (bit x i && (leb s i && bit x (i - s)))
bit-round x s i h = ground (arith, bit-bit_and x (shl x s) i, bit-shl x s i)

module _ (x s lo m : ℕ) (fits : lo + m ≤ 64) (half : s ≤ m) (some_left : 0 < m) where
  abbrev rounded : ℕ
  rounded = bit_and x (shl x s)

  run_longer : run rounded lo m ≡ true → (leb s lo && run x (lo - s) (m + s)) ≡ true
  run_longer h = ground (arith, low, run_of_bits x (lo - s) (m + s) bits)
    where
      at : (j : ℕ) → j < m → (bit x (lo + j) && (leb s (lo + j) && bit x (lo + j - s))) ≡ true
      at j lt = sym (bit-round x s (lo + j) (omega arith)) ∙ run-bit rounded lo m j h lt

      low : s ≤ lo
      low = ground (arith, at 0)

      bits : (j : ℕ) → j < m + s → bit x (lo - s + j) ≡ true
      bits j lt = elim (Bool-cases (ltb j m)) [
        | inl before ↦
            let e : lo - s + j ≡ lo + j - s = omega (arith, low) in rw e (ground (arith, at j))
        | inr after ↦
            let g : m ≤ j = ground arith in
            let e : lo - s + j ≡ lo + (j - s) = omega (arith, low) in
            rw e (ground (arith, at (j - s)))
      ]

  run_shorter : (leb s lo && run x (lo - s) (m + s)) ≡ true → run rounded lo m ≡ true
  run_shorter h = run_of_bits rounded lo m λ j lt. bit-round x s (lo + j) (omega arith) ∙ both j lt
    where
      low : s ≤ lo
      low = ground arith

      all : run x (lo - s) (m + s) ≡ true
      all = ground arith

      both : (j : ℕ) → j < m → (bit x (lo + j) && (leb s (lo + j) && bit x (lo + j - s))) ≡ true
      both j lt =
          let e : lo - s + (j + s) ≡ lo + j = omega (arith, low) in
          let f : lo - s + j ≡ lo + j - s = omega (arith, low) in
          let a = run-bit x (lo - s) (m + s) (j + s) all (omega arith) in
          let b = run-bit x (lo - s) (m + s) j all (omega arith) in
          ground (arith, subst (λ k. bit x k ≡ true) e a, subst (λ k. bit x k ≡ true) f b, low)

  pub run-round : run rounded lo m ≡ (leb s lo && run x (lo - s) (m + s))
  run-round = bool_ext _ _ run_longer run_shorter

-- After the loop, digit `i` is set exactly when the `curr` digits that end there were.
pub bit-shrink :
    (fuel x curr i : ℕ)
    → curr ≤ fuel
    → 0 < curr
    → i < 64
    → bit (shrink fuel x curr) i ≡ (leb curr (i + 1) && run x (i + 1 - curr) curr)
unfolding shrink run
bit-shrink zero x curr i le pos h = absurd (omega arith)
bit-shrink (suc fuel) x curr i le pos h = elim (Bool-cases (ltb 1 curr)) [
  | inl more ↦
      let s = curr / 2 in
      let m = curr - s in
      let two : 1 < curr = ground arith in
      let ih = bit-shrink fuel (bit_and x (shl x s)) m i (omega arith) (omega arith) h in
      rw (more, ih)
        (elim (Bool-cases (leb m (i + 1))) [
          | inl ok ↦
              let a : m ≤ i + 1 = ground arith in
              let e : i + 1 - m - s ≡ i + 1 - curr = omega arith in
              let f : m + s ≡ curr = omega arith in
              let g = run-round x s (i + 1 - m) m (omega arith) (omega arith) (omega arith) in
              rw (ok, g, e, f) (ground arith)
          | inr short ↦ ground arith
        ])
  | inr done ↦
      let e : curr ≡ 1 = ground arith in
      let f : i + 1 - 1 ≡ i = omega arith in rw (done, e, f) (ground arith)
]

start_of-First :
    (x n : ℕ) (o : Option ℕ)
    → 0 < n
    → n ≤ 64
    → First (λ i. leb n (i + 1) && run x (i + 1 - n) n) 0 64 o
    → First (λ lo. run x lo n) 0 (65 - n) (start_of n o)
unfolding start_of
start_of-First x n none pos le h = λ j a b.
    let e : j + n - 1 + 1 - n ≡ j = omega arith in
    ground (arith, h (j + n - 1), ap (λ (t : ℕ). run x t n) e)
start_of-First x n (some r) pos le (a, b, c, d) = (
  omega arith,
  ground arith,
  ground arith,
  λ j m k.
      let e : j + n - 1 + 1 - n ≡ j = omega arith in
      ground (arith, d (j + n - 1), ap (λ (t : ℕ). run x t n) e),
)

-- For a length `n` from 1 to 64: the lowest place where `n` set digits of the word begin, or
-- none.
pub find_bitstring_longer_than-First :
    (x n : ℕ)
    → 0 < n
    → n ≤ 64
    → First (λ lo. run x lo n) 0 (65 - n) (find_bitstring_longer_than x n)
unfolding find_bitstring_longer_than
find_bitstring_longer_than-First x n pos le = start_of-First x n _ pos le (
    First-map (bit (shrink n x n)) _ 0 64 _ (λ j lt. bit-shrink n x n j (omega arith) pos lt)
      (find_first_set_bit-First (shrink n x n)))
