-- ===== src/Bitmap/ZeroRun.antt =====
-- `bitmap_zero_string_longer_than`: what it returns is a run of clear bits, and a run at place 0
-- of a word is never found.
use zeptux.Base.{
  ℕ, zero, suc, ◌+◌, ◌-◌, ◌*◌, ◌/◌, ◌%◌, ◌≤◌, ◌<◌, true, false, List, Option, none, some, ◌≡◌, refl,
  subst, ltb, arith, Option-cases, inl, inr, Bool-cases,
}
use zeptux.Base.Bits.{bit-zero}
use zeptux.Word.{lnot}
use zeptux.Word.Laws.{bit-lnot}
use zeptux.Word.Scan.{First}
use zeptux.Bitmap.Defs.{
  Bitmap, word_at, bit_index, zero_run_in, within, find_bitstring_longer_than,
  bitmap_zero_string_longer_than,
}
use zeptux.Bitmap.View.{member, IsValid}
use zeptux.Bitmap.Run.{run, run-bit, run_of_bits, find_bitstring_longer_than-First}

-- `n` bits from `r` on are clear.
abbrev pub ClearRun : Bitmap → ℕ → ℕ → Type 0
ClearRun b r n = (j : ℕ) → j < n → member b (r + j) ≡ false

-- A result, if there is one, is a run of clear bits.
abbrev pub Finds : Bitmap → ℕ → Option ℕ → Type 0
Finds b n none = Unit {0}
Finds b n (some r) = ClearRun b r n

module _ (b : Bitmap) (n : ℕ) (v : IsValid b) (pos : 0 < n) (le : n ≤ 64) where
  word_run :
      (i index : ℕ)
      → i < b.num_words
      → First (λ lo. run (lnot (word_at b.words i)) lo n) 0 (65 - n) (some index)
      → ClearRun b (bit_index i index) n
  word_run i index lt (a, c, d, _) j h =
      let e : bit_index i index ≡ i * 64 + index = omega (arith, v.tight, v.narrow) in
      let f : (i * 64 + index + j) / 64 ≡ i = omega arith in
      let g : (i * 64 + index + j) % 64 ≡ index + j = omega arith in
      let set = run-bit (lnot (word_at b.words i)) index n j d h in
      rw (e, f, g) (ground (arith, bit-lnot (word_at b.words i) (index + j) (v.width i), set))

  zero_run_in-Finds :
      (left i : ℕ) → i + left ≡ b.num_words → Finds b n (zero_run_in n b.words left i)
  unfolding zero_run_in
  zero_run_in-Finds zero i e = tt
  zero_run_in-Finds (suc left) i e =
      elim (Option-cases (find_bitstring_longer_than (lnot (word_at b.words i)) n)) [
        | inl miss ↦ rw (miss, Finds) (zero_run_in-Finds left (i + 1) (omega arith))
        | inr (index, hit) ↦ elim (Bool-cases (ltb 0 index)) [
          | inl later ↦
              rw (hit, later, Finds)
                (word_run i index (omega arith) (
                  subst (First _ 0 (65 - n)) hit
                    (find_bitstring_longer_than-First (lnot (word_at b.words i)) n pos le)))
          | inr first ↦ rw (hit, first, Finds) (zero_run_in-Finds left (i + 1) (omega arith))
        ]
      ]

  within-Finds :
      (o : Option ℕ) {r : ℕ}
      → Finds b n o
      → within n b.num_bits o ≡ some r
      → ClearRun b r n × (r + n ≤ b.num_bits)
  unfolding within
  within-Finds none f h = absurd (ground arith)
  within-Finds (some s) {r} f h =
      let e : s ≡ r = ground arith in (subst (λ t. ClearRun b t n) e f, ground arith)

  -- In a well-formed bitmap, for a length from 1 to 64: a place that is returned begins a run of
  -- that many clear bits, which ends within `num_bits`.
  pub zero_string-ClearRun :
      {r : ℕ} → bitmap_zero_string_longer_than b n ≡ some r → ClearRun b r n × (r + n ≤ b.num_bits)
  unfolding bitmap_zero_string_longer_than
  zero_string-ClearRun {r} h =
      within-Finds (zero_run_in n b.words b.num_words 0)
        (zero_run_in-Finds b.num_words 0 (omega arith)) (ground arith)

module _ (n : ℕ) (pos : 0 < n) (le : n ≤ 64) where
  run-full : (w : ℕ) → w ≡ 0 → find_bitstring_longer_than (lnot w) n ≡ some 0
  run-full w e = go _ (find_bitstring_longer_than-First (lnot w) n pos le)
    where
      full : run (lnot w) 0 n ≡ true
      full =
          run_of_bits (lnot w) 0 n
            λ j lt. rw e (ground (arith, bit-lnot 0 (0 + j), bit-zero (0 + j)))

      go : (o : Option ℕ) → First (λ lo. run (lnot w) lo n) 0 (65 - n) o → o ≡ some 0
      go none h = absurd (ground (arith, h 0, full))
      go (some zero) h = refl
      go (some (suc r)) (a, b, c, d) = absurd (ground (arith, d 0, full))

  zero_run_in-zero :
      (ws : List ℕ) (left i : ℕ) → ((k : ℕ) → word_at ws k ≡ 0) → zero_run_in n ws left i ≡ none
  unfolding zero_run_in
  zero_run_in-zero ws zero i h = refl
  zero_run_in-zero ws (suc left) i h =
      rw (run-full (word_at ws i) (h i), zero_run_in) (zero_run_in-zero ws left (i + 1) h)

  -- In a bitmap with no bit set no run is found, of any length from 1 to 64.
  pub zero_string-empty :
      (b : Bitmap) → ((k : ℕ) → word_at b.words k ≡ 0) → bitmap_zero_string_longer_than b n ≡ none
  unfolding bitmap_zero_string_longer_than
  zero_string-empty b h = ground (arith, zero_run_in-zero b.words b.num_words 0 h)
