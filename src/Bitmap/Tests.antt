-- ===== src/Bitmap/Tests.antt =====
-- The theorems on bitmaps at concrete values.
use zeptux.Base.{
  Bool-cases, inl, inr, ℕ, zero, suc, ◌^◌, ◌-◌, ◌/◌, ◌%◌, ◌<◌, ◌≤◌, true, false, not, [], ◌∷◌, some,
  none, ◌≡◌, refl, ltb, arith,
}
use zeptux.Base.Bits.{bit, bit-zero, bit_of_lt}
use zeptux.Word.{lnot, shl, scan, align_up, find_first_set_bit}
use zeptux.Word.Laws.{align_up-eq}
use zeptux.Word.Scan.{First, find_first_set_bit-First}
use zeptux.Bitmap.Defs.{
  Bitmap, word_at, zero_run_in, within, shrink, start_of, bitmap_clear, bitmap_first_clear,
  find_bitstring_longer_than, bitmap_zero_string_longer_than,
}
use zeptux.Bitmap.View.{member, IsValid, member-clear}
use zeptux.Bitmap.Ops.{get_or_past}
use zeptux.Bitmap.Search.{bitmap_first_clear-First}
use zeptux.Bitmap.ZeroRun.{zero_string-empty}

-- Two words of leftover memory.
abbrev raw : Bitmap
raw = record { num_bits = 7; num_words = 3; words = 5 ∷ 9 ∷ [] }

abbrev fresh : Bitmap
fresh = record { num_bits = 100; num_words = 2; words = 0 ∷ 0 ∷ [] }

no_word : (i : ℕ) → word_at fresh.words i ≡ 0
no_word zero = refl
no_word (suc zero) = refl
no_word (suc (suc i)) = refl

fresh-IsValid : IsValid fresh
fresh-IsValid = record {
  size = refl;
  enough = omega arith;
  tight = omega arith;
  narrow = omega arith;
  width = λ i. omega (arith, no_word i);
  tail = λ i h. rw (no_word (i / 64)) (bit-zero (i % 64));
}

-- The first 69 bits set.
abbrev partial : Bitmap
partial = record { num_bits = 100; num_words = 2; words = (2 ^ 64 - 1) ∷ 31 ∷ [] }

align_up-eq_example : align_up 4097 (2 ^ 12) ≡ 8192
align_up-eq_example = align_up-eq 4097 12 (omega arith) (omega arith)

member-clear_example : member (bitmap_clear fresh 70) 70 ≡ true
member-clear_example = member-clear fresh 70 70 (omega arith)

bitmap_first_clear-First_example :
    First (λ i. not (member fresh i)) 0 100 (bitmap_first_clear fresh)
bitmap_first_clear-First_example = bitmap_first_clear-First fresh fresh-IsValid

find_first_set_bit-First_example : First (bit 40) 0 64 (find_first_set_bit 40)
find_first_set_bit-First_example = find_first_set_bit-First 40

zero_string-empty_example : bitmap_zero_string_longer_than fresh 2 ≡ none
zero_string-empty_example = zero_string-empty 2 (omega arith) (omega arith) fresh no_word

found : bitmap_zero_string_longer_than partial 3 ≡ some 69
unfolding bitmap_zero_string_longer_than zero_run_in within find_bitstring_longer_than shrink
    start_of lnot shl find_first_set_bit scan
found = refl

partial_word : (i : ℕ) → word_at partial.words i < 2 ^ 64
partial_word zero = omega arith
partial_word (suc zero) = omega arith
partial_word (suc (suc i)) = omega arith

partial-IsValid : IsValid partial
partial-IsValid = record {
  size = refl;
  enough = omega arith;
  tight = omega arith;
  narrow = omega arith;
  width = partial_word;
  tail = tail;
}
  where
    tail : (i : ℕ) → 100 ≤ i → member partial i ≡ false
    tail i h = elim (Bool-cases (ltb i 128)) [
      | inl inside ↦
          let e : i / 64 ≡ 1 = ground arith in
          rw e (bit_of_lt 5 31 (i % 64) (omega arith) (ground arith))
      | inr outside ↦ rw (get_or_past partial.words (i / 64) (ground arith)) (bit-zero (i % 64))
    ]
