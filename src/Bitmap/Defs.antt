-- ===== src/Bitmap/Defs.antt =====
-- include/bitmap.h: a bitmap is a count of bits and an array of 64-bit words; and the search for
-- a run of set bits of include/bitwise.h.
use zeptux.Base.{
  ℕ, zero, suc, ◌+◌, ◌-◌, ◌*◌, ◌/◌, ◌%◌, ◌^◌, Bool, Option, none, some, List, ◌==◌, ltb, leb,
  if◌then◌else◌, ◌||◌, bit_and, bit_or, bit_xor, get_or, set,
}
use zeptux.Word.{
  lnot, shl, shr, bit_mask, bit_mask_below, is_bit_set, align_up, find_first_set_bit,
  find_first_clear_bit,
}

-- `struct bitmap`. `words` is the array `data`.
pub record Bitmap : Type 0 where
  pub num_bits : ℕ
  pub num_words : ℕ
  pub words : List ℕ

unfoldable pub bitmap_calc_words : ℕ → ℕ
bitmap_calc_words num_bits = align_up num_bits 64 / 64

-- `sizeof(struct bitmap)` is 8: two 32-bit counts, and an array of no declared length.
unfoldable pub bitmap_calc_size : ℕ → ℕ
unfolding bitmap_calc_words
bitmap_calc_size num_bits = (8 + bitmap_calc_words num_bits * 8) % 2 ^ 64

-- `data[i]`
abbrev pub word_at : List ℕ → ℕ → ℕ
word_at ws i = get_or ws i 0

-- `for (; i < i + left; i++) data[i] = v;`
unfoldable pub fill : ℕ → ℕ → ℕ → List ℕ → List ℕ
fill zero i v ws = ws
fill (suc left) i v ws = fill left (i + 1) v (set ws i v)

unfoldable pub bitmap_clear_all : Bitmap → Bitmap
unfolding fill
bitmap_clear_all b = record b { words = fill b.num_words 0 0 b.words }

unfoldable pub bitmap_set_all : Bitmap → Bitmap
unfolding fill
bitmap_set_all b =
    let ws = fill b.num_words 0 (lnot 0) b.words in
    let final_word_mask = bit_mask_below (b.num_bits % 64) in
    let last = b.num_words - 1 in
    record b {
      words =
          if final_word_mask == 0
          then ws
          else set ws last (bit_and (word_at ws last) final_word_mask);
    }

-- The two counts are stored as uint32_t.
unfoldable pub bitmap_init : Bitmap → ℕ → Bitmap
unfolding bitmap_clear_all bitmap_calc_words
bitmap_init b n =
    bitmap_clear_all (record b { num_bits = n % 2 ^ 32; num_words = bitmap_calc_words n % 2 ^ 32 })

unfoldable pub bitmap_set : Bitmap → ℕ → Bitmap
bitmap_set b n =
    let word = n / 64 in
    let offset = n % 64 in
    record b { words = set b.words word (bit_or (word_at b.words word) (bit_mask offset)) }

unfoldable pub bitmap_clear : Bitmap → ℕ → Bitmap
bitmap_clear b n =
    let word = n / 64 in
    let offset = n % 64 in
    record b { words = set b.words word (bit_xor (word_at b.words word) (bit_mask offset)) }

unfoldable pub bitmap_is_set : Bitmap → ℕ → Bool
bitmap_is_set b n = is_bit_set (word_at b.words (n / 64)) (n % 64)

-- `i * 64 + index`: the product is a uint32_t.
abbrev pub bit_index : ℕ → ℕ → ℕ
bit_index i index = i * 64 % 2 ^ 32 + index

-- The loop over the words from `i`, with `left` words to go; `none` is -1.
unfoldable pub first_in : (ℕ → Option ℕ) → List ℕ → ℕ → ℕ → Option ℕ
first_in find ws zero i = none
first_in find ws (suc left) i = elim (find (word_at ws i)) [
  | some index ↦ some (bit_index i index)
  | none ↦ first_in find ws left (i + 1)
]

unfoldable pub bitmap_first_set : Bitmap → Option ℕ
unfolding first_in
bitmap_first_set b = first_in find_first_set_bit b.words b.num_words 0

unfoldable pub below : ℕ → Option ℕ → Option ℕ
below n none = none
below n (some r) = if leb n r then none else some r

unfoldable pub bitmap_first_clear : Bitmap → Option ℕ
unfolding first_in below
bitmap_first_clear b = below b.num_bits (first_in find_first_clear_bit b.words b.num_words 0)

-- `while (curr > 1) { s = curr >> 1; x &= x << s; curr -= s; }`, on fuel.
unfoldable pub shrink : ℕ → ℕ → ℕ → ℕ
shrink zero x curr = x
shrink (suc fuel) x curr =
    let s = shr curr 1 in
    let rest = shrink fuel (bit_and x (shl x s)) (curr - s) in if ltb 1 curr then rest else x

-- `ret - n + 1`, which is never negative here; `none` is -1.
unfoldable pub start_of : ℕ → Option ℕ → Option ℕ
start_of n none = none
start_of n (some ret) = some (ret + 1 - n)

unfoldable pub find_bitstring_longer_than : ℕ → ℕ → Option ℕ
unfolding shrink start_of
find_bitstring_longer_than x n = start_of n (find_first_set_bit (shrink n x n))

-- The loop over the words: a run that begins at place 0 of a word is passed over (`index > 0`).
unfoldable pub zero_run_in : ℕ → List ℕ → ℕ → ℕ → Option ℕ
zero_run_in n ws zero i = none
zero_run_in n ws (suc left) i = elim (find_bitstring_longer_than (lnot (word_at ws i)) n) [
  | some index ↦
      let rest = zero_run_in n ws left (i + 1) in
      if ltb 0 index then some (bit_index i index) else rest
  | none ↦ zero_run_in n ws left (i + 1)
]

-- `ret >= num_bits || ret + n > num_bits ? -1 : ret`
unfoldable pub within : ℕ → ℕ → Option ℕ → Option ℕ
within n num_bits none = none
within n num_bits (some ret) = if leb num_bits ret || ltb num_bits (ret + n) then none else some ret

-- The counts are compared as int: num_bits is taken below 2 ^ 31.
unfoldable pub bitmap_zero_string_longer_than : Bitmap → ℕ → Option ℕ
unfolding zero_run_in within find_bitstring_longer_than
bitmap_zero_string_longer_than b n =
    if ltb 64 n then none else within n b.num_bits (zero_run_in n b.words b.num_words 0)
