-- ===== src/Bitmap/View.antt =====
-- A bitmap as a set of bits: what setting and clearing one bit does to it.
use zeptux.Base.{
  ℕ, ◌+◌, ◌*◌, ◌/◌, ◌%◌, ◌^◌, ◌≤◌, ◌<◌, Bool, false, not, ◌||◌, ◌≡◌, ◌==◌, if◌then◌else◌, length,
  get_or-set, arith, bit_or, bit_xor,
}
use zeptux.Base.Bits.{bit, bit-bit_or, bit-bit_xor}
use zeptux.Word.{bit_mask}
use zeptux.Word.Laws.{is_bit_set-bit, bit-bit_mask}
use zeptux.Bitmap.Defs.{Bitmap, word_at, bitmap_set, bitmap_clear, bitmap_is_set}

-- Bit `i` of the array.
abbrev pub member : Bitmap → ℕ → Bool
member b i = bit (word_at b.words (i / 64)) (i % 64)

-- A bitmap as `bitmap_init` makes it: the array has the words that the bits need, and the bits
-- past `num_bits` are clear.
pub record IsValid (b : Bitmap) : Type 0 where
  pub size : length b.words ≡ b.num_words
  pub enough : b.num_bits ≤ b.num_words * 64
  pub tight : b.num_words * 64 < b.num_bits + 64
  pub narrow : b.num_bits < 2 ^ 32
  pub width : (i : ℕ) → word_at b.words i < 2 ^ 64
  pub tail : (i : ℕ) → b.num_bits ≤ i → member b i ≡ false

pub is_set-member : (b : Bitmap) (i : ℕ) → bitmap_is_set b i ≡ member b i
unfolding bitmap_is_set
is_set-member b i = is_bit_set-bit (word_at b.words (i / 64)) (i % 64) (omega arith)

-- Setting bit `i`, of a word that the array has, adds that bit and changes no other.
pub member-set :
    (b : Bitmap) (i j : ℕ)
    → i / 64 < length b.words
    → member (bitmap_set b i) j ≡ (i == j || member b j)
unfolding bitmap_set
member-set b i j h = ground (
  arith,
  get_or-set b.words (i / 64) (j / 64) (bit_or (word_at b.words (i / 64)) (bit_mask (i % 64))) 0 h,
  bit-bit_or (word_at b.words (i / 64)) (bit_mask (i % 64)) (j % 64),
  bit-bit_mask (i % 64) (j % 64),
)

-- Clearing bit `i`, of a word that the array has, toggles it, so that a clear bit becomes set, and
-- changes no other.
pub member-clear :
    (b : Bitmap) (i j : ℕ)
    → i / 64 < length b.words
    → member (bitmap_clear b i) j ≡ (if i == j then not (member b j) else member b j)
unfolding bitmap_clear
member-clear b i j h = ground (
  arith,
  get_or-set b.words (i / 64) (j / 64) (bit_xor (word_at b.words (i / 64)) (bit_mask (i % 64))) 0 h,
  bit-bit_xor (word_at b.words (i / 64)) (bit_mask (i % 64)) (j % 64),
  bit-bit_mask (i % 64) (j % 64),
)
