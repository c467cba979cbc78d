-- ===== src/Bitmap/Ops.antt =====
-- `bitmap_init`, `bitmap_set_all` and the single-bit operations keep a bitmap well formed.
use zeptux.Base.{
  ℕ, zero, suc, ◌+◌, ◌-◌, ◌*◌, ◌/◌, ◌%◌, ◌^◌, ◌≤◌, ◌<◌, true, false, ◌&&◌, List, [], ◌∷◌, ◌≡◌, refl,
  ◌∙◌, ◌==◌, ltb, leb, if◌then◌else◌, length, set, get_or-set, length-set, arith, bit_and,
  Bool-cases, inl, inr,
}
use zeptux.Base.Bits.{bit, bit_or-lt, bit_xor-lt, bit-zero, bit-bit_and}
use zeptux.Word.{lnot, bit_mask_below}
use zeptux.Word.Laws.{
  bit_mask-lt, align_up-eq, bit-lnot, bit-mask_below, bit_mask_below-eq, two-pow-lt,
}
use zeptux.Bitmap.Defs.{
  Bitmap, word_at, fill, bitmap_calc_words, bitmap_set, bitmap_clear, bitmap_init, bitmap_clear_all,
  bitmap_set_all,
}
use zeptux.Bitmap.View.{member, IsValid, member-set, member-clear}

-- The words are the bits divided by 64, rounded up.
pub calc_words-eq : (n : ℕ) → n + 64 ≤ 2 ^ 64 → bitmap_calc_words n ≡ (n + 63) / 64
unfolding bitmap_calc_words
calc_words-eq n h = omega (arith, align_up-eq n 6 (omega arith) h)

pub length-fill : (left i v : ℕ) (ws : List ℕ) → length (fill left i v ws) ≡ length ws
unfolding fill
length-fill zero i v ws = refl
length-fill (suc left) i v ws = length-fill left (i + 1) v (set ws i v) ∙ length-set ws i v

pub word_at-fill :
    (left i v : ℕ) (ws : List ℕ) (j : ℕ)
    → i + left ≤ length ws
    → word_at (fill left i v ws) j ≡ (if leb i j && ltb j (i + left) then v else word_at ws j)
unfolding fill
word_at-fill zero i v ws j h = ground arith
word_at-fill (suc left) i v ws j h =
    ground
      (arith, word_at-fill left (i + 1) v (set ws i v) j, length-set ws i v, get_or-set ws i j v 0)

pub get_or_past : (ws : List ℕ) (i : ℕ) → length ws ≤ i → word_at ws i ≡ 0
get_or_past [] i h = refl
get_or_past (x ∷ ws) zero h = absurd (omega arith)
get_or_past (x ∷ ws) (suc i) h = get_or_past ws i (omega arith)

member_past : (b : Bitmap) (i : ℕ) → length b.words * 64 ≤ i → member b i ≡ false
member_past b i h = rw (get_or_past b.words (i / 64) (omega arith)) (bit-zero (i % 64))

width-set :
    (ws : List ℕ) (i v j : ℕ)
    → ((k : ℕ) → word_at ws k < 2 ^ 64)
    → v < 2 ^ 64
    → word_at (set ws i v) j < 2 ^ 64
width-set [] i v j h hv = h j
width-set (x ∷ ws) zero v zero h hv = hv
width-set (x ∷ ws) zero v (suc j) h hv = h (suc j)
width-set (x ∷ ws) (suc i) v zero h hv = h 0
width-set (x ∷ ws) (suc i) v (suc j) h hv = width-set ws i v j (λ k. h (suc k)) hv

-- Setting a bit below `num_bits` keeps a bitmap well formed.
pub set-IsValid : (b : Bitmap) (i : ℕ) → IsValid b → i < b.num_bits → IsValid (bitmap_set b i)
unfolding bitmap_set
set-IsValid b i v h = record {
  size = length-set b.words (i / 64) _ ∙ v.size;
  enough = v.enough;
  tight = v.tight;
  narrow = v.narrow;
  width = λ j.
      width-set b.words (i / 64) _ j v.width
        (bit_or-lt 64 _ _ (v.width (i / 64)) (bit_mask-lt (i % 64)));
  tail = λ j le. ground (arith, member-set b i j, v.tail j, v.size, v.enough);
}

pub clear-IsValid : (b : Bitmap) (i : ℕ) → IsValid b → i < b.num_bits → IsValid (bitmap_clear b i)
unfolding bitmap_clear
clear-IsValid b i v h = record {
  size = length-set b.words (i / 64) _ ∙ v.size;
  enough = v.enough;
  tight = v.tight;
  narrow = v.narrow;
  width = λ j.
      width-set b.words (i / 64) _ j v.width
        (bit_xor-lt 64 _ _ (v.width (i / 64)) (bit_mask-lt (i % 64)));
  tail = λ j le. ground (arith, member-clear b i j, v.tail j, v.size, v.enough);
}

pub member-clear_all :
    (b : Bitmap) (i : ℕ) → length b.words ≡ b.num_words → member (bitmap_clear_all b) i ≡ false
unfolding bitmap_clear_all
member-clear_all b i e = ground (
  arith,
  word_at-fill b.num_words 0 0 b.words (i / 64) (omega arith),
  bit-zero (i % 64),
  get_or_past b.words (i / 64),
)

-- `bitmap_init` for fewer than 2 ^ 32 bits, on an array of the words that they need, makes a
-- well-formed bitmap of `n` bits with none set.
pub init-IsValid :
    (b : Bitmap) (n : ℕ)
    → n < 2 ^ 32
    → length b.words ≡ bitmap_calc_words n
    → IsValid (bitmap_init b n)
      × ((bitmap_init b n).num_bits ≡ n)
      × ((i : ℕ) → member (bitmap_init b n) i ≡ false)
unfolding bitmap_init
init-IsValid b n h e = (
  record {
    size = omega (arith, words, length-fill (bitmap_calc_words n % 2 ^ 32) 0 0 b.words);
    enough = omega (arith, words);
    tight = omega (arith, words);
    narrow = omega arith;
    width = λ i. ground (
      arith,
      words,
      word_at-fill (bitmap_calc_words n % 2 ^ 32) 0 0 b.words i,
      get_or_past b.words i,
    );
    tail = λ i _. clear i;
  },
  omega arith,
  clear,
)
  where
    words : bitmap_calc_words n ≡ (n + 63) / 64
    words = calc_words-eq n (omega arith)

    clear : (i : ℕ) → member (bitmap_init b n) i ≡ false
    clear i =
        member-clear_all
          (record b { num_bits = n % 2 ^ 32; num_words = bitmap_calc_words n % 2 ^ 32 }) i
          (omega (arith, words))

-- On a well-formed bitmap `bitmap_set_all` sets the bits below `num_bits` and no other.
pub member-set_all :
    (b : Bitmap) (i : ℕ) → IsValid b → member (bitmap_set_all b) i ≡ ltb i b.num_bits
unfolding bitmap_set_all
member-set_all b i v = elim (Bool-cases (bit_mask_below rem == 0)) [
  | inl whole ↦
      rw whole (ground (arith, filled, full, past, no_rem whole, v.size, v.enough, v.tight))
  | inr part ↦ rw part (
      ground (
        arith,
        get_or-set ws last (i / 64) (bit_and (word_at ws last) (bit_mask_below rem)) 0,
        length-fill b.num_words 0 (lnot 0) b.words,
        filled,
        full,
        past,
        rem_zero,
        word_at-fill b.num_words 0 (lnot 0) b.words last,
        bit-bit_and (word_at ws last) (bit_mask_below rem) (i % 64),
        bit-mask_below rem (i % 64),
        v.size,
        v.enough,
        v.tight,
      ))
]
  where
    rem : ℕ
    rem = b.num_bits % 64

    last : ℕ
    last = b.num_words - 1

    ws : List ℕ
    ws = fill b.num_words 0 (lnot 0) b.words

    filled : word_at ws (i / 64) ≡ (
        if leb 0 (i / 64) && ltb (i / 64) (0 + b.num_words)
        then lnot 0
        else word_at b.words (i / 64))
    filled = word_at-fill b.num_words 0 (lnot 0) b.words (i / 64) (omega (arith, v.size))

    full : bit (lnot 0) (i % 64) ≡ true
    full = ground (arith, bit-lnot 0 (i % 64), bit-zero (i % 64))

    past : b.num_words ≤ i / 64 → bit (word_at b.words (i / 64)) (i % 64) ≡ false
    past h = member_past b i (omega (arith, v.size))

    rem_zero : bit_mask_below rem ≡ 2 ^ rem - 1
    rem_zero = bit_mask_below-eq rem (omega arith)

    no_rem : (bit_mask_below rem == 0) ≡ true → rem ≡ 0
    no_rem e = elim (Bool-cases (rem == 0)) [
      | inl z ↦ ground arith
      | inr nz ↦ absurd (ground (arith, rem_zero, two-pow-lt 0 rem))
    ]
