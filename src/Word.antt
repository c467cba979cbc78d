-- ===== src/Word.antt =====
-- 64-bit words: the bit-mask and alignment macros of include/macros.h, the bit scans of
-- include/compiler.h. A uint64_t is a number below 2 ^ 64, and the wrap-around is written out.
pub mod Laws
pub mod Scan
use zeptux.Base.{
  ℕ, zero, suc, ◌+◌, ◌-◌, ◌*◌, ◌/◌, ◌%◌, ◌^◌, Bool, true, false, bit_and, Option, none, some, ◌==◌,
}
use zeptux.Base.Bits.{bit}

abbrev pub u64_mod : ℕ
u64_mod = 2 ^ 64

-- `~x`
unfoldable pub lnot : ℕ → ℕ
lnot x = 2 ^ 64 - 1 - x

-- `x << k` and `x >> k`
unfoldable pub shl : ℕ → ℕ → ℕ
shl x k = x * 2 ^ k % 2 ^ 64

abbrev pub shr : ℕ → ℕ → ℕ
shr x k = x / 2 ^ k

unfoldable pub bit_mask : ℕ → ℕ
unfolding shl
bit_mask b = shl 1 b

unfoldable pub bit_mask_excluding : ℕ → ℕ
unfolding lnot bit_mask
bit_mask_excluding b = lnot (bit_mask b)

-- The subtraction wraps: 2 ^ 64 is added first.
unfoldable pub bit_mask_below : ℕ → ℕ
unfolding bit_mask
bit_mask_below b = (bit_mask b + 2 ^ 64 - 1) % 2 ^ 64

unfoldable pub bit_mask_above : ℕ → ℕ
unfolding lnot bit_mask_below
bit_mask_above b = lnot (bit_mask_below b)

unfoldable pub is_mask_set : ℕ → ℕ → Bool
is_mask_set v m = bit_and v m == m

unfoldable pub is_bit_set : ℕ → ℕ → Bool
unfolding is_mask_set bit_mask
is_bit_set v b = is_mask_set v (bit_mask b)

unfoldable pub align : ℕ → ℕ → ℕ
unfolding lnot
align n to = bit_and n (lnot ((to + 2 ^ 64 - 1) % 2 ^ 64))

unfoldable pub align_up : ℕ → ℕ → ℕ
unfolding align
align_up n to = align ((n + to + 2 ^ 64 - 1) % 2 ^ 64) to

unfoldable pub is_aligned : ℕ → ℕ → Bool
is_aligned n to = bit_and n ((to + 2 ^ 64 - 1) % 2 ^ 64) == 0

unfoldable pub align_offset : ℕ → ℕ → ℕ
unfolding align
align_offset n to = (n + 2 ^ 64 - align n to) % 2 ^ 64

-- The lowest set digit at place `i` or above, with `left` places to look at.
unfoldable pub scan : ℕ → ℕ → ℕ → Option ℕ
scan zero x i = none
scan (suc left) x i = elim (bit x i) [ true ↦ some i | false ↦ scan left x (i + 1) ]

-- `none` is the -1 that stands for "no such bit".
unfoldable pub find_first_set_bit : ℕ → Option ℕ
unfolding scan
find_first_set_bit x = scan 64 x 0

unfoldable pub find_first_clear_bit : ℕ → Option ℕ
unfolding lnot find_first_set_bit
find_first_clear_bit x = find_first_set_bit (lnot x)
