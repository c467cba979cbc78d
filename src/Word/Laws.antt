-- ===== src/Word/Laws.antt =====
-- What the masks, tests and alignments of 64-bit words do to single digits, and in arithmetic.
use native.Mathlib.Nat.{pow-suc, one-le-pow, mod-le, div-mul-le_self}
use zeptux.Base.{
  ℕ, zero, suc, ◌+◌, ◌-◌, ◌*◌, ◌/◌, ◌%◌, ◌^◌, ◌≤◌, ◌<◌, true, not, ◌&&◌, bit_and, ◌≡◌, inl, inr,
  ◌==◌, ltb, leb, arith, Bool-cases,
}
use zeptux.Base.Bits.{
  bit, bit-bit_and, bit-zero, eq_of_bits, bit_of_lt, bit-two-pow, bit-mod, bit-mul-two-pow,
  bit-complement, bit_and-lt, bit_and-two-pow, bit-div-two-pow,
}
use zeptux.Word.{lnot, shl, bit_mask, bit_mask_below, is_bit_set, align, align_up, is_aligned}

pub lnot-lt : (x : ℕ) → lnot x < 2 ^ 64
unfolding lnot
lnot-lt x = omega arith

pub lnot-lnot : (x : ℕ) → x < 2 ^ 64 → lnot (lnot x) ≡ x
unfolding lnot
lnot-lnot x h = omega arith

pub bit-lnot : (x i : ℕ) → x < 2 ^ 64 → i < 64 → bit (lnot x) i ≡ not (bit x i)
unfolding lnot
bit-lnot x i h lt = bit-complement 64 x i h lt

pub two-pow-lt : (k n : ℕ) → k < n → 2 ^ k < 2 ^ n
two-pow-lt k zero h = absurd (omega arith)
two-pow-lt zero (suc n) h = omega (arith, pow-suc 2 n, one-le-pow n 2)
two-pow-lt (suc k) (suc n) h = omega (arith, pow-suc 2 n, pow-suc 2 k, two-pow-lt k n (omega arith))

pub bit_mask-eq : (b : ℕ) → b < 64 → bit_mask b ≡ 2 ^ b
unfolding bit_mask
bit_mask-eq b h = omega (arith, two-pow-lt b 64 h)

pub bit_mask_below-eq : (b : ℕ) → b < 64 → bit_mask_below b ≡ 2 ^ b - 1
unfolding bit_mask_below
bit_mask_below-eq b h = omega (arith, two-pow-lt b 64 h, one-le-pow b 2)

pub bit-mask_below : (b i : ℕ) → b < 64 → bit (bit_mask_below b) i ≡ ltb i b
bit-mask_below b i h = elim (Bool-cases (ltb i b)) [
  | inl lt ↦ rw (bit_mask_below-eq b h, lt) (below (ground arith))
  | inr ge ↦
      rw (bit_mask_below-eq b h, ge)
        (bit_of_lt b (2 ^ b - 1) i (omega (arith, one-le-pow b 2)) (ground arith))
]
  where
    below : i < b → bit (2 ^ b - 1) i ≡ true
    below lt = ground (arith, bit-complement b 0 i, bit-zero i, one-le-pow b 2)

-- The macro's test is the digit.
pub is_bit_set-bit : (x b : ℕ) → b < 64 → is_bit_set x b ≡ bit x b
unfolding is_bit_set
is_bit_set-bit x b h = rw (bit_mask-eq b h) (ground (arith, bit_and-two-pow x b, one-le-pow b 2))

pub bit-bit_mask : (b i : ℕ) → b < 64 → bit (bit_mask b) i ≡ (b == i)
bit-bit_mask b i h = rw (bit_mask-eq b h) (bit-two-pow b i)

-- Digits within the word of the set, cleared and toggled words.
pub bit_and-mask_below : (x k : ℕ) → k < 64 → x < 2 ^ 64 → bit_and x (2 ^ k - 1) ≡ x % 2 ^ k
bit_and-mask_below x k h lx =
    eq_of_bits 64 _ _ (bit_and-lt 64 x (2 ^ k - 1) (omega (arith, two-pow-lt k 64 h)))
      (omega (arith, mod-le x (2 ^ k)))
      λ i hi.
        rw (← bit_mask_below-eq k h)
          (ground (arith, bit-bit_and x (bit_mask_below k) i, bit-mask_below k i h, bit-mod k x i))

-- Alignment to a power of two rounds down to a multiple of it.
pub align-eq : (n k : ℕ) → k < 64 → n < 2 ^ 64 → align n (2 ^ k) ≡ n / 2 ^ k * 2 ^ k
unfolding align
align-eq n k h ln =
    let e : (2 ^ k + 2 ^ 64 - 1) % 2 ^ 64 ≡ 2 ^ k - 1 =
      omega (arith, two-pow-lt k 64 h, one-le-pow k 2) in
    rw e (
      eq_of_bits 64 _ _ (bit_and-lt 64 n _ (lnot-lt _)) (omega (arith, div-mul-le_self n (2 ^ k)))
        λ i hi. rw (← bit_mask_below-eq k h) (digits i hi))
  where
    digits :
        (i : ℕ) → i < 64 → bit (bit_and n (lnot (bit_mask_below k))) i ≡ bit (n / 2 ^ k * 2 ^ k) i
    digits i hi =
        let lb : bit_mask_below k < 2 ^ 64 =
          rw (bit_mask_below-eq k h) (omega (arith, two-pow-lt k 64 h)) in
        ground (
          arith,
          bit-bit_and n (lnot (bit_mask_below k)) i,
          bit-lnot (bit_mask_below k) i lb hi,
          bit-mask_below k i h,
          bit-mul-two-pow k (n / 2 ^ k) i,
          bit-div-two-pow k n (i - k),
        )

pub align_up-eq :
    (n k : ℕ) → k < 64 → n + 2 ^ k ≤ 2 ^ 64 → align_up n (2 ^ k) ≡ (n + 2 ^ k - 1) / 2 ^ k * 2 ^ k
unfolding align_up
align_up-eq n k h ln =
    let e : (n + 2 ^ k + 2 ^ 64 - 1) % 2 ^ 64 ≡ n + 2 ^ k - 1 = omega (arith, one-le-pow k 2) in
    rw e (align-eq (n + 2 ^ k - 1) k h (omega (arith, one-le-pow k 2)))

-- The alignment test is divisibility.
pub is_aligned-eq : (n k : ℕ) → k < 64 → n < 2 ^ 64 → is_aligned n (2 ^ k) ≡ (n % 2 ^ k == 0)
unfolding is_aligned
is_aligned-eq n k h ln =
    let e : (2 ^ k + 2 ^ 64 - 1) % 2 ^ 64 ≡ 2 ^ k - 1 =
      omega (arith, two-pow-lt k 64 h, one-le-pow k 2) in
    rw (e, bit_and-mask_below n k h ln)

pub bit_mask-lt : (b : ℕ) → bit_mask b < 2 ^ 64
unfolding bit_mask
bit_mask-lt b = omega arith

pub bit-shl : (x s i : ℕ) → bit (shl x s) i ≡ (ltb i 64 && (leb s i && bit x (i - s)))
unfolding shl
bit-shl x s i = ground (arith, bit-mod 64 (x * 2 ^ s) i, bit-mul-two-pow s x i)
