-- ===== src/Phys/Buddy.antt =====
-- The buddy of a block: the other half of the block of the next order.
use zeptux.Base.{ℕ, zero, suc, ◌+◌, ◌*◌, ◌/◌, ◌%◌, ◌^◌, ◌≤◌, ◌<◌, bit_xor, ◌≡◌, ap, subst, arith}
use zeptux.Base.Bits.{bit-bit_xor, bit_xor-lt, bit_xor_step, eq_of_bits, mod-two-pow-suc, bit-zero}
use native.Mathlib.Nat.{pow-suc}
use zeptux.Word.{shl}
use zeptux.Phys.{max_order, pfn_to_buddy_pfn, physblock_to_pfn, pfn_to_physblock_raw}

xor-zero : (k x : ℕ) → x < 2 ^ k → bit_xor x 0 ≡ x
xor-zero k x lt =
    eq_of_bits k (bit_xor x 0) x (bit_xor-lt k x 0 lt (omega arith)) lt
      (λ i h. ground (arith, bit-bit_xor x 0 i, bit-zero i))

-- Digit `n` of a number whose lower digits are clear, and it too.
xor_up : (k n p : ℕ) → n < k → p < 2 ^ k → p % 2 ^ suc n ≡ 0 → bit_xor p (2 ^ n) ≡ p + 2 ^ n
xor_up zero n p nk lt al = absurd (omega arith)
xor_up (suc k) zero p nk lt al =
    omega (arith, bit_xor_step p 1, xor-zero k (p / 2) (omega (arith, pow-suc 2 k)))
xor_up (suc k) (suc n) p nk lt al =
    let e : 2 ^ suc n / 2 ≡ 2 ^ n = omega (arith, pow-suc 2 n) in
    let rest = mod-two-pow-suc (suc n) p in
    omega (
      arith,
      bit_xor_step p (2 ^ suc n),
      ap (bit_xor (p / 2)) e,
      pow-suc 2 n,
      pow-suc 2 k,
      rest,
      xor_up k n (p / 2) (omega arith) (omega (arith, pow-suc 2 k)) (omega (arith, rest)),
    )

bit_xor_twice : (k x y : ℕ) → x < 2 ^ k → y < 2 ^ k → bit_xor (bit_xor x y) y ≡ x
bit_xor_twice k x y lx ly =
    eq_of_bits k (bit_xor (bit_xor x y) y) x
      (bit_xor-lt k (bit_xor x y) y (bit_xor-lt k x y lx ly) ly) lx
      (λ i h. ground (arith, bit-bit_xor (bit_xor x y) y i, bit-bit_xor x y i))

pub two_pow_pos : (k : ℕ) → 0 < 2 ^ k
two_pow_pos zero = omega arith
two_pow_pos (suc k) = omega (arith, pow-suc 2 k, two_pow_pos k)

pub two_pow_lt : (n k : ℕ) → n < k → 2 ^ n < 2 ^ k
two_pow_lt n zero h = absurd (omega arith)
two_pow_lt zero (suc k) h = omega (arith, pow-suc 2 k, two_pow_pos k)
two_pow_lt (suc n) (suc k) h = omega (arith, pow-suc 2 n, pow-suc 2 k, two_pow_lt n k (omega arith))

-- For an order up to the largest one, the buddy of the buddy of a PFN is the PFN; and of a block
-- of the next order, aligned to its size, the two halves are each other's buddies.
pub pfn_to_buddy_pfn-Buddies :
    (order pfn : ℕ)
    → order ≤ max_order
    → pfn < 2 ^ 64
    → (pfn_to_buddy_pfn (pfn_to_buddy_pfn pfn order) order ≡ pfn)
      × (pfn % 2 ^ (order + 1) ≡ 0
          → (pfn_to_buddy_pfn pfn order ≡ pfn + 2 ^ order)
            × (pfn_to_buddy_pfn (pfn + 2 ^ order) order ≡ pfn))
unfolding pfn_to_buddy_pfn shl
pfn_to_buddy_pfn-Buddies order pfn le lt =
    let small = two_pow_lt order 64 (omega arith) in
    let unit : 1 * 2 ^ order % 2 ^ 64 ≡ 2 ^ order = omega (arith, small) in
    let back = bit_xor_twice 64 pfn (2 ^ order) lt small in
    rw unit (
      back,
      λ al.
          let one : order + 1 ≡ suc order = omega arith in
          let up = xor_up 64 order pfn (omega arith) lt (subst (λ n. pfn % 2 ^ n ≡ 0) one al) in
          (up, rw (← up) back),
    )

-- A PFN below 2 ^ 40 comes back from its physblock.
pub physblock_to_pfn-back :
    (pfn : ℕ) → pfn < 2 ^ 40 → physblock_to_pfn (pfn_to_physblock_raw pfn) ≡ pfn
unfolding physblock_to_pfn pfn_to_physblock_raw
physblock_to_pfn-back pfn lt = omega arith
