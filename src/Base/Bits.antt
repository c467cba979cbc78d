-- ===== src/Base/Bits.antt =====
-- The binary digits of a number, and what the native bit operations do to each of them.
mod Step
pub use Step.{bit_and-zero, bit_xor_step}
use Step.{bit_or_step, bit_and_step}
use Prim.Native.Nat.{ℕ, zero, suc, ◌+◌, ◌-◌, ◌*◌, ◌/◌, ◌%◌, ◌^◌, ◌≤◌, ◌<◌, bit_and, bit_or, bit_xor}
use mathlib.Core.Path.{◌≡◌, refl, ap, sym, ◌∙◌}
use mathlib.Core.Bool.{Bool, true, false, not, ◌&&◌, ◌||◌}
use native.Mathlib.Nat.{pow-suc, mul_comm, div-div-eq-div-mul, mod-add-div}
use native.Mathlib.Omega.{arith}
use zeptux.Base.Tests.{◌==◌, ltb, leb, if◌then◌else◌}

-- Exclusive or.
abbrev pub xorb : Bool → Bool → Bool
xorb true b = not b
xorb false b = b

-- Digit `i` of `x`, the lowest being digit 0.
abbrev pub bit : ℕ → ℕ → Bool
bit x zero = x % 2 == 1
bit x (suc i) = bit (x / 2) i

pub bit-bit_or : (a b i : ℕ) → bit (bit_or a b) i ≡ (bit a i || bit b i)
bit-bit_or a b zero = ground (arith, bit_or_step a b)
bit-bit_or a b (suc i) =
    let e : bit_or a b / 2 ≡ bit_or (a / 2) (b / 2) = omega (arith, bit_or_step a b) in
    rw e (bit-bit_or (a / 2) (b / 2) i)

pub bit-bit_and : (a b i : ℕ) → bit (bit_and a b) i ≡ (bit a i && bit b i)
bit-bit_and a b zero = ground (arith, bit_and_step a b)
bit-bit_and a b (suc i) =
    let e : bit_and a b / 2 ≡ bit_and (a / 2) (b / 2) = omega (arith, bit_and_step a b) in
    rw e (bit-bit_and (a / 2) (b / 2) i)

pub bit-bit_xor : (a b i : ℕ) → bit (bit_xor a b) i ≡ xorb (bit a i) (bit b i)
bit-bit_xor a b zero = ground (arith, bit_xor_step a b)
bit-bit_xor a b (suc i) =
    let e : bit_xor a b / 2 ≡ bit_xor (a / 2) (b / 2) = omega (arith, bit_xor_step a b) in
    rw e (bit-bit_xor (a / 2) (b / 2) i)

pub bit-zero : (i : ℕ) → bit 0 i ≡ false
bit-zero zero = refl
bit-zero (suc i) = bit-zero i

-- Numbers below 2 ^ k with the same digits are equal.
pub eq_of_bits : (k a b : ℕ) → a < 2 ^ k → b < 2 ^ k → ((i : ℕ) → i < k → bit a i ≡ bit b i) → a ≡ b
eq_of_bits zero a b ha hb h = omega arith
eq_of_bits (suc k) a b ha hb h = ground (
  arith,
  h 0,
  eq_of_bits k (a / 2) (b / 2) (omega (arith, pow-suc 2 k)) (omega (arith, pow-suc 2 k))
      (λ i hi. h (suc i) (omega arith)),
)

-- Digits from place `k` on are clear below 2 ^ k.
pub bit_of_lt : (k x i : ℕ) → x < 2 ^ k → k ≤ i → bit x i ≡ false
bit_of_lt zero x i h le = let e : x ≡ 0 = omega arith in rw e (bit-zero i)
bit_of_lt (suc k) x zero h le = absurd (omega arith)
bit_of_lt (suc k) x (suc i) h le = bit_of_lt k (x / 2) i (omega (arith, pow-suc 2 k)) (omega arith)

pub bit-two-pow : (k i : ℕ) → bit (2 ^ k) i ≡ (k == i)
bit-two-pow zero zero = refl
bit-two-pow zero (suc i) = ground (arith, bit-zero i)
bit-two-pow (suc k) zero = ground (arith, pow-suc 2 k)
bit-two-pow (suc k) (suc i) =
    let e : 2 ^ suc k / 2 ≡ 2 ^ k = omega (arith, pow-suc 2 k) in
    rw e (ground (arith, bit-two-pow k i))

pub mod-two-pow-suc : (k x : ℕ) → x % 2 ^ suc k ≡ x / 2 % 2 ^ k * 2 + x % 2
mod-two-pow-suc k x =
    let e : x / 2 ^ suc k ≡ x / 2 / 2 ^ k =
      ap (λ (t : ℕ). x / t) (pow-suc 2 k ∙ mul_comm (2 ^ k) 2)
      ∙ sym (div-div-eq-div-mul x 2 (2 ^ k)) in
    omega (
      arith,
      pow-suc 2 k,
      ap (λ (t : ℕ). 2 ^ suc k * t) e,
      ap (λ (t : ℕ). t * (x / 2 / 2 ^ k)) (pow-suc 2 k),
      mod-add-div x (2 ^ suc k),
      mod-add-div (x / 2) (2 ^ k),
    )

pub bit-mod : (k x i : ℕ) → bit (x % 2 ^ k) i ≡ (ltb i k && bit x i)
bit-mod zero x i = let e : x % 2 ^ 0 ≡ 0 = omega arith in rw e (ground (arith, bit-zero i))
bit-mod (suc k) x zero = ground (arith, mod-two-pow-suc k x)
bit-mod (suc k) x (suc i) =
    let e : x % 2 ^ suc k / 2 ≡ x / 2 % 2 ^ k = omega (arith, mod-two-pow-suc k x) in
    rw e (ground (arith, bit-mod k (x / 2) i))

-- Multiplying by 2 ^ k moves every digit up by `k` places.
pub bit-mul-two-pow : (k x i : ℕ) → bit (x * 2 ^ k) i ≡ (leb k i && bit x (i - k))
bit-mul-two-pow zero x i =
    let e : x * 2 ^ 0 ≡ x = omega arith in
    let f : i - 0 ≡ i = omega arith in rw (e, f) (ground arith)
bit-mul-two-pow (suc k) x zero = ground (arith, pow-suc 2 k, ap (λ (t : ℕ). x * t) (pow-suc 2 k))
bit-mul-two-pow (suc k) x (suc i) =
    let e : x * 2 ^ suc k / 2 ≡ x * 2 ^ k = omega (arith, ap (λ (t : ℕ). x * t) (pow-suc 2 k)) in
    rw e (ground (arith, bit-mul-two-pow k x i))

-- The digits of 2 ^ k - 1 - x are the opposite ones.
pub bit-complement : (k x i : ℕ) → x < 2 ^ k → i < k → bit (2 ^ k - 1 - x) i ≡ not (bit x i)
bit-complement zero x i h lt = absurd (omega arith)
bit-complement (suc k) x zero h lt = ground (arith, pow-suc 2 k)
bit-complement (suc k) x (suc i) h lt =
    let e : (2 ^ suc k - 1 - x) / 2 ≡ 2 ^ k - 1 - x / 2 = omega (arith, pow-suc 2 k) in
    rw e (bit-complement k (x / 2) i (omega (arith, pow-suc 2 k)) (omega arith))

-- The operations stay within the width of their arguments.
pub bit_and-lt : (k a b : ℕ) → b < 2 ^ k → bit_and a b < 2 ^ k
bit_and-lt zero a b h = let e : b ≡ 0 = omega arith in rw e (omega (arith, bit_and-zero a))
bit_and-lt (suc k) a b h = omega (
  arith,
  bit_and_step a b,
  pow-suc 2 k,
  bit_and-lt k (a / 2) (b / 2) (omega (arith, pow-suc 2 k)),
)

pub bit_or-lt : (k a b : ℕ) → a < 2 ^ k → b < 2 ^ k → bit_or a b < 2 ^ k
bit_or-lt zero a b h h' =
    let e : b ≡ 0 = omega arith in let f : a ≡ 0 = omega arith in rw (e, f) (omega arith)
bit_or-lt (suc k) a b h h' =
    let p = pow-suc 2 k in
    omega
      (arith, bit_or_step a b, p, bit_or-lt k (a / 2) (b / 2) (omega (arith, p)) (omega (arith, p)))

pub bit_xor-lt : (k a b : ℕ) → a < 2 ^ k → b < 2 ^ k → bit_xor a b < 2 ^ k
bit_xor-lt zero a b h h' =
    let e : b ≡ 0 = omega arith in let f : a ≡ 0 = omega arith in rw (e, f) (omega arith)
bit_xor-lt (suc k) a b h h' =
    let p = pow-suc 2 k in
    omega (
      arith,
      bit_xor_step a b,
      p,
      bit_xor-lt k (a / 2) (b / 2) (omega (arith, p)) (omega (arith, p)),
    )

-- Masking one digit.
pub bit_and-two-pow : (x b : ℕ) → bit_and x (2 ^ b) ≡ (if bit x b then 2 ^ b else 0)
bit_and-two-pow x zero = ground (arith, bit_and_step x 1, bit_and-zero (x / 2))
bit_and-two-pow x (suc b) =
    let e : 2 ^ suc b / 2 ≡ 2 ^ b = omega (arith, pow-suc 2 b) in
    ground (
      arith,
      pow-suc 2 b,
      bit_and_step x (2 ^ suc b),
      ap (bit_and (x / 2)) e,
      bit_and-two-pow (x / 2) b,
    )

-- Dividing by 2 ^ k moves every digit down by `k` places.
pub bit-div-two-pow : (k x i : ℕ) → bit (x / 2 ^ k) i ≡ bit x (k + i)
bit-div-two-pow zero x i =
    let e : x / 2 ^ 0 ≡ x = omega arith in let f : 0 + i ≡ i = omega arith in rw (e, f)
bit-div-two-pow (suc k) x i =
    let e : x / 2 ^ suc k ≡ x / 2 / 2 ^ k =
      ap (λ (t : ℕ). x / t) (pow-suc 2 k ∙ mul_comm (2 ^ k) 2)
      ∙ sym (div-div-eq-div-mul x 2 (2 ^ k)) in
    let f : suc k + i ≡ suc (k + i) = omega arith in rw (e, f) (bit-div-two-pow k (x / 2) i)
