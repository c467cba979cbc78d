-- ===== src/Base/Bits/Step.antt =====
-- How the native operations on digits go from a number to its half. They are defined by `digits`,
-- a recursion with a count of rounds; a round that is not needed changes nothing.
use Prim.Native.Nat.{
  ℕ, zero, suc, ◌+◌, ◌*◌, ◌/◌, ◌%◌, ◌≤◌, ◌<◌, min, max, bit_and, bit_or, bit_xor, digits, bitwise,
  bit_and-bitwise, bit_or-bitwise, bit_xor-bitwise, differ,
}
use mathlib.Core.Path.{◌≡◌, refl, ◌∙◌}
use mathlib.Core.Logic.{inl, inr}
use native.Mathlib.Omega.{arith}
use zeptux.Base.Tests.{ltb, Bool-cases}

-- Two digits that differ sum to 1.
differ_lem : (x y : ℕ) → x < 2 → y < 2 → differ x y ≡ (x + y) % 2
differ_lem zero y hx hy = omega arith
differ_lem (suc zero) zero hx hy = refl
differ_lem (suc zero) (suc zero) hx hy = refl
differ_lem (suc zero) (suc (suc y)) hx hy = absurd (omega arith)
differ_lem (suc (suc x)) y hx hy = absurd (omega arith)

-- An operation `f` on digits that takes the rest of the second number, `z b`, from the first
-- number's end on.
module _ (z : ℕ → ℕ) (f : ℕ → ℕ → ℕ) where
  idle_round : (n a b : ℕ) → a ≤ n → digits z f (suc n) a b ≡ digits z f n a b
  idle_round zero zero b h = refl
  idle_round (suc n) zero b h = refl
  idle_round zero (suc a) b h = absurd (omega arith)
  idle_round (suc n) (suc a) b h = omega (arith, idle_round n (suc a / 2) (b / 2) (omega arith))

  enough_rounds : (n a b : ℕ) → a ≤ n → digits z f n a b ≡ bitwise z f a b
  enough_rounds zero a b h = let e : a ≡ 0 = omega arith in rw e refl
  enough_rounds (suc n) a b h = elim (Bool-cases (ltb n a)) [
    | inl same ↦ let e : a ≡ suc n = ground arith in rw e refl
    | inr fewer ↦ idle_round n a b (ground arith) ∙ enough_rounds n a b (ground arith)
  ]

  half :
      (a b : ℕ)
      → ((y : ℕ) → z y ≡ z (y / 2) * 2 + f 0 (y % 2))
      → bitwise z f a b ≡ bitwise z f (a / 2) (b / 2) * 2 + f (a % 2) (b % 2)
  half zero b ends = ends b
  half (suc a) b ends = omega (arith, enough_rounds a (suc a / 2) (b / 2) (omega arith))

pub bit_or_step : (a b : ℕ) → bit_or a b ≡ bit_or (a / 2) (b / 2) * 2 + max (a % 2) (b % 2)
bit_or_step a b = simp bit_or-bitwise (half (λ y. y) max a b (λ y. omega arith))

pub bit_and_step : (a b : ℕ) → bit_and a b ≡ bit_and (a / 2) (b / 2) * 2 + min (a % 2) (b % 2)
bit_and_step a b = simp bit_and-bitwise (half (λ y. 0) min a b (λ y. omega arith))

pub bit_xor_step : (a b : ℕ) → bit_xor a b ≡ bit_xor (a / 2) (b / 2) * 2 + (a % 2 + b % 2) % 2
bit_xor_step a b = simp bit_xor-bitwise (
    omega (
      arith,
      half (λ y. y) differ a b (λ y. omega arith),
      differ_lem (a % 2) (b % 2) (omega arith) (omega arith),
    ))

-- No digit is left of a number and 0.
no_digit : (n a : ℕ) → digits (λ y. 0) min n a 0 ≡ 0
no_digit zero a = refl
no_digit (suc n) zero = refl
no_digit (suc n) (suc a) = omega (arith, no_digit n (suc a / 2))

pub bit_and-zero : (a : ℕ) → bit_and a 0 ≡ 0
bit_and-zero a = simp bit_and-bitwise (no_digit a a)
