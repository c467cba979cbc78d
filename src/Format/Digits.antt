-- ===== src/Format/Digits.antt =====
-- The digits that the integer conversions write: read back they give the number, and they fit
-- `val_buf`.
use native.Mathlib.Nat.{
  pow-zero, pow-suc, div-lt_iff_lt-mul, le_trans, le_of_eq, le-add_right, mul-le-mul_left, mod-lt,
  div-add-mod',
}
use zeptux.Base.{
  ℕ, zero, suc, ◌+◌, ◌-◌, ◌*◌, ◌/◌, ◌%◌, ◌^◌, ◌≤◌, ◌<◌, false, List, [], ◌∷◌, ◌==◌, ltb,
  if◌then◌else◌, length, ◌≡◌, ap, ◌∙◌, arith, Bool-cases, inl, inr,
}
use zeptux.Format.Defs.{digit_char, digit_loop, val_chars, uint64_max_chars}

-- The value of one of the characters of "0123456789abcdef".
abbrev pub digit_value : ℕ → ℕ
digit_value c = if ltb c b'a' then c - b'0' else c - b'a' + 10

-- The number that a text of digits stands for.
pub read_digits : ℕ → ℕ → List ℕ → ℕ
read_digits base acc [] = acc
read_digits base acc (c ∷ cs) = read_digits base (acc * base + digit_value c) cs

digit_value-char : (d : ℕ) → d < 16 → digit_value (digit_char d) ≡ d
digit_value-char d h = ground arith

digit_loop-read :
    (fuel base val : ℕ) (cs : List ℕ)
    → 2 ≤ base
    → base ≤ 16
    → val < 2 ^ fuel
    → read_digits base 0 (digit_loop fuel base val cs) ≡ read_digits base val cs
unfolding digit_loop read_digits
digit_loop-read zero base val cs lo hi h = ap (λ v. read_digits base v cs) (omega arith)
digit_loop-read (suc fuel) base val cs lo hi h = elim (Bool-cases (ltb 0 val)) [
  | inl more ↦
      let pos : 0 < base = le_trans (le-add_right 1 1) lo in
      let q : val / base < 2 ^ fuel =
        (div-lt_iff_lt-mul pos).1
          (le_trans (le_trans h (le_of_eq (pow-suc 2 fuel))) (mul-le-mul_left (2 ^ fuel) lo)) in
      let d : val / base * base + digit_value (digit_char (val % base)) ≡ val =
        ap (λ t. val / base * base + t)
          (digit_value-char (val % base) (le_trans (mod-lt val pos) hi))
        ∙ div-add-mod' val base in
      rw more (
        digit_loop-read fuel base (val / base) (digit_char (val % base) ∷ cs) lo hi q
        ∙ ap (λ t. read_digits base t cs) d)
  | inr done ↦ rw done (ap (λ v. read_digits base v cs) (ground arith))
]

first_chars : ℕ → List ℕ
first_chars val = if val == 0 then b'0' ∷ [] else []

read_digits-first : (base val : ℕ) → read_digits base val (first_chars val) ≡ val
unfolding read_digits first_chars
read_digits-first base zero = omega arith
read_digits-first base (suc v) = let z : (suc v == 0) ≡ false = ground arith in rw z

-- What is written for a uint64_t in a base from 2 to 16 reads back, in that base, as the number.
pub read_digits-val_chars :
    (base val : ℕ)
    → 2 ≤ base
    → base ≤ 16
    → val < 2 ^ 64
    → read_digits base 0 (val_chars base val) ≡ val
unfolding val_chars first_chars
read_digits-val_chars base val lo hi h =
    digit_loop-read 64 base val (first_chars val) lo hi h ∙ read_digits-first base val

length-digit_loop :
    (fuel base val k : ℕ) (cs : List ℕ)
    → 0 < base
    → val < base ^ k
    → length (digit_loop fuel base val cs) ≤ k + length cs
unfolding digit_loop
length-digit_loop zero base val k cs pos h = omega arith
length-digit_loop (suc fuel) base val zero cs pos h =
    let done : ltb 0 val ≡ false = ground (arith, pow-zero base) in rw done (omega arith)
length-digit_loop (suc fuel) base val (suc k) cs pos h = elim (Bool-cases (ltb 0 val)) [
  | inl more ↦
      let q : val / base < base ^ k =
        (div-lt_iff_lt-mul pos).1 (le_trans h (le_of_eq (pow-suc base k))) in
      rw more (
        le_trans (length-digit_loop fuel base (val / base) k (digit_char (val % base) ∷ cs) pos q)
          (omega arith))
  | inr done ↦ rw done (omega arith)
]

-- At most `k` characters are written for a number below base ^ k, and one for 0.
pub length-val_chars :
    (base val k : ℕ) → 0 < base → 0 < k → val < base ^ k → length (val_chars base val) ≤ k
unfolding val_chars first_chars
length-val_chars base zero k pos some_k h = unfold digit_loop in omega arith
length-val_chars base (suc v) k pos some_k h =
    let z : (suc v == 0) ≡ false = ground arith in
    rw z (omega (arith, length-digit_loop 64 base (suc v) k [] pos h))

-- The 20 characters of `val_buf` are enough for every conversion: for a uint64_t in base 10 or
-- 16, and for the magnitude of an int64_t with its sign.
pub val_buf_fits :
    (val : ℕ)
    → val < 2 ^ 64
    → (length (val_chars 10 val) ≤ uint64_max_chars)
      × (length (val_chars 16 val) ≤ uint64_max_chars)
      × (val ≤ 2 ^ 63 → length (b'-' ∷ val_chars 10 val) ≤ uint64_max_chars)
val_buf_fits val h = (
  length-val_chars 10 val 20 (omega arith) (omega arith) (omega arith),
  le_trans (length-val_chars 16 val 16 (omega arith) (omega arith) (omega arith)) (omega arith),
  λ m. omega (arith, length-val_chars 10 val 19 (omega arith) (omega arith) (omega arith)),
)
