-- ===== src/Strings/Laws.antt =====
-- What the loops of include/string.h do to memory.
use zeptux.Base.{
  ℕ, zero, suc, ◌+◌, ◌-◌, ◌≤◌, ◌<◌, true, false, ◌&&◌, ◌≡◌, ◌≢◌, ◌⊎◌, sym, ◌||◌, inl, inr, refl,
  ◌∙◌, ◌==◌, ltb, leb, if◌then◌else◌, Bool-cases, arith, some, ap,
}
use zeptux.Elf.{Bytes, memset}
use zeptux.Strings.{store_byte, strcmp, memset_from, memcpy}

-- The loop of `memset` puts the byte at every address of its range and changes no other byte, as
-- the loader's `memset` says at once.
pub memset_from_lem :
    (count : ℕ) (mem : Bytes) (target chr a : ℕ)
    → memset_from count mem target chr a ≡ memset mem target chr count a
unfolding memset_from memset store_byte
memset_from_lem zero mem target chr a = ground arith
memset_from_lem (suc left) mem target chr a =
    ground (arith, memset_from_lem left (store_byte mem target chr) (target + 1) chr a)

-- Where the destination does not begin inside the source, behind its first byte, `memcpy` puts a
-- copy of the source as it was at the destination, and changes no other byte.
pub memcpy_lem :
    (count : ℕ) (mem : Bytes) (dest src a : ℕ)
    → (dest ≤ src) ⊎ (src + count ≤ dest)
    → memcpy count mem dest src a
      ≡ (if leb dest a && ltb a (dest + count) then mem (src + (a - dest)) else mem a)
unfolding memcpy store_byte
memcpy_lem zero mem dest src a apart = ground arith
memcpy_lem (suc left) mem dest src a apart =
    let next = store_byte mem dest (mem src) in
    let ih =
      memcpy_lem left next (dest + 1) (src + 1) a
        (elim apart [ inl before ↦ inl (omega arith) | inr behind ↦ inr (omega arith) ]) in
    elim (Bool-cases (dest == a)) [
      | inl first ↦ let z : src + (a - dest) ≡ src = ground arith in rw z (ground (arith, ih))
      | inr other ↦ elim (Bool-cases (leb dest a && ltb a (dest + suc left))) [
        | inl inside ↦
            let z : src + 1 + (a - (dest + 1)) ≡ src + (a - dest) = ground arith in
            let ne : (dest == src + (a - dest)) ≡ false = ground (arith, apart) in
            let u : next (src + 1 + (a - (dest + 1))) ≡ mem (src + (a - dest)) = rw (z, ne) refl in
            ground (arith, ih, u)
        | inr outside ↦ ground (arith, ih)
      ]
    ]

-- The strings at `a` and `b` have the same `n` first characters, none of them a NUL.
abbrev pub SameFor : ℕ → Bytes → ℕ → ℕ → Type 0
SameFor n mem a b = (i : ℕ) → i < n → (mem (a + i) ≡ mem (b + i)) × (mem (a + i) ≢ 0)

-- Where two strings have their first difference, or the NUL of both, at place `n`, `strcmp` ends
-- there on more than `n` rounds, and compares what stands there.
pub strcmp_lem :
    (n fuel : ℕ) (mem : Bytes) (a b : ℕ)
    → SameFor n mem a b
    → (mem (a + n) ≢ mem (b + n)) ⊎ (mem (a + n) ≡ 0)
    → n < fuel
    → strcmp fuel mem a b ≡ some (mem (a + n), mem (b + n))
unfolding strcmp
strcmp_lem zero zero mem a b same ends enough = absurd (omega arith)
strcmp_lem zero (suc fuel) mem a b same ends enough =
    let x : a + 0 ≡ a = omega arith in let y : b + 0 ≡ b = omega arith in ground (arith, ends, x, y)
strcmp_lem (suc n) zero mem a b same ends enough = absurd (omega arith)
strcmp_lem (suc n) (suc fuel) mem a b same ends enough =
    let x : a + 1 + n ≡ a + suc n = omega arith in
    let y : b + 1 + n ≡ b + suc n = omega arith in
    let z : a + 0 ≡ a = omega arith in
    let w : b + 0 ≡ b = omega arith in
    let (eq, ne) = same 0 (omega arith) in
    let later : SameFor n mem (a + 1) (b + 1) = λ i lt.
      let p : a + 1 + i ≡ a + suc i = omega arith in
      let q : b + 1 + i ≡ b + suc i = omega arith in rw (p, q) (same (suc i) (omega arith)) in
    let ih = strcmp_lem n fuel mem (a + 1) (b + 1) later (rw (x, y) ends) (omega arith) in
    let c : mem a ≡ mem b = sym (ap mem z) ∙ eq ∙ ap mem w in
    let d : mem a ≢ 0 = λ e. ne (ap mem z ∙ e) in
    let t : ((mem a == 0) || (mem b == 0)) ≡ false = ground (arith, c, d) in
    let u : (mem a == mem b) ≡ true = ground (arith, c) in rw (t, u, ← x, ← y) ih
