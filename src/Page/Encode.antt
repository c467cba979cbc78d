-- ===== src/Page/Encode.antt =====
-- A virtual address and its five parts: the indexes and the offset in the page.
use native.Mathlib.Nat.{
  mod-eq_of_lt, div-eq_of_lt, div-le_self, one-le-pow, mul-add-mod_self_right, mul-add-div_right,
}
use zeptux.Base.{
  ℕ, ◌+◌, ◌-◌, ◌*◌, ◌/◌, ◌%◌, ◌^◌, ◌≤◌, ◌<◌, ◌||◌, ◌≡◌, ap, ltb, leb, if◌then◌else◌, arith, bit_and,
  bit_or, ◌⊎◌, inl, inr, Bool-cases,
}
use zeptux.Base.Bits.{
  bit, eq_of_bits, bit-bit_or, bit-mod, bit-div-two-pow, bit-mul-two-pow, bit_or-lt, bit_of_lt,
}
use zeptux.Word.{shl, bit_mask_below, bit_mask_above, lnot}
use zeptux.Word.Laws.{bit_and-mask_below, bit_mask_below-eq, is_bit_set-bit}
use zeptux.Page.Address.{
  virt_data_offset, virt_ptde_index, virt_pmde_index, virt_pude_index, virt_pgde_index, encode_virt,
}

bit_add : (k x y i : ℕ) → y < 2 ^ k → bit (x * 2 ^ k + y) i ≡ (bit (x * 2 ^ k) i || bit y i)
bit_add k x y i h = elim (Bool-cases (ltb i k)) [
  | inl low ↦
      let e : (x * 2 ^ k + y) % 2 ^ k ≡ y =
        omega (arith, mul-add-mod_self_right x (2 ^ k) y, mod-eq_of_lt h) in
      ground (arith, bit-mod k (x * 2 ^ k + y) i, ap (λ (t : ℕ). bit t i) e, bit-mul-two-pow k x i)
  | inr high ↦
      let e : (x * 2 ^ k + y) / 2 ^ k ≡ x = omega (
        arith,
        mul-add-div_right {m = 2 ^ k} (omega (arith, one-le-pow k 2)) x y,
        div-eq_of_lt h,
      ) in
      ground (
        arith,
        bit-div-two-pow k (x * 2 ^ k + y) (i - k),
        ap (λ (t : ℕ). bit t (i - k)) e,
        bit-mul-two-pow k x i,
        bit_of_lt k y i h,
      )
]

bit_or_comm : (a b i : ℕ) → bit (bit_or a b) i ≡ bit (bit_or b a) i
bit_or_comm a b i = ground (arith, bit-bit_or a b i, bit-bit_or b a i)

-- Bits that do not meet: the word is the sum.
bit_or-add :
    (k x y : ℕ)
    → y < 2 ^ k
    → x * 2 ^ k < 2 ^ 64
    → x * 2 ^ k + y < 2 ^ 64
    → bit_or (x * 2 ^ k) y ≡ x * 2 ^ k + y
bit_or-add k x y h a b =
    eq_of_bits 64 _ _ (bit_or-lt 64 _ y a (omega arith)) b
      λ i _. ground (arith, bit-bit_or (x * 2 ^ k) y i, bit_add k x y i h)

abbrev sum : ℕ → ℕ → ℕ → ℕ → ℕ → ℕ
sum pg pu pm pt off = pg * 2 ^ 39 + pu * 2 ^ 30 + pm * 2 ^ 21 + pt * 2 ^ 12 + off

-- The largest addresses have the bits 47 to 63 set, the others none of them.
abbrev pub extended : ℕ → ℕ → ℕ
extended pg va = if leb 256 pg then 2 ^ 64 - 2 ^ 48 + va else va

abbrev pub IsCanonical : ℕ → Type 0
IsCanonical va = (va < 2 ^ 47) ⊎ ((2 ^ 64 - 2 ^ 47 ≤ va) × (va < 2 ^ 64))

or_sum :
    (pg pu pm pt off : ℕ)
    → pg < 512
    → pu < 512
    → pm < 512
    → pt < 512
    → off < 4096
    → bit_or (bit_or (bit_or (bit_or (shl pg 39) (shl pu 30)) (shl pm 21)) (shl pt 12)) off
      ≡ sum pg pu pm pt off
unfolding shl
or_sum pg pu pm pt off a b c d e =
    let s1 : shl pg 39 ≡ pg * 2 ^ 39 = omega arith in
    let s2 : shl pu 30 ≡ pu * 2 ^ 30 = omega arith in
    let s3 : shl pm 21 ≡ pm * 2 ^ 21 = omega arith in
    let s4 : shl pt 12 ≡ pt * 2 ^ 12 = omega arith in
    let e1 = bit_or-add 39 pg (pu * 2 ^ 30) (omega arith) (omega arith) (omega arith) in
    let f1 : pg * 2 ^ 39 + pu * 2 ^ 30 ≡ (pg * 512 + pu) * 2 ^ 30 = omega arith in
    let e2 =
      bit_or-add 30 (pg * 512 + pu) (pm * 2 ^ 21) (omega arith) (omega arith) (omega arith) in
    let f2 : (pg * 512 + pu) * 2 ^ 30 + pm * 2 ^ 21 ≡ ((pg * 512 + pu) * 512 + pm) * 2 ^ 21 =
      omega arith in
    let e3 =
      bit_or-add 21 ((pg * 512 + pu) * 512 + pm) (pt * 2 ^ 12) (omega arith) (omega arith)
        (omega arith) in
    let f3 : ((pg * 512 + pu) * 512 + pm) * 2 ^ 21 + pt * 2 ^ 12
        ≡ (((pg * 512 + pu) * 512 + pm) * 512 + pt) * 2 ^ 12 =
      omega arith in
    let e4 =
      bit_or-add 12 (((pg * 512 + pu) * 512 + pm) * 512 + pt) off (omega arith) (omega arith)
        (omega arith) in
    rw (s1, s2, s3, s4, e1, f1, e2, f2, e3, f3, e4) (omega arith)

high_bit : (x : ℕ) → x < 2 ^ 48 → bit x 47 ≡ leb (2 ^ 47) x
high_bit x h = ground (arith, bit-div-two-pow 47 x 0)

extend : (x : ℕ) → x < 2 ^ 48 → bit_or x (bit_mask_above 48) ≡ 2 ^ 64 - 2 ^ 48 + x
unfolding bit_mask_above lnot
extend x h =
    let m : bit_mask_above 48 ≡ (2 ^ 16 - 1) * 2 ^ 48 =
      omega (arith, bit_mask_below-eq 48 (omega arith)) in
    let e : bit_or ((2 ^ 16 - 1) * 2 ^ 48) x ≡ (2 ^ 16 - 1) * 2 ^ 48 + x =
      bit_or-add 48 (2 ^ 16 - 1) x h (omega arith) (omega arith) in
    rw (m, bit_or_sym x ((2 ^ 16 - 1) * 2 ^ 48) (omega arith) (omega arith), e) (omega arith)
  where
    bit_or_sym : (a b : ℕ) → a < 2 ^ 64 → b < 2 ^ 64 → bit_or a b ≡ bit_or b a
    bit_or_sym a b p q =
        eq_of_bits 64 _ _ (bit_or-lt 64 a b p q) (bit_or-lt 64 b a q p) λ i _. bit_or_comm a b i

pub encode_virt-eq :
    (pg pu pm pt off : ℕ)
    → pg < 512
    → pu < 512
    → pm < 512
    → pt < 512
    → off < 4096
    → encode_virt pg pu pm pt off ≡ extended pg (sum pg pu pm pt off)
unfolding encode_virt
encode_virt-eq pg pu pm pt off a b c d e =
    let s = sum pg pu pm pt off in
    rw
      (
        or_sum pg pu pm pt off a b c d e,
        is_bit_set-bit s 47 (omega arith),
        high_bit s (omega arith),
        extend s (omega arith),
      )
      (ground arith)

abbrev IndexEq : ℕ → ℕ → Type 0
IndexEq va shift = bit_and (va / 2 ^ shift) 511 ≡ va / 2 ^ shift % 512

index : (va shift : ℕ) → va < 2 ^ 64 → IndexEq va shift
index va shift h =
    bit_and-mask_below (va / 2 ^ shift) 9 (omega arith) (omega (arith, div-le_self va (2 ^ shift)))

-- The address that `encode_virt` makes from indexes and an offset in their ranges has those
-- indexes and that offset, and is canonical: its bits 47 to 63 are all alike.
pub index-encode_virt :
    (pg pu pm pt off : ℕ)
    → pg < 512
    → pu < 512
    → pm < 512
    → pt < 512
    → off < 4096
    → (virt_pgde_index (encode_virt pg pu pm pt off) ≡ pg)
      × (virt_pude_index (encode_virt pg pu pm pt off) ≡ pu)
      × (virt_pmde_index (encode_virt pg pu pm pt off) ≡ pm)
      × (virt_ptde_index (encode_virt pg pu pm pt off) ≡ pt)
      × (virt_data_offset (encode_virt pg pu pm pt off) ≡ off)
      × IsCanonical (encode_virt pg pu pm pt off)
unfolding virt_pgde_index virt_pude_index virt_pmde_index virt_ptde_index virt_data_offset
index-encode_virt pg pu pm pt off a b c d e =
    let va = extended pg (sum pg pu pm pt off) in
    let lt : va < 2 ^ 64 = ground arith in
    rw (encode_virt-eq pg pu pm pt off a b c d e) (
      ground (arith, index va 39 lt),
      ground (arith, index va 30 lt),
      ground (arith, index va 21 lt),
      ground (arith, index va 12 lt),
      ground (arith, bit_mask_below-eq 12 (omega arith), bit_and-mask_below va 12 (omega arith) lt),
      ground arith,
    )

-- A canonical address is the one that is encoded from its indexes and its offset.
pub encode_virt-index :
    (va : ℕ)
    → IsCanonical va
    → encode_virt
        (virt_pgde_index va)
        (virt_pude_index va)
        (virt_pmde_index va)
        (virt_ptde_index va)
        (virt_data_offset va)
      ≡ va
unfolding virt_pgde_index virt_pude_index virt_pmde_index virt_ptde_index virt_data_offset
encode_virt-index va h =
    let lt : va < 2 ^ 64 = ground arith in
    let o : bit_and va (bit_mask_below 12) ≡ va % 2 ^ 12 =
      rw (bit_mask_below-eq 12 (omega arith)) (bit_and-mask_below va 12 (omega arith) lt) in
    rw
      (
        index va 39 lt,
        index va 30 lt,
        index va 21 lt,
        index va 12 lt,
        o,
        encode_virt-eq (va / 2 ^ 39 % 512) (va / 2 ^ 30 % 512) (va / 2 ^ 21 % 512)
            (va / 2 ^ 12 % 512) (va % 2 ^ 12) (omega arith) (omega arith) (omega arith)
            (omega arith) (omega arith),
      )
      (ground arith)
