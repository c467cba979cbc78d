-- ===== src/Word/Scan.antt =====
-- The bit scans find the lowest set, and the lowest clear, digit of a word.
use zeptux.Base.{
  ℕ, zero, suc, ◌+◌, ◌^◌, ◌≤◌, ◌<◌, Bool, true, false, not, Option, none, some, ◌≡◌, refl, arith,
  Bool-cases, inl, inr,
}
use zeptux.Base.Bits.{bit}
use zeptux.Word.{lnot, scan, find_first_set_bit, find_first_clear_bit}
use zeptux.Word.Laws.{bit-lnot}

-- `r` is the least place from `lo` up to, not including, `hi` where `p` holds, or there is none.
abbrev pub First : (ℕ → Bool) → ℕ → ℕ → Option ℕ → Type 0
First p lo hi none = (j : ℕ) → lo ≤ j → j < hi → p j ≡ false
First p lo hi (some r) =
    (lo ≤ r) × (r < hi) × (p r ≡ true) × ((j : ℕ) → lo ≤ j → j < r → p j ≡ false)

-- A step down past a place where `p` fails.
pub First-step :
    (p : ℕ → Bool) (lo hi : ℕ) (o : Option ℕ)
    → p lo ≡ false
    → First p (lo + 1) hi o
    → First p lo hi o
First-step p lo hi none e h = λ j a b. ground (arith, h j)
First-step p lo hi (some r) e (a, b, c, d) = (omega arith, b, c, λ j m n. ground (arith, d j))

scan-First : (left x i hi : ℕ) → i + left ≡ hi → First (bit x) i hi (scan left x i)
unfolding scan
scan-First zero x i hi e = λ j p q. absurd (omega arith)
scan-First (suc left) x i hi e = elim (Bool-cases (bit x i)) [
  | inl hit ↦ rw (hit, First) (omega arith, omega arith, hit, λ j a b. absurd (omega arith))
  | inr miss ↦
      rw (miss, First) (First-step (bit x) i hi _ miss (scan-First left x (i + 1) hi (omega arith)))
]

pub find_first_set_bit-First : (x : ℕ) → First (bit x) 0 64 (find_first_set_bit x)
unfolding find_first_set_bit
find_first_set_bit-First x = scan-First 64 x 0 64 refl

pub First-map :
    (p q : ℕ → Bool) (lo hi : ℕ) (o : Option ℕ)
    → ((j : ℕ) → j < hi → p j ≡ q j)
    → First p lo hi o
    → First q lo hi o
First-map p q lo hi none e h = λ j a b. ground (arith, e j, h j)
First-map p q lo hi (some r) e (a, b, c, d) =
    (a, b, ground (arith, e r), λ j m n. ground (arith, e j, d j))

pub find_first_clear_bit-First :
    (x : ℕ) → x < 2 ^ 64 → First (λ i. not (bit x i)) 0 64 (find_first_clear_bit x)
unfolding find_first_clear_bit
find_first_clear_bit-First x h =
    First-map (bit (lnot x)) (λ i. not (bit x i)) 0 64 _ (λ j lt. bit-lnot x j h lt)
      (find_first_set_bit-First (lnot x))
