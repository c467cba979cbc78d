-- ===== src/Kmalloc/Order.antt =====
-- `bytes_to_order` finds the smallest order that holds the bytes.
use zeptux.Base.{
  ℕ, zero, suc, ◌+◌, ◌*◌, ◌^◌, ◌≤◌, ◌<◌, Bool, ◌≡◌, refl, ltb, leb, arith, if-elim, Bool-cases, inl,
  inr,
}
use zeptux.Word.{shl}
use zeptux.Word.Laws.{two-pow-lt}
use zeptux.Word.Scan.{First, First-step, First-map}
use zeptux.Page.Address.{bytes_to_pages, page_size}
use zeptux.Page.Laws.{bytes_to_pages-least}
use zeptux.Kmalloc.{order_from, bytes_to_order}
use zeptux.Phys.{max_order}

-- 2 ^ `o` pages hold them.
abbrev holds : ℕ → ℕ → Bool
holds pages o = leb pages (2 ^ o)

shl-one : (o : ℕ) → o < 64 → shl 1 o ≡ 2 ^ o
unfolding shl
shl-one o h = omega (arith, two-pow-lt o 64 h)

order_from-First :
    (left order pages : ℕ)
    → order + left ≡ 12
    → First (holds pages) order 12 (order_from left order pages)
unfolding order_from
order_from-First zero order pages e = λ j a b. absurd (omega arith)
order_from-First (suc left) order pages e =
    let s = shl-one order (omega arith) in
    elim (Bool-cases (leb pages (2 ^ order))) [
      | inl hit ↦ rw (s, hit, First) (omega arith, omega arith, hit, λ j a b. absurd (omega arith))
      | inr miss ↦
          rw (s, miss, First)
            (First-step (holds pages) order 12 _ miss
              (order_from-First left (order + 1) pages (omega arith)))
    ]

small_power : (j : ℕ) → j < 12 → 2 ^ j < 2 ^ 12
small_power j h = two-pow-lt j 12 h

-- The order is the smallest one below MAX_ORDER whose pages hold the bytes; if there is none, the
-- call panics, also for the sizes that only order MAX_ORDER holds. The rounding to pages is not
-- to pass 2 ^ 64.
pub bytes_to_order-First :
    (bytes : ℕ)
    → bytes + page_size ≤ 2 ^ 64
    → First (λ o. leb bytes (2 ^ o * page_size)) 0 12 (bytes_to_order bytes)
unfolding bytes_to_order
bytes_to_order-First bytes h =
    let pages = bytes_to_pages bytes in
    let least = bytes_to_pages-least bytes h in
    let P = First (λ o. leb bytes (2 ^ o * page_size)) 0 12 in
    if-elim P (ltb (shl 1 max_order) pages)
      (λ big j a lt. ground (arith, shl-one 12 (omega arith), least, small_power j lt))
      λ small.
        First-map (holds pages) _ 0 12 _ (λ j lt. ground (arith, least))
          (order_from-First 12 0 pages refl)
