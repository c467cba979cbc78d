-- ===== src/Kmalloc.antt =====
-- mm/kmalloc.c: the order of an allocation, and kmalloc and kfree over the physical allocator,
-- whose `phys_alloc` and `phys_free` are parameters here; `OnPhys` gives those of mm/phys.c. A panic
-- is `none`.
pub mod OnPhys
pub mod Zeroed
pub mod Order
pub mod Tests
use zeptux.Base.{
  ℕ, zero, suc, ◌+◌, ◌^◌, Bool, true, false, Option, some, none, ◌==◌, ltb, leb, if◌then◌else◌,
  bit_and,
}
use zeptux.Word.{shl}
use zeptux.Phys.{max_order}
use zeptux.Page.Address.{bytes_to_pages, phys_to_virt, virt_to_phys}

-- The rounds left, from `order` on; running out of them is the panic "Impossible?".
unfoldable pub order_from : ℕ → ℕ → ℕ → Option ℕ
order_from zero order pages = none
order_from (suc left) order pages =
    let rest = order_from left (order + 1) pages in
    if leb pages (shl 1 order) then some order else rest

unfoldable pub bytes_to_order : ℕ → Option ℕ
bytes_to_order bytes =
    let pages = bytes_to_pages bytes in
    if ltb (shl 1 max_order) pages then none else order_from max_order 0 pages

-- ALLOC_KERNEL | ALLOC_MOVABLE
abbrev pub kernel_movable : ℕ
kernel_movable = 1025

module _ {S : Type 0} (phys_alloc : ℕ → ℕ → S → Option (ℕ × S)) (phys_free : ℕ → S → Option S) where
  abbrev pub to_pointer : Option (ℕ × S) → Option (ℕ × S)
  to_pointer none = none
  to_pointer (some (pa, s)) = some (phys_to_virt pa, s)

  -- `_kmalloc`: only KMALLOC_KERNEL, 1, is known.
  unfoldable pub kmalloc_order : ℕ → ℕ → S → Option (ℕ × S)
  kmalloc_order order flags s =
      if bit_and flags 1023 == 1 then to_pointer (phys_alloc order kernel_movable s) else none

  unfoldable pub kmalloc : ℕ → ℕ → S → Option (ℕ × S)
  kmalloc size flags s = elim (bytes_to_order size) [
    | some order ↦ kmalloc_order order flags s
    | none ↦ none
  ]

  unfoldable pub kfree : ℕ → S → Option S
  kfree ptr s = phys_free (virt_to_phys ptr) s
