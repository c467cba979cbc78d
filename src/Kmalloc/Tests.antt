-- ===== src/Kmalloc/Tests.antt =====
-- The theorem on orders at a concrete value.
use zeptux.Base.{◌+◌, ◌≤◌, ◌<◌, ◌≡◌, ◌⊎◌, ℕ, some, refl, ◌*◌, ◌^◌, leb, arith}
use zeptux.Word.Scan.{First}
use zeptux.Page.Address.{page_size, bytes_to_pages, phys_to_virt}
use zeptux.Elf.{Bytes}
use zeptux.Word.{align_up, shl}
use zeptux.Kmalloc.{bytes_to_order, order_from, kmalloc, kmalloc_order}
use zeptux.Kmalloc.Zeroed.{kzalloc, kzalloc_lem}
use zeptux.Kmalloc.Order.{bytes_to_order-First}

bytes_to_order-First_example :
    First (λ o. leb 10000 (2 ^ o * page_size)) 0 12 (bytes_to_order 10000)
bytes_to_order-First_example = bytes_to_order-First 10000 (omega arith)

-- An allocator that always gives the page at 1 MiB.
kzalloc_lem_example :
    (after : Bytes) × (kzalloc
        (λ order flags s. some (2 ^ 20, s + 1))
        (λ pa s. some s)
        100
        1
        (λ a. 7)
        0
      ≡ some (phys_to_virt (2 ^ 20), after, 1))
    × ((a : ℕ) → phys_to_virt (2 ^ 20) ≤ a → a < phys_to_virt (2 ^ 20) + 100 → after a ≡ 0)
    × ((a : ℕ) → (a < phys_to_virt (2 ^ 20)) ⊎ (phys_to_virt (2 ^ 20) + 100 ≤ a) → after a ≡ 7)
unfolding kmalloc kmalloc_order bytes_to_order order_from bytes_to_pages align_up shl
kzalloc_lem_example =
    kzalloc_lem (λ order flags s. some (2 ^ 20, s + 1)) (λ pa s. some s) 100 1
      (phys_to_virt (2 ^ 20)) (λ a. 7) 0 1 refl
