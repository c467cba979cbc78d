-- ===== src/Kmalloc/Zeroed.antt =====
-- mm/kmalloc.c: `kzalloc`, on the bytes of memory.
use zeptux.Base.{ℕ, ◌+◌, ◌≤◌, ◌<◌, Option, some, ◌>>=◌, ◌≡◌, ◌⊎◌, refl, arith}
use zeptux.Elf.{Bytes, memset}
use zeptux.Strings.{memset_from}
use zeptux.Strings.Laws.{memset_from_lem}
use zeptux.Kmalloc.{kmalloc}

module _ {S : Type 0} (phys_alloc : ℕ → ℕ → S → Option (ℕ × S)) (phys_free : ℕ → S → Option S) where
  unfoldable pub kzalloc : ℕ → ℕ → Bytes → S → Option (ℕ × Bytes × S)
  kzalloc size flags bytes s = do
    (ret, t) ← kmalloc phys_alloc phys_free size flags s
    some (ret, memset_from size bytes ret 0, t)

  -- Where `kmalloc` returns a pointer, `kzalloc` returns the same one, with the same state of the
  -- allocator; the `size` bytes there are zero, and the other bytes of memory are as before.
  pub kzalloc_lem :
      (size flags ret : ℕ) (bytes : Bytes) (s t : S)
      → kmalloc phys_alloc phys_free size flags s ≡ some (ret, t)
      → (after : Bytes) × (kzalloc size flags bytes s ≡ some (ret, after, t))
        × ((a : ℕ) → ret ≤ a → a < ret + size → after a ≡ 0)
        × ((a : ℕ) → (a < ret) ⊎ (ret + size ≤ a) → after a ≡ bytes a)
  unfolding kzalloc memset
  kzalloc_lem size flags ret bytes s t e = (
    memset_from size bytes ret 0,
    rw e refl,
    λ a low high. ground (arith, memset_from_lem size bytes ret 0 a),
    λ a out. ground (arith, memset_from_lem size bytes ret 0 a),
  )
