-- ===== src/Phys/MemMapTests.antt =====
-- The physblocks of a span of eight pages, of which three are taken.
use zeptux.Base.{ℕ, ◌*◌, List, [], ◌∷◌, ◌≡◌, refl, arith}
use zeptux.Bitmap.Defs.{Bitmap, bitmap_is_set}
use zeptux.Word.{is_bit_set}
use zeptux.EarlyAlloc.{EarlyPageAllocSpan}
use zeptux.Phys.{
  returns, ◌>>=◌, Physblock, PhysAllocStats, Phys, acquire_block, release_block,
  phys_to_physblock_lock,
}
use zeptux.Page.Address.{phys_to_pfn}
use zeptux.Phys.MemMap.{
  init_physblock_span, init_physblocks, init_physblock, span_to_phys, describe,
}
use zeptux.Phys.MemMapLaws.{Described, init_physblock_span-Described}

abbrev bits : ℕ → Bitmap
bits w = record { num_bits = 8; num_words = 1; words = w ∷ [] }

-- Page 0 is ephemeral, page 1 a page table and page 2 in use.
abbrev span : EarlyPageAllocSpan
span = record {
  start = 16 * 4096;
  num_pages = 8;
  num_allocated_pages = 3;
  alloc_bitmap = bits 7;
  ephemeral_bitmap = bits 1;
  pagetable_bitmap = bits 2;
  physblock_bitmap = bits 0;
}

abbrev blank : Physblock
blank = record { head_offset = 0; order = 0; type = 0; refcount = 0; lock = 0 }

abbrev stats : PhysAllocStats
stats = record {
  num_4k_pages = 0;
  num_free_4k_pages = 0;
  num_pagetable_pages = 0;
  num_physblock_pages = 0;
  order_free_pages = λ o. 0;
}

abbrev memory : Phys
memory = record {
  state = record { address = 0; stats = stats; lock = 0; spans = [] };
  blocks = λ p. blank;
  heap = record { prev = λ a. 0; next = λ a. 0 };
}

init_physblock_span-Described_example :
    (n : Phys) × (init_physblock_span span memory ≡ returns n) × Described 8 span 0 memory n
init_physblock_span-Described_example =
    init_physblock_span-Described span memory (omega arith) (omega arith)
      (λ k lt. record { type = refl; refcount = refl; head_offset = refl; lock = refl })

-- The types of the first four.
abbrev types : Phys → List ℕ
types n = (n.blocks 16).type ∷ (n.blocks 17).type ∷ (n.blocks 18).type ∷ (n.blocks 19).type ∷ []

first_types :
    (do n ← init_physblock_span span memory; returns (types n)) ≡ returns (0 ∷ 3 ∷ 1029 ∷ 0 ∷ [])
unfolding init_physblock_span init_physblock span_to_phys describe bitmap_is_set is_bit_set
    init_physblocks phys_to_physblock_lock acquire_block phys_to_pfn release_block
first_types = refl
