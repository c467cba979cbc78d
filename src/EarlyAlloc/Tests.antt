-- ===== src/EarlyAlloc/Tests.antt =====
-- The theorems on the early page allocator at concrete values.
use zeptux.Base.{ℕ, zero, suc, ◌/◌, ◌%◌, ◌^◌, [], ◌∷◌, some, ◌≡◌, refl, arith}
use zeptux.Base.Bits.{bit-zero}
use zeptux.Word.{lnot, scan, find_first_set_bit, find_first_clear_bit, shl}
use zeptux.Bitmap.Defs.{Bitmap, word_at, bitmap_first_clear, first_in, below}
use zeptux.Bitmap.View.{IsValid}
use zeptux.EarlyAlloc.{
  EarlyPageAllocState, ephemeral, early_alloc, take_page, first_free, span_offset_to_pa,
  mark_page_allocated, early_page_free,
}
use zeptux.EarlyAlloc.Laws.{AllValid, AllocResult, early_alloc-Allocated}
use zeptux.E820.Defs.{EarlyBootInfo}
use zeptux.EarlyAlloc.Setup.{alloc_init_pages}
use zeptux.EarlyAlloc.Reserve.{TakeResult}
use zeptux.EarlyAlloc.InUse.{in_use, alloc_init_pages-TakeResult}
use zeptux.EarlyAlloc.Free.{AreDisjoint, GivenBack, early_page_free-GivenBack}

abbrev empty : Bitmap
empty = record { num_bits = 100; num_words = 2; words = 0 ∷ 0 ∷ [] }

no_word : (i : ℕ) → word_at empty.words i ≡ 0
no_word zero = refl
no_word (suc zero) = refl
no_word (suc (suc i)) = refl

empty-IsValid : IsValid empty
empty-IsValid = record {
  size = refl;
  enough = omega arith;
  tight = omega arith;
  narrow = omega arith;
  width = λ i. omega (arith, no_word i);
  tail = λ i h. rw (no_word (i / 64)) (bit-zero (i % 64));
}

-- One span of 100 pages from 1 MiB on.
abbrev one_span : EarlyPageAllocState
one_span = record {
  total_pages = 100;
  num_allocated_pages = 0;
  num_ephemeral_pages = 0;
  num_pagetable_pages = 0;
  num_physblock_pages = 0;
  spans =
      record {
        start = 2 ^ 20;
        num_pages = 100;
        num_allocated_pages = 0;
        alloc_bitmap = empty;
        ephemeral_bitmap = empty;
        pagetable_bitmap = empty;
        physblock_bitmap = empty;
      }
      ∷ [];
}

one_span-AllValid : AllValid one_span.spans
one_span-AllValid zero h = record { bitmap = empty-IsValid; bits = refl; room = omega arith }
one_span-AllValid (suc k) h = absurd (omega arith)

one_span-AreDisjoint : AreDisjoint one_span
one_span-AreDisjoint zero zero pa ne h = absurd (ne refl)
one_span-AreDisjoint zero (suc k) pa ne h = ground arith
one_span-AreDisjoint (suc i) k pa ne h = absurd (ground arith)

early_alloc-Allocated_example : AllocResult one_span (early_alloc one_span ephemeral)
early_alloc-Allocated_example = early_alloc-Allocated one_span ephemeral one_span-AllValid

first_page :
    early_alloc one_span ephemeral ≡ some (2 ^ 20, mark_page_allocated one_span 0 0 ephemeral)
unfolding early_alloc take_page first_free span_offset_to_pa bitmap_first_clear first_in below
    find_first_clear_bit find_first_set_bit scan lnot shl
first_page = refl

early_page_free-GivenBack_example :
    GivenBack one_span (early_page_free (mark_page_allocated one_span 0 0 ephemeral) (2 ^ 20))
early_page_free-GivenBack_example =
    early_page_free-GivenBack one_span ephemeral (2 ^ 20)
      (mark_page_allocated one_span 0 0 ephemeral) one_span-AllValid one_span-AreDisjoint
      (omega arith) first_page

abbrev boot_info : EarlyBootInfo
boot_info = record {
  total_avail_ram_bytes = 409600;
  num_ram_spans = 1;
  apic_base = 0xfee00000;
  kernel_elf_size_bytes = 10000;
  num_e820_entries = 1;
  e820_entries = record { base = 2 ^ 20; size = 409600; ty = 1 } ∷ [];
}

alloc_init_pages-TakeResult_example :
    TakeResult one_span
      (in_use boot_info 0xc00000 9)
      (alloc_init_pages boot_info 0xc00000 9 one_span)
alloc_init_pages-TakeResult_example =
    alloc_init_pages-TakeResult boot_info (omega arith) 0xc00000 9 one_span (omega arith)
      (omega arith) one_span-AllValid (omega arith)
