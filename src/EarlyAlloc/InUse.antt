-- ===== src/EarlyAlloc/InUse.antt =====
-- The pages that are in use when the early page allocator starts, and that it knows of them.
use zeptux.Base.{
  ℕ, zero, suc, ◌+◌, ◌*◌, ◌%◌, ◌^◌, ◌<◌, List, [], ◌∷◌, ◌++◌, ◌>>=◌, >>=-ext, >>=-some, >>=_assoc,
  ◌≡◌, refl, sym, ◌∙◌, arith,
}
use zeptux.Word.{shl}
use zeptux.Page.Address.{
  bytes_to_pages, virt_to_phys, phys_next_page, phys_prev_page, phys_to_pfn, pfn_to_phys,
  kernel_elf_address_phys,
}
use zeptux.Page.Laws.{bytes_to_pages-least}
use zeptux.E820.Defs.{EarlyBootInfo}
use zeptux.EarlyAlloc.{EarlyAllocType, normal, ephemeral, EarlyPageAllocState, alloc_at}
use zeptux.EarlyAlloc.Laws.{AllValid}
use zeptux.EarlyAlloc.Setup.{
  take_pages_up, take_pages_down, alloc_init_pages, early_page_alloc_at,
  early_page_alloc_ephemeral_at, early_boot_info_address, early_pgd, early_pud_direct_map,
  early_pud_kernel_elf, early_video_buffer_address_phys, kernel_stack_pages,
  kernel_stack_address_phys,
}
use zeptux.EarlyAlloc.Reserve.{Request, take_all, TakeResult, take_all-TakeResult}

-- `count` pages from `pa` on.
abbrev pub pages_from : ℕ → EarlyAllocType → ℕ → List Request
pages_from zero ty pa = []
pages_from (suc count) ty pa = (pa, ty) ∷ pages_from count ty (pa + 4096)

-- Three page tables and two pages of the buffer of the screen.
abbrev pub tables : List Request
tables =
    (0x1000, ephemeral)
    ∷ (0x3000, ephemeral)
    ∷ (0x4000, ephemeral)
    ∷ (0x7000, normal)
    ∷ (0x8000, normal)
    ∷ []

abbrev pub stack_pages : List Request
stack_pages = (0x80000, normal) ∷ (0x7f000, normal) ∷ (0x7e000, normal) ∷ (0x7d000, normal) ∷ []

-- The scratch pages, the stack, the boot info, the image of the kernel, and the tables and the
-- buffer.
abbrev pub in_use : EarlyBootInfo → ℕ → ℕ → List Request
in_use info first_scratch_page num_scratch_pages =
    pages_from num_scratch_pages ephemeral first_scratch_page
    ++ (stack_pages
        ++ ((0x6000, normal)
            ∷ (pages_from (bytes_to_pages info.kernel_elf_size_bytes) normal 0x1000000 ++ tables)))

take_all-append :
    (rs qs : List Request) (s : EarlyPageAllocState)
    → take_all (rs ++ qs) s ≡ (take_all rs s >>= take_all qs)
unfolding take_all
take_all-append [] qs s = refl
take_all-append ((pa, ty) ∷ rs) qs s =
    >>=-ext (alloc_at s pa ty) (take_all (rs ++ qs)) (λ t. take_all rs t >>= take_all qs)
      (take_all-append rs qs)
    ∙ sym (>>=_assoc (alloc_at s pa ty) (take_all rs) (take_all qs))

phys_next_page-add : (pa : ℕ) → pa % 4096 ≡ 0 → pa + 4096 < 2 ^ 64 → phys_next_page pa ≡ pa + 4096
unfolding phys_next_page
phys_next_page-add pa al lt = omega arith

take_pages_up-take_all :
    (count : ℕ) (ty : EarlyAllocType) (pa : ℕ) (s : EarlyPageAllocState)
    → pa % 4096 ≡ 0
    → pa + count * 4096 < 2 ^ 64
    → take_pages_up count ty pa s ≡ take_all (pages_from count ty pa) s
unfolding take_pages_up take_all
take_pages_up-take_all zero ty pa s al lt = refl
take_pages_up-take_all (suc count) ty pa s al lt =
    >>=-ext (alloc_at s pa ty) (take_pages_up count ty (phys_next_page pa))
      (take_all (pages_from count ty (pa + 4096)))
      (λ t.
        rw (phys_next_page-add pa al (omega arith))
          (take_pages_up-take_all count ty (pa + 4096) t (omega arith) (omega arith)))

take_tables :
    (s : EarlyPageAllocState)
    → (do
      s5 ← early_page_alloc_ephemeral_at s early_pgd
      s6 ← early_page_alloc_ephemeral_at s5 early_pud_direct_map
      s7 ← early_page_alloc_ephemeral_at s6 early_pud_kernel_elf
      s8 ← early_page_alloc_at s7 early_video_buffer_address_phys
      early_page_alloc_at s8 (early_video_buffer_address_phys + 0x1000))
      ≡ take_all tables s
unfolding take_all early_page_alloc_ephemeral_at early_page_alloc_at alloc_at
take_tables s = >>=-ext (alloc_at s 0x1000 ephemeral) _ _ λ s5.
    >>=-ext (alloc_at s5 0x3000 ephemeral) _ _ λ s6.
      >>=-ext (alloc_at s6 0x4000 ephemeral) _ _ λ s7.
        >>=-ext (alloc_at s7 0x7000 normal) _ _ λ s8. sym (>>=-some (alloc_at s8 0x8000 normal))

take_stack :
    (s : EarlyPageAllocState)
    → take_pages_down kernel_stack_pages normal kernel_stack_address_phys s ≡ take_all stack_pages s
unfolding take_all take_pages_down phys_prev_page phys_to_pfn pfn_to_phys shl alloc_at
take_stack s = refl

boot_info_page :
    (s : EarlyPageAllocState)
    → early_page_alloc_at s (virt_to_phys early_boot_info_address) ≡ alloc_at s 0x6000 normal
unfolding early_page_alloc_at virt_to_phys
boot_info_page s = refl

module _ (info : EarlyBootInfo) (small : info.kernel_elf_size_bytes < 2 ^ 32) where
  abbrev image : List Request
  image = pages_from (bytes_to_pages info.kernel_elf_size_bytes) normal 0x1000000

  image_fits : 0x1000000 + bytes_to_pages info.kernel_elf_size_bytes * 4096 < 2 ^ 64
  image_fits = omega (arith, bytes_to_pages-least info.kernel_elf_size_bytes (omega arith))

  take_image :
      (s : EarlyPageAllocState)
      → (do
        s4 ←
            take_pages_up
              (bytes_to_pages info.kernel_elf_size_bytes)
              normal
              kernel_elf_address_phys
              s
        s5 ← early_page_alloc_ephemeral_at s4 early_pgd
        s6 ← early_page_alloc_ephemeral_at s5 early_pud_direct_map
        s7 ← early_page_alloc_ephemeral_at s6 early_pud_kernel_elf
        s8 ← early_page_alloc_at s7 early_video_buffer_address_phys
        early_page_alloc_at s8 (early_video_buffer_address_phys + 0x1000))
        ≡ take_all (image ++ tables) s
  take_image s =
      rw
        (take_pages_up-take_all (bytes_to_pages info.kernel_elf_size_bytes) normal 0x1000000 s refl
          image_fits)
        (>>=-ext (take_all image s) _ (take_all tables) take_tables
          ∙ sym (take_all-append image tables s))

  take_rest :
      (s : EarlyPageAllocState)
      → (do
        s3 ← early_page_alloc_at s (virt_to_phys early_boot_info_address)
        s4 ←
            take_pages_up
              (bytes_to_pages info.kernel_elf_size_bytes)
              normal
              kernel_elf_address_phys
              s3
        s5 ← early_page_alloc_ephemeral_at s4 early_pgd
        s6 ← early_page_alloc_ephemeral_at s5 early_pud_direct_map
        s7 ← early_page_alloc_ephemeral_at s6 early_pud_kernel_elf
        s8 ← early_page_alloc_at s7 early_video_buffer_address_phys
        early_page_alloc_at s8 (early_video_buffer_address_phys + 0x1000))
        ≡ take_all ((0x6000, normal) ∷ (image ++ tables)) s
  unfolding take_all alloc_at
  take_rest s =
      rw (boot_info_page s, take_all)
        (>>=-ext (alloc_at s 0x6000 normal) _ (take_all (image ++ tables)) take_image)

  -- The calls of `alloc_init_pages` are requests for the pages in use, one by one.
  alloc_init_pages-take_all :
      (first_scratch_page num_scratch_pages : ℕ) (s : EarlyPageAllocState)
      → first_scratch_page % 4096 ≡ 0
      → first_scratch_page + num_scratch_pages * 4096 < 2 ^ 64
      → alloc_init_pages info first_scratch_page num_scratch_pages s
        ≡ take_all (in_use info first_scratch_page num_scratch_pages) s
  unfolding alloc_init_pages
  alloc_init_pages-take_all first count s al lt =
      let scratch = pages_from count ephemeral first in
      rw (take_pages_up-take_all count ephemeral first s al lt) (
        >>=-ext (take_all scratch s) _
          (take_all (stack_pages ++ ((0x6000, normal) ∷ (image ++ tables))))
          (λ s1. rw (take_stack s1) (
            >>=-ext (take_all stack_pages s1) _ (take_all ((0x6000, normal) ∷ (image ++ tables)))
              take_rest
            ∙ sym (take_all-append stack_pages _ s1)))
        ∙ sym (take_all-append scratch _ s))

  -- From a well-formed state, `alloc_init_pages` takes the pages in use: the scratch pages, the
  -- stack's four, the boot info, the pages of the kernel's image, three page tables and two pages of
  -- the buffer of the screen. It panics just when one of them lies in no span, is taken already or
  -- is asked for twice; otherwise these pages become taken, no other page changes, each is counted,
  -- and the spans stay well-formed. The scratch pages are page-aligned and end below 2 ^ 64.
  pub alloc_init_pages-TakeResult :
      (first_scratch_page num_scratch_pages : ℕ) (s : EarlyPageAllocState)
      → first_scratch_page % 4096 ≡ 0
      → first_scratch_page + num_scratch_pages * 4096 < 2 ^ 64
      → AllValid s.spans
      → s.num_allocated_pages < 2 ^ 64
      → TakeResult s
          (in_use info first_scratch_page num_scratch_pages)
          (alloc_init_pages info first_scratch_page num_scratch_pages s)
  alloc_init_pages-TakeResult first count s al lt v few =
      rw (alloc_init_pages-take_all first count s al lt)
        (take_all-TakeResult (in_use info first count) s v few)
