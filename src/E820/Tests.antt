-- ===== src/E820/Tests.antt =====
-- The theorems on the memory map at concrete values.
use zeptux.Base.{zero, suc, ◌^◌, Bool, [], ◌∷◌, ◌≡◌, refl, inl, inr, arith}
use zeptux.E820.Defs.{
  E820Entry, EarlyBootInfo, early_sort_e820, early_normalise_e820, early_set_total_ram,
}
use zeptux.E820.Sort.{IsSorted, count}
use zeptux.E820.Order.{early_sort_e820-IsSorted}
use zeptux.E820.Total.{TotalResult, early_set_total_ram-TotalResult}
use zeptux.E820.Normalise.{AllFit, TidyBelow, Tidied, early_normalise_e820-Tidied}

-- A RAM entry that is not aligned, a reserved one, and one in which no page fits.
abbrev info : EarlyBootInfo
info = record {
  total_avail_ram_bytes = 0;
  num_ram_spans = 0;
  apic_base = 0xfee00000;
  kernel_elf_size_bytes = 10000;
  num_e820_entries = 3;
  e820_entries =
      record { base = 100; size = 10000; ty = 1 }
      ∷ record { base = 50; size = 20; ty = 2 }
      ∷ record { base = 20000; size = 100; ty = 1 }
      ∷ [];
}

early_sort_e820-IsSorted_example :
    IsSorted 3 (early_sort_e820 info).e820_entries
    × ((p : E820Entry → Bool)
        → count p (early_sort_e820 info).e820_entries ≡ count p info.e820_entries)
early_sort_e820-IsSorted_example = early_sort_e820-IsSorted info (omega arith)

info-AllFit : AllFit info.e820_entries
info-AllFit zero = omega arith
info-AllFit (suc zero) = omega arith
info-AllFit (suc (suc zero)) = omega arith
info-AllFit (suc (suc (suc k))) = omega arith

early_normalise_e820-Tidied_example : Tidied info (early_normalise_e820 info)
early_normalise_e820-Tidied_example = early_normalise_e820-Tidied info (omega arith) info-AllFit

-- One RAM entry of 100 pages and one that is reserved.
abbrev tidy_info : EarlyBootInfo
tidy_info = record {
  total_avail_ram_bytes = 0;
  num_ram_spans = 0;
  apic_base = 0xfee00000;
  kernel_elf_size_bytes = 10000;
  num_e820_entries = 2;
  e820_entries =
      record { base = 2 ^ 20; size = 409600; ty = 1 }
      ∷ record { base = 50; size = 20; ty = 2 }
      ∷ [];
}

tidy_info-TidyBelow : TidyBelow 2 tidy_info.e820_entries
tidy_info-TidyBelow zero lt = inr (refl, refl)
tidy_info-TidyBelow (suc zero) lt = inl (omega arith)
tidy_info-TidyBelow (suc (suc k)) lt = absurd (omega arith)

early_set_total_ram-TotalResult_example : TotalResult tidy_info (early_set_total_ram tidy_info)
early_set_total_ram-TotalResult_example =
    early_set_total_ram-TotalResult tidy_info tidy_info-TidyBelow
