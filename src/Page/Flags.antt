-- ===== src/Page/Flags.antt =====
-- What the page flags of a mapping mean, and what a written entry gives back.
use zeptux.Base.{
  ℕ, ◌%◌, ◌^◌, ◌<◌, Bool, true, false, not, ◌≡◌, refl, ◌==◌, if◌then◌else◌, arith, bit_and, bit_or,
  bit_xor, ◌⊎◌, inl, inr,
}
use zeptux.Base.Bits.{bit}
use zeptux.Word.{is_mask_set}
use zeptux.Page.Entry.{
  map_flags_to_page_flags, map_flag_mode_mask, map_code, map_readonly, map_kernel,
  map_kernel_noglobal, map_device, page_flag_nx, page_flag_rw, page_flag_kernel, page_flag_default,
}

abbrev pub IsMode : ℕ → Type 0
IsMode mode = (mode ≡ map_kernel) ⊎ (mode ≡ map_kernel_noglobal) ⊎ (mode ≡ map_device)

-- Page flags by their bits: present, writable, user, write through, uncached, accessed and dirty,
-- PSE, global and not executable; and no bit from 12 to 62.
pub record MeansFlags (code readonly : Bool) (mode f : ℕ) : Type 0 where
  pub present : bit f 0 ≡ true
  pub writable : bit f 1 ≡ not readonly
  pub supervisor : bit f 2 ≡ false
  pub write_through : bit f 3 ≡ (mode == map_device)
  pub uncached : bit f 4 ≡ (mode == map_device)
  pub fresh : (bit f 5 ≡ false) × (bit f 6 ≡ false)
  pub small : bit f 7 ≡ false
  pub across : bit f 8 ≡ (mode == map_kernel)
  pub not_executable : bit f 63 ≡ not code
  pub no_address : (f < 2 ^ 64) × (f % 2 ^ 63 < 2 ^ 12)

abbrev modified : Bool → Bool → ℕ → ℕ
modified code readonly flags =
    let flags = if code then flags else bit_or flags page_flag_nx in
    if readonly then bit_xor flags page_flag_rw else flags

abbrev Holds : ℕ → ℕ → Type 0
Holds mode flags =
    (code readonly : Bool) → MeansFlags code readonly mode (modified code readonly flags)

kernel_flags : Holds map_kernel page_flag_kernel
kernel_flags true true = record {
  present = refl;
  writable = refl;
  supervisor = refl;
  write_through = refl;
  uncached = refl;
  fresh = (refl, refl);
  small = refl;
  across = refl;
  not_executable = refl;
  no_address = (omega arith, omega arith);
}
kernel_flags true false = record {
  present = refl;
  writable = refl;
  supervisor = refl;
  write_through = refl;
  uncached = refl;
  fresh = (refl, refl);
  small = refl;
  across = refl;
  not_executable = refl;
  no_address = (omega arith, omega arith);
}
kernel_flags false true = record {
  present = refl;
  writable = refl;
  supervisor = refl;
  write_through = refl;
  uncached = refl;
  fresh = (refl, refl);
  small = refl;
  across = refl;
  not_executable = refl;
  no_address = (omega arith, omega arith);
}
kernel_flags false false = record {
  present = refl;
  writable = refl;
  supervisor = refl;
  write_through = refl;
  uncached = refl;
  fresh = (refl, refl);
  small = refl;
  across = refl;
  not_executable = refl;
  no_address = (omega arith, omega arith);
}

noglobal_flags : Holds map_kernel_noglobal page_flag_default
noglobal_flags true true = record {
  present = refl;
  writable = refl;
  supervisor = refl;
  write_through = refl;
  uncached = refl;
  fresh = (refl, refl);
  small = refl;
  across = refl;
  not_executable = refl;
  no_address = (omega arith, omega arith);
}
noglobal_flags true false = record {
  present = refl;
  writable = refl;
  supervisor = refl;
  write_through = refl;
  uncached = refl;
  fresh = (refl, refl);
  small = refl;
  across = refl;
  not_executable = refl;
  no_address = (omega arith, omega arith);
}
noglobal_flags false true = record {
  present = refl;
  writable = refl;
  supervisor = refl;
  write_through = refl;
  uncached = refl;
  fresh = (refl, refl);
  small = refl;
  across = refl;
  not_executable = refl;
  no_address = (omega arith, omega arith);
}
noglobal_flags false false = record {
  present = refl;
  writable = refl;
  supervisor = refl;
  write_through = refl;
  uncached = refl;
  fresh = (refl, refl);
  small = refl;
  across = refl;
  not_executable = refl;
  no_address = (omega arith, omega arith);
}

device_flags : Holds map_device 27
device_flags true true = record {
  present = refl;
  writable = refl;
  supervisor = refl;
  write_through = refl;
  uncached = refl;
  fresh = (refl, refl);
  small = refl;
  across = refl;
  not_executable = refl;
  no_address = (omega arith, omega arith);
}
device_flags true false = record {
  present = refl;
  writable = refl;
  supervisor = refl;
  write_through = refl;
  uncached = refl;
  fresh = (refl, refl);
  small = refl;
  across = refl;
  not_executable = refl;
  no_address = (omega arith, omega arith);
}
device_flags false true = record {
  present = refl;
  writable = refl;
  supervisor = refl;
  write_through = refl;
  uncached = refl;
  fresh = (refl, refl);
  small = refl;
  across = refl;
  not_executable = refl;
  no_address = (omega arith, omega arith);
}
device_flags false false = record {
  present = refl;
  writable = refl;
  supervisor = refl;
  write_through = refl;
  uncached = refl;
  fresh = (refl, refl);
  small = refl;
  across = refl;
  not_executable = refl;
  no_address = (omega arith, omega arith);
}

-- The page flags of a mapping in one of the three modes: writable unless MAP_READONLY is given,
-- executable only if MAP_CODE is, global in the kernel mode only, and uncached and written
-- through in the device mode only; never for the user, nor accessed, dirty or
-- huge, and never with a bit of the address.
pub map_flags_to_page_flags-MeansFlags :
    (map_flags : ℕ)
    → IsMode (bit_and map_flags map_flag_mode_mask)
    → MeansFlags
        (is_mask_set map_flags map_code)
        (is_mask_set map_flags map_readonly)
        (bit_and map_flags map_flag_mode_mask)
        (map_flags_to_page_flags map_flags)
unfolding map_flags_to_page_flags
map_flags_to_page_flags-MeansFlags map_flags (inl k) = rw k (kernel_flags _ _)
map_flags_to_page_flags-MeansFlags map_flags (inr (inl k)) = rw k (noglobal_flags _ _)
map_flags_to_page_flags-MeansFlags map_flags (inr (inr k)) = rw k (device_flags _ _)
