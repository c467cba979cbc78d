-- ===== src/Interrupt.antt =====
-- arch/x86_64/kernel/interrupt.c: the set-up of the local APIC, as the writes to its registers in
-- their order. What the APIC holds in its version register is an argument.
pub mod Laws
pub mod Tests
use zeptux.Base.{
  ℕ, ◌+◌, ◌%◌, ◌^◌, true, false, List, [], ◌∷◌, ◌++◌, leb, if◌then◌else◌, bit_and, bit_or,
}
use zeptux.Word.{shr, bit_mask_below}

abbrev pub apic_irq_0 : ℕ
apic_irq_0 = 32

abbrev pub apic_irq_timer : ℕ
apic_irq_timer = 0

abbrev pub apic_irq_error : ℕ
apic_irq_error = 0x13

abbrev pub apic_irq_spurious : ℕ
apic_irq_spurious = 0xdf

-- The offsets of the registers.
abbrev pub apic_tpr_offset : ℕ
apic_tpr_offset = 0x80

abbrev pub apic_eoi_offset : ℕ
apic_eoi_offset = 0xb0

abbrev pub apic_spurious_offset : ℕ
apic_spurious_offset = 0xf0

abbrev pub apic_esr_offset : ℕ
apic_esr_offset = 0x280

abbrev pub apic_timer_offset : ℕ
apic_timer_offset = 0x320

abbrev pub apic_pcint_offset : ℕ
apic_pcint_offset = 0x340

abbrev pub apic_lint0_offset : ℕ
apic_lint0_offset = 0x350

abbrev pub apic_lint1_offset : ℕ
apic_lint1_offset = 0x360

abbrev pub apic_error_offset : ℕ
apic_error_offset = 0x370

abbrev pub apic_ticr_offset : ℕ
apic_ticr_offset = 0x380

abbrev pub apic_tdcr_offset : ℕ
apic_tdcr_offset = 0x3e0

abbrev pub apic_enable_flag : ℕ
apic_enable_flag = 0x100

abbrev pub apic_mask_flag : ℕ
apic_mask_flag = 0x10000

abbrev pub apic_periodic_flag : ℕ
apic_periodic_flag = 0x20000

abbrev pub apic_init_timer_count_value : ℕ
apic_init_timer_count_value = 1000000000

-- A write of `lapic_write_reg`: the offset and the value.
abbrev pub Write : Type 0
Write = ℕ × ℕ

unfoldable pub lapic_clear_error : List Write
lapic_clear_error = (apic_esr_offset, 0) ∷ (apic_esr_offset, 0) ∷ []

unfoldable pub lapic_clear_interrupt : List Write
lapic_clear_interrupt = (apic_eoi_offset, 0) ∷ []

-- `num_lvt_entries`, from the version register; both are uint32_t.
unfoldable pub lvt_entries : ℕ → ℕ
lvt_entries ver =
    let max_lvt_entries = shr (bit_and ver (bit_mask_below 23)) 16 % 2 ^ 32 in
    (max_lvt_entries + 1) % 2 ^ 32

-- `num_lvt_entries` and the writes.
unfoldable pub lapic_init : ℕ → ℕ × List Write
unfolding lapic_clear_error lapic_clear_interrupt
lapic_init ver =
    let num_lvt_entries = lvt_entries ver in
    (
      num_lvt_entries,
      ((apic_lint0_offset, apic_mask_flag) ∷ (apic_lint1_offset, apic_mask_flag) ∷ [])
          ++ (lapic_clear_error
              ++ (lapic_clear_interrupt
                  ++ ((apic_error_offset, apic_irq_0 + apic_irq_error)
                      ∷ (apic_tdcr_offset, 0xb)
                      ∷ (apic_timer_offset, bit_or apic_periodic_flag (apic_irq_0 + apic_irq_timer))
                      ∷ (apic_ticr_offset, apic_init_timer_count_value)
                      ∷ ((if leb 4 num_lvt_entries
                            then (apic_pcint_offset, apic_mask_flag) ∷ []
                            else [])
                          ++ ((
                            apic_spurious_offset,
                            bit_or apic_enable_flag (apic_irq_0 + apic_irq_spurious),
                          )
                              ∷ (apic_tpr_offset, 0)
                              ∷ []))))),
    )

unfoldable pub interrupt_init : ℕ → ℕ × List Write
interrupt_init ver = lapic_init ver
