-- ===== src/Interrupt/Laws.antt =====
-- What the registers of the local APIC hold when it is set up.
use zeptux.Base.{
  ℕ, ◌+◌, ◌/◌, ◌%◌, ◌^◌, ◌<◌, List, [], ◌∷◌, ◌≡◌, refl, ◌==◌, leb, if◌then◌else◌, arith, Bool-cases,
  inl, inr,
}
use zeptux.Word.{bit_mask_below}
use zeptux.Word.Laws.{bit_and-mask_below}
use zeptux.Interrupt.{Write, lvt_entries, interrupt_init, lapic_init}

-- What is last written to a register, and before the writes `old`.
abbrev pub reg_after : List Write → ℕ → ℕ → ℕ
reg_after [] reg old = old
reg_after ((offset, value) ∷ ws) reg old = reg_after ws reg (if offset == reg then value else old)

lvt_entries-eq : (ver : ℕ) → ver < 2 ^ 32 → lvt_entries ver ≡ ver / 2 ^ 16 % 2 ^ 7 + 1
unfolding lvt_entries bit_mask_below
lvt_entries-eq ver lt = omega (arith, bit_and-mask_below ver 23 (omega arith) (omega arith))

-- The registers, where `old` stands in those that are not written.
pub record IsSetUp (ver old : ℕ) (r : ℕ × List Write) : Type 0 where
  pub entries : r.0 ≡ ver / 2 ^ 16 % 2 ^ 7 + 1
  pub timer : reg_after r.1 0x320 old ≡ 2 ^ 17 + 32
  pub count : reg_after r.1 0x380 old ≡ 10 ^ 9
  pub errors : reg_after r.1 0x370 old ≡ 51
  pub spurious : reg_after r.1 0xf0 old ≡ 2 ^ 8 + 255
  pub priority : reg_after r.1 0x80 old ≡ 0
  pub pins : (reg_after r.1 0x350 old ≡ 2 ^ 16) × (reg_after r.1 0x360 old ≡ 2 ^ 16)
  pub counters : reg_after r.1 0x340 old ≡ (if leb 3 (ver / 2 ^ 16 % 2 ^ 7) then 2 ^ 16 else old)

-- After `interrupt_init` the timer is periodic on vector 32 and counts from 10^9, the errors are on
-- vector 51, the spurious interrupts on 255 with the APIC enabled, the task priority is 0, both
-- interrupt pins are masked, and the performance counters are masked just when the APIC has four
-- entries or more by the seven bits from 16 on of the version register, plus one; else that register
-- is left alone.
pub interrupt_init-IsSetUp : (ver old : ℕ) → ver < 2 ^ 32 → IsSetUp ver old (interrupt_init ver)
unfolding interrupt_init lapic_init
interrupt_init-IsSetUp ver old lt =
    let e = lvt_entries-eq ver lt in
    elim (Bool-cases (leb 4 (lvt_entries ver))) [
      | inl many ↦ rw many (record {
        entries = e;
        timer = refl;
        count = refl;
        errors = refl;
        spurious = refl;
        priority = refl;
        pins = (refl, refl);
        counters = ground (arith, e);
      })
      | inr few ↦ rw few (record {
        entries = e;
        timer = refl;
        count = refl;
        errors = refl;
        spurious = refl;
        priority = refl;
        pins = (refl, refl);
        counters = ground (arith, e);
      })
    ]
