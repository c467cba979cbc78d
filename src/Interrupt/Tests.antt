-- ===== src/Interrupt/Tests.antt =====
-- The theorem on the local APIC for one of version 0x50014, with six entries.
use zeptux.Base.{arith}
use zeptux.Interrupt.{interrupt_init}
use zeptux.Interrupt.Laws.{IsSetUp, interrupt_init-IsSetUp}

interrupt_init-IsSetUp_example : IsSetUp 0x50014 0 (interrupt_init 0x50014)
interrupt_init-IsSetUp_example = interrupt_init-IsSetUp 0x50014 0 (omega arith)
