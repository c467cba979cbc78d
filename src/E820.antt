-- ===== src/E820.antt =====
-- early/mem.c and include/early_mem.h: the memory map of the BIOS. `Defs` has the four passes
-- over the entries; `Sort` and `Order` are about the first, `Normalise` about the third.
pub mod Defs
pub mod Sort
pub mod Total
pub mod Order
pub mod Normalise
pub mod Tests
