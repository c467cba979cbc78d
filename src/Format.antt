-- ===== src/Format.antt =====
-- lib/format.c: the operations (`Defs`, `Loop`), and what they write.
pub mod Defs
pub mod Loop
pub mod Meaning
pub mod Agree
pub mod Read
pub mod Render
pub mod Convert
pub mod Output
pub mod Digits
pub mod Human
pub mod Tests
