-- ===== src/Bitmap.antt =====
-- include/bitmap.h and include/bitwise.h: the operations (`Defs`), their effect on the set of
-- bits (`View`, `Ops`), and the searches (`Search`, `Run`).
pub mod Defs
pub mod View
pub mod Ops
pub mod Search
pub mod Run
pub mod ZeroRun
pub mod Tests
