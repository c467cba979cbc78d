-- ===== src/Page.antt =====
-- include/page.h and mm/page.c: addresses, the entries of the page tables, mapping and walking,
-- each with its laws beside it.
pub mod Address
pub mod Entry
pub mod Encode
pub mod Laws
pub mod Flags
pub mod Entries
pub mod Walk
pub mod Map
pub mod Dump
pub mod DumpLaws
pub mod Fill
pub mod Translate
pub mod Tests
