-- ===== src/Lib.antt =====
-- zeptux is a kernel for x86-64, written in C. Its pure core is modelled here: bit masks and
-- bitmaps, ring lists, the memory map of the BIOS and the allocator on it, text output, the kernel
-- log, the page tables, spinlocks, the physical page allocator, the screen and the ELF loader.
--
-- Files and what they model:
-- - Base: library names passed on, Boolean tests, lists as arrays, and the digits of numbers.
-- - Word: include/macros.h, include/compiler.h. BIT_MASK is `bit_mask`, ALIGN_UP is `align_up`,
--   and so on; `Laws` gives each by its digits or as arithmetic, `Scan` the bit scans.
-- - Bitmap: include/bitmap.h, include/bitwise.h. `struct bitmap` is the record `Bitmap`, its array
--   a list of words; operations have the names of the functions.
-- - Range: include/range.h. The E820 merge compares ranges with it.
-- - E820: the four passes of early/mem.c over the entries of `struct early_boot_info`.
-- - EarlyAlloc: the scratch allocator and the early page allocator of early/mem.c, on the bitmaps.
--   `alloc` is `early_alloc`; `Laws` says which page it takes, `Free` that freeing undoes it;
--   `Setup` makes it from the memory map, `Reserve` and `InUse` are about the pages in use then.
-- - EarlyMap: the page tables that early/mem.c builds, and `early_mem_init` itself in `Start`. The
--   physblocks that it fills are in Phys/MemMap.
-- - Strings: include/string.h, on bytes of memory.
-- - Interrupt: arch/x86_64/kernel/interrupt.c, the writes to the registers of the local APIC.
-- - Kmalloc: mm/kmalloc.c, with the physical allocator as a parameter; `OnPhys` gives it Phys,
--   `Zeroed` is `kzalloc`.
-- - Ring: include/list.h, on a heap that gives each node its `prev` and `next`; `Chain` reads the
--   heap as the list of the nodes.
-- - Spinlock: arch/x86_64/include/spinlock.h, threads that interleave over the word of one lock.
-- - Phys: mm/phys.c and include/mm.h, the buddy allocator: `Init`, `Free` and `Alloc` are the code,
--   `Lists` reads its free lists as lists of PFNs, `Managed` is what holds between two operations,
--   `Tiles` how the blocks cover the spans, and `CompactLoop` is about the loop that joins them,
--   `Freed` about giving a block back.
--   Memory and locks are as one processor sees them. `phys_alloc_block` is on fuel, for the tries
--   it may repeat: 14 rounds are enough where no try fails.
-- - Video: early/video.c, lines of text in the buffer of the screen.
-- - Elf: include/elf.h and arch/x86_64/boot/loader.c, on a memory and a disk of bytes.
-- - Format: lib/format.c. The state of `vsnprintf` is `VsnprintfState`, each helper is a function
--   on it; `Meaning` says apart from the code what a format stands for, `Agree` and `Read` that the
--   code computes it, `Output` what `vsnprintf` then does. A width beyond an int is undefined, as
--   the overflow is in C; a string of 2 ^ 31 bytes or more is left out and counts as undefined.
-- - KernelLog: kernel/log.c and the parts of kernel/global.c that it uses. It calls `vsnprintf`
--   for each entry.
-- - Page: include/page.h and mm/page.c. Memory is a function from addresses to 64-bit words;
--   `Map` is `_map_page_range` at its four levels, `Walk` the walk, `Translate` joins the two;
--   `Dump` is the dump, with its lines as data.
--
-- Numbers are natural numbers; where the code computes in a fixed width the remainder by 2 ^ 64
-- (or 2 ^ 32) is written out. A panic is `none` or a constructor of the result. A read out of an
-- array's bounds gives a fixed value, a write there changes nothing, and the theorems say where
-- the code stays in bounds. Loops whose end is not plain run on fuel: the search for a run of bits
-- on as many rounds as the run is long, `vsnprintf` on one more than the length of its format, a
-- loop over a page table on its 512 entries, the alignment of the E820 entries on one more than
-- their number; that the fuel is enough is part of the theorems. The loop over the PGD takes its
-- fuel as an argument. The allocators of page tables are parameters.
--
-- Not modelled: the serial port, the table of interrupt descriptors, the stages of the boot code
-- before the loader, and all assembly and device access; the build tool is not part of the kernel.
-- Locks are left out of the log: a call is one step. Early memory is three: bytes, words of page
-- tables and physblocks, taken not to overlap.
pub mod Base
pub mod Phys
pub mod Spinlock
pub mod Strings
pub mod Video
pub mod Elf
pub mod Word
pub mod Bitmap
pub mod Range
pub mod E820
pub mod EarlyAlloc
pub mod EarlyMap
pub mod Kmalloc
pub mod Ring
pub mod Format
pub mod Interrupt
pub mod KernelLog
pub mod Page
