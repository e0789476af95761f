-- ===== src/Lib.antt =====
-- EvalynOS, a kernel in C: a verification of parts of kernel/src.
--
-- The kernel boots through the Limine protocol, takes its memory from a chain of allocators
-- (balloc, buddy, spalloc, vmem), schedules threads under ticket and spin locks, and looks up its
-- first program in a USTAR archive. A fault is unwound by the DWARF readers of the loader, which
-- read .debug_frame and .debug_line of the kernel itself and run in the panic path, where a second
-- fault must not happen. The containers of utils/dstruct hold the state of most parts, and libc is
-- the kernel's own.
--
-- Which file is about which code:
--   Dwarf     kernel/src/loader/dwarf: Reader (dwarf.h), Line (line.c: dwarf_line_for_pc), Fde
--             (fde.c: dwarf_get_fde), Cfi (cfi.c: dwarf_cfi, dwarf_cfi_resolve and
--             dwarf_vaddr_readable). Run is the outcome of a computation: done, failed (the code
--             returns false), fault (a load outside the section or outside an array),
--             overflow (a signed product that is no int64_t, where the handler of
--             -fsanitize=undefined panics) or out_of_fuel.
--   Libc      kernel/src/libc/string.c: Memory has memcpy, memmove and memset, Strings the
--             comparisons and searches; Copy, Fill, Compare and Search are about these.
--             Reciprocal is find_reciprocal_shift of kernel/src/libc/math.c.
--   Loader    kernel/src/loader/symbols.c.
--   Locks     kernel/src/utils/locks: Ticketlock (ticketlock.h, with the counter of
--             kernel/src/sched/preempt.h) Flaglock (spinlock.h, preemptlock.h and irqlock.h)
--             and Mutex (mutex.c).
--   Mem       kernel/src/mem: Buddy has the free lists of buddy.c, its children how blocks are
--             split, merged and added. Boot is balloc.c and buddy_init. Vmem (vmem.c) has the
--             segments, the free lists and vmem_alloc, Vmem/Free has vmem_find_segment and
--             vmem_free. Words is the arithmetic of kernel/src/utils/lib.h and
--             kernel/src/libc/math.h.
--   Misc      kernel/src/utils/misc/ustar.c.
--   Sched     kernel/src/sched/scheduler.c and wait.c: Wakeup is one thread under schedule,
--             schedule_finalize and its wakers.
--   Structures kernel/src/utils/dstruct: Llist (llist.c) and Rbtree (the searches of rbtree.c for a
--             value, the nearest smaller and the nearest greater one).
--   Base      what the others share; Tests has runs on concrete inputs.
--
-- How the state corresponds. A section is the list of its bytes, and each load of the readers is
-- checked against it. The memory of string.c and ustar.c is a function from addresses to bytes,
-- and a region does not wrap around the address space. A linked list is the links of all nodes of
-- the memory, with head, tail and count, and 0 is nullptr. A segment of vmem.c is named by its
-- base, and its tree is the set of the bases of its nodes; spalloc gives the memory of a segment.
-- A page of buddy.c is named by its frame number, and a free list is the list of the frames in it.
-- The locks and the state of a thread are step relations: every atomic access is one step, in any
-- order, and accesses are sequentially consistent. Machine integers keep their wrap-around,
-- written % 2 ^ w; in cfi.c and ustar.c a signed result out of its range is the panic of the
-- sanitizer.
--
-- Fuel. The loops of the readers run on as much fuel as the section has bytes, since each turn
-- reads at least one. The loop of vmem_free takes one more turn than the range has bytes. The loop
-- of buddy_free takes sixteen, since an order is four bits, and that of buddy_add_range_nlock one
-- more than the range has pages. Loops over strings, archives and trees take their fuel as an
-- argument, and a theorem that uses it says how much is enough. The bisection of math.c takes
-- eight turns for its seven halvings. The other loops are recursion on the count of bytes.
--
-- Parameters. dwarf_cfi_resolve takes the page walk and the memory of the unwound stack as
-- functions. rep movsb and rep stosb, which memcpy and memset use on x86, are the byte loops that
-- the instructions are documented to be. The memory map is the boot loader's, a list of entries;
-- the Limine protocol promises that the usable ones are whole pages, sorted and apart.
--
-- Not modelled: spalloc and the page frame database, the boot of vmem, the wait lists with the
-- timeouts, the reaper, the changes of the red-black tree and the pairing heap, paging and address
-- spaces, system calls, and the ELF loader itself; the ports to the three machines, ACPI, the
-- serial driver and the boot glue are registers, tables and assembly; kernel/deps is other
-- projects' code, and dist and extras are recipes and examples.
pub mod Base
pub mod Dwarf
pub mod Libc
pub mod Loader
pub mod Locks
pub mod Mem
pub mod Misc
pub mod Sched
pub mod Structures
pub mod Tests
