-- ===== src/Lib.antt =====
-- cse-os: a small operating system kernel for a MIPS board. This library models the parts of the
-- kernel that manage memory, environments, the processor's time and the devices, and proves what
-- makes them correct.
--
-- The parts and the files that model them:
--   * Mmu: the constants and macros of inc/mmu.h, and ROUND of inc/types.h.
--   * Mm: the state of the memory manager, as a record Mm, and a state monad in which panic() and an
--     access through NULL are outcomes; PADDR, KADDR and the conversions of mm/pmap.c.
--   * Pmap.FreeList: LIST_INSERT_HEAD and LIST_REMOVE of inc/queue.h, page_init, page_alloc,
--     page_free and page_decref of mm/pmap.c. Chain relates the links to a list of page numbers.
--   * Pmap.Tables: va2pa, pgdir_walk, page_lookup, page_remove, page_insert, tlb_invalidate and
--     pageout (Fresh) of mm/pmap.c. Space gives the address space that the tables in memory stand for.
--   * Pmap.Boot: set_physic_mm, alloc, boot_pgdir_walk, boot_map_segment (Segment), vm_init (Arrays,
--     VmInit) and getNextTlb of mm/pmap.c, which run before the free list exists.
--   * Env: the environments of env/env.c: identifiers (Ids), creation (Setup with Windows, Alloc), the
--     ring of runnable environments (Ring), env_free (Free, Leave), and threads and program start
--     (Threads).
--   * Sched: sched_yield and sched_yield_voluntarily_giveup of env/sched.c.
--   * Hash: the hash table of shared pages of env/hash.c.
--   * Shm: create_share_vm, insert_share_vm and page_alloc_share of mm/pmap.c, sys_get_shm, and
--     env_create_share of env/env.c (Create).
--   * Syscall: the system calls of lib/syscall_all.c: on memory (Memory), on messages (Ipc), on the
--     state of an environment (Status) and on device registers (Dev).
--   * Elf: the loader of fs/elf.c: memCpy and memSet (Copy), load_elf (Segments, Turn, Load), the
--     dynamic linker (Dynamic, Symbols), and load_elf_sd (Static) and load_so_file (Shared).
--   * Console: the input buffer of drivers/console.c (Queue, Wrap).
--   * Readline: lib/readline.c: a typed line (Typed) and the earlier lines (Recall).
--   * Device: the device registry and the banker's algorithm of lib/rtThread.c.
--   * Strings: the string and memory functions of lib/string.c, with strtol (Number), and the tokens of
--     ushell/user/string.c (Tokens).
--   * Drivers: the lights and digits of drivers/leds.c and drivers/seven_seg.c, and the timer of
--     drivers/timer.c (Timer).
--   * Traps: the exception handlers of lib/traps.c (Fault) over bcopy and bzero of lib/tool.c (Blocks).
--   * Shell: how ushell/user/shell.c prints a number (Digits, Reverse, Decimal).
--   * Lifecycle: the states that the kernel reaches from env_init by the calls of Env, Sched and
--     Syscall that create, schedule, suspend, wake and free environments (Reached), as a step
--     relation; Order says what all of them keep, and a module for each group of calls shows it.
--   * Base: lists, Boolean tests and bit lemmas that the others share.
--
-- How they interact: the environments keep their page directories in pages of the memory manager,
-- so that Env calls page_alloc, page_remove and page_decref; the scheduler walks the ring that Env
-- keeps and ends in env_run. The system calls look an environment up with envid2env and act on its
-- address space, on the ring or on the hash table, and sys_ipc_recv ends in sched_yield. Lifecycle
-- composes these calls. A tlb_out is logged in Mm, a call of a driver in Device.Bank.
--
-- Conventions: a pointer to a control block is the block's index, and NULL is `none`; memory is a
-- function from kernel virtual addresses to words. A machine word is a natural number, and wrap-around
-- is written out as a remainder. Bits are put together by bit_or. Elf and Traps have an outcome for
-- a word at an address that is not a multiple of 4; elsewhere words stand at multiples of 4. A check
-- `r < 0` on an unsigned r, which never holds, is left out.
--
-- Fuel: a walk round the ring of runnable environments takes one unit for each environment, and the
-- theorems on sched_yield and env_free hold when there are as many units as environments in the ring.
-- tryHashTableFind takes at most ten steps while some element is empty, and the safety check of
-- rt_require_device at most three rounds for its two customers. strlen takes one unit for each byte
-- of the string and its end. The walks of sys_ipc_recv take one unit for each environment before the
-- caller in the ring, and one for each on the free list; that of sys_ipc_can_send does not end at the
-- head, so that it is endless where no fuel is enough. The loops over program headers have 65536 turns,
-- as many as a 16-bit count can ask for; a comparison of names takes one unit for each byte of the
-- name. bcopy and bzero
-- take a quarter of the length and four more, Int2String ten digits, and strtol of its result twelve
-- bytes. Other loops run on their counters.
--
-- Not modelled: what is printed; the interrupts and the assembly; FatFs, which is third-party code:
-- f_open and f_read are parameters of Elf.Shared, and load_elf_mapper, which reads a program through
-- them under page faults, is a parameter of Env.Threads; the system calls that hand their arguments
-- to FatFs or to a driver; the other drivers, and the commands
-- of the user shell.
pub mod Base
pub mod Mmu
pub mod Mm
pub mod Pmap
pub mod Hash
pub mod Lifecycle
pub mod Device
pub mod Console
pub mod Readline
pub mod Elf
pub mod Drivers
pub mod Env
pub mod Sched
pub mod Strings
pub mod Syscall
pub mod Shm
pub mod Shell
pub mod Traps
