-- ===== src/Lib.antt =====
-- Emergence Kernel: a small x86-64 kernel in C, in which a monitor owns the page tables.
--
-- The parts that are modelled, and how they interact. Every list of the kernel is an intrusive
-- circular list of kernel/list.h. The buddy allocator of kernel/pmm.c hands out blocks of 2^0 to 2^9
-- pages and keeps its descriptors in such lists, one for each order and one for the allocated
-- blocks. The table of kernel/pcd.c holds a type for every physical page: pmm_alloc marks the pages
-- it hands out in it, and the monitor reads and writes it. The scheduler of kernel/scheduler.c keeps
-- runnable threads in such a list too, and kernel/thread.c calls it to yield and to exit. The
-- registry of kernel/kmap.c says what is mapped where in the kernel's address space; behind it are
-- four-level page tables, whose pages come from pmm_alloc, and its page-fault handler maps pages on
-- demand. The monitor of kernel/monitor/monitor.c runs pmm_alloc, pmm_free and the page types for
-- the outer kernel in privileged mode, and maps pages into the outer kernel's tables by their types.
-- The slab allocator of kernel/slab.c cuts pages into objects; the address spaces of kernel/vm.c and
-- the processes of kernel/process.c are such objects, and a fork clones an address space. At boot
-- arch/x86_64/multiboot2.c gives the free memory to pmm_add_region. Interrupts are switched off with
-- nesting by arch/x86_64/idt.h, which the spin locks use, and arch/x86_64/uaccess.c copies to and
-- from user memory.
--
-- The files and the code they model:
--   Prelude              names, lists and words that the others share
--   ListHead             kernel/list.h: links on an explicit heap, one function for each routine
--   Scheduler            kernel/scheduler.c, and thread_yield and thread_exit of kernel/thread.c
--   Pmm                  kernel/pmm.c and kernel/pmm.h: lists, splitting, merging, alloc, free
--   Pmm/Region           pmm_add_region of kernel/pmm.c
--   Pcd                  kernel/pcd.c and kernel/pcd.h: set_type, get_type, mark_region
--   Pcd/Init             pcd_init of kernel/pcd.c
--   Paging               kmap_alloc_page, kmap_map_pages_direct and kmap_free_page of kernel/kmap.c
--   Kmap                 kernel/kmap.c and kernel/kmap.h: the registry of mappings
--   Kmap/Find            the lookups and queries of kernel/kmap.c
--   Kmap/Pages           mapping, unmapping, new flags and page faults of kernel/kmap.c
--   Monitor              kernel/monitor/monitor.c: the calls, and mapping with validation; the
--                        trampoline of arch/x86_64/monitor/monitor_call.S
--   Monitor/Protect      monitor_protect_all_ptps of kernel/monitor/monitor.c
--   Monitor/ReadOnly     monitor_create_ro_mappings of kernel/monitor/monitor.c
--   Slab                 kernel/slab.c and kernel/slab.h: caches, slab_alloc and slab_free
--   Slab/Sizes           slab_init, slab_alloc_size and slab_free_size of kernel/slab.c
--   Vm                   kernel/vm.c and kernel/vm.h: address spaces and their regions
--   Process              kernel/process.c and kernel/process.h
--   Irq                  arch/x86_64/idt.h: irq_disable, irq_enable, irq_save and irq_restore
--   Spinlock             include/spinlock.h and arch/x86_64/spinlock_arch.h: the spin lock
--   Spinlock/ReadWrite   the read-write lock of arch/x86_64/spinlock_arch.h
--   Uaccess              arch/x86_64/uaccess.c
--   Multiboot            arch/x86_64/multiboot2.c
--   Syscall              arch/x86_64/syscall.c: the calls and their dispatch
--   Cstring              lib/minilibc/string.c
--   Printf               lib/minilibc/printf.c: vsnprintf on a byte memory
-- A C function keeps its name without the prefix that its module says: pmm_alloc is Pmm.alloc. Its
-- global state is a record that it takes and returns. The other files below a module hold its lemmas
-- and tests.
--
-- A word is a natural number, and an operation on a word of w bits that may wrap is written with its
-- remainder by 2 ^ w. A 64-bit address that the code compares with NULL is a number, or an option
-- where it points to a structure. An array is a function from indices. A list of kernel/pmm.c is the
-- sequence of the descriptors in it, since the routines of kernel/list.h are modelled with their
-- links in ListHead, and a descriptor is in one list at a time.
--
-- Bounds and fuel. Pmm: a split loop has the block's order as fuel and lowers it by one a round; a
-- merge loop has the orders left up to 9; the search for a block has the orders left; the search for
-- a buddy looks at 1000 nodes, as the code does; the loop of pmm_add_region has the number of pages
-- in the range, and each round takes at least a page. Pcd: the marking loop has one more than the
-- number of pages in its range. ListHead: a traversal has fuel for the nodes of the ring. Paging and
-- Monitor: a walk goes down by levels, from 3 to 0. Kmap/Pages: a loop over a mapping has its number
-- of pages. Printf: 64 digits, and a 64-bit number has no more in any base; they are kept in a list,
-- for the 32 places of the code, which the bases of all calls, 10 and 16, do not fill. Cstring: more than the
-- characters of the string. Multiboot: one more than the characters of the command line, of which a
-- round takes one at least; the size of the tags, of which a round takes 8 bytes, and of the memory
-- map, whose loop runs out of fuel only where the entries have size 0. Recursion elsewhere is on a
-- list or a count. pcd_init has no result in the model where it writes past the block for its array, with
-- more than 524288 pages. The next PID in Process is a word of 32 bits that wraps around.
--
-- Page tables are a function from a table's address and an index to a word. The unrolled levels of a
-- walk are rounds of one function. A descriptor of kernel/kmap.c is a number, the slab's answer to a
-- request for one is an argument, and kmap_list is the sequence of the numbers in it.
--
-- In Slab, Vm and Process a structure is named by its address, and 0 is NULL. The page that a slab
-- asks for, and in Vm and Process the objects, pages and threads, are arguments: what the allocators
-- answer. What is in use is kept as a list beside the structures, with hold and erase of Slab.
--
-- Not modelled: locks around whole operations, so that an operation is one step, except in Spinlock,
-- whose steps are the accesses to the lock's word, one after another, without memory orders; log
-- messages and dumps; TLB invalidation; context switches, which are recorded and not run;
-- pmm_reserve_region and pmm_init; monitor_init and monitor_verify_invariants; thread creation; the
-- list of a process's threads, which nothing goes through, and file descriptors; the set-up and entry
-- of system calls; drivers, the start of processors, assembly but for the trampoline, and the in-kernel tests.
pub mod Cstring
pub mod Irq
pub mod Kmap
pub mod ListHead
pub mod Monitor
pub mod Multiboot
pub mod Paging
pub mod Pcd
pub mod Pmm
pub mod Prelude
pub mod Printf
pub mod Process
pub mod Scheduler
pub mod Slab
pub mod Spinlock
pub mod Syscall
pub mod Uaccess
pub mod Vm
