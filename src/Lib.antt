-- ===== src/Lib.antt =====
-- A simulator of an operating system: processes are loaded from files, a scheduler with one queue for
-- each of 140 priorities gives them to CPUs, each CPU runs a process for a time slice, and the
-- instructions of a process allocate, free, read and write memory that is paged between one RAM and a
-- swap device.
--
-- The parts and their files:
--   Base      names of the libraries that all files use, Boolean tests, lists, arrays as functions, runs
--             that may fault, return codes, and laws of words.
--   Queue     src/queue.c, include/queue.h: the array of ten processes. Queue/Represents relates it to
--             a list; Queue/Shift, Queue/Select and Queue/Fifo are about `dequeue`.
--   Sched     src/sched.c, built with MLQ_SCHED: one queue for each priority, a budget for each, and the
--             current priority with what is left of its budget. Sched/Valid has the abstract view and
--             the invariant, Sched/Init the start, Sched/Policy and Sched/Turns the policy,
--             Sched/Service and Sched/Promises what the waiting processes get, Sched/Wait and Sched/Fair
--             how long they wait.
--   Bitops    include/bitops.h, and SETBIT to GETVAL of include/mm.h.
--   Pte       the masks of include/mm.h, and init_pte, pte_set_swap and pte_set_fpn of src/mm.c.
--   Memphy    src/mm-memphy.c: RAM and swap as arrays of bytes with a list of free frames.
--   Mm        include/os-mm.h and src/mm.c: the page directory, the areas and the regions of a process.
--             Mm/Map is about the mapping of pages to frames, Mm/Swap about the copy of a page.
--   MmVm      src/mm-vm.c: the areas and their limits; MmVm/Limit is about inc_vma_limit.
--   SysMem    src/sys_mem.c: system call 17, through which the library reaches the kernel.
--   Libmem    src/libmem.c, regions: __alloc, __free and the search for a free region. Libmem/FirstFit
--             is about the search, Libmem/Alloc and Libmem/Exhausted about the calls.
--   Paging    src/libmem.c, pages and bytes: pg_getpage to libwrite, find_victim_page, free_pcb_memph.
--             Paging/Access and Paging/Bounds are about bytes, Paging/Victim, Paging/Ram and Paging/Fault
--             about page faults.
--   Process   include/common.h: instructions and PCBs. The PCBs live in a store that is indexed by handles,
--             which stand for the pointers to them, and which tells those that were freed.
--   Segment   src/mem.c: the older memory with segments, whose functions only refuse; Segment/Laws.
--   Killall   src/sys_killall.c: copies between a process and the kernel (Killall/Copy), and system call
--             101. Killall/Release and Killall/Times are about the regions that it frees, and how often,
--             Killall/Survivors and Killall/Queues about its loops over a ready queue,
--             Killall/Items, Killall/Cuts and Killall/Running about those over the running list, Killall/View is
--             about both as the scheduler sees them, and Killall/Call about the whole call. Killall/Thins and
--             Killall/Stays are about the scheduler after a call that meets any processes.
--   Syscall   src/syscall.c, src/libstd.c, src/sys_listsyscall.c, src/sys_xxxhandler.c: the dispatch.
--   Cpu       src/cpu.c: one instruction of a process. Cpu/Frame is about what it leaves alone,
--             Cpu/Stays about the scheduler after it, Cpu/Tame about code without killall, and Cpu/Legacy
--             has the instructions on the older memory.
--   Stdio     the functions of the C library that read files, as an interface.
--   Loader    src/loader.c: a process from its file. Loader/Print has the files, and what the C library
--             is taken to do on them; Loader/Names and Loader/RoundTrip are about what is read.
--             Loader/Example has files for the tests.
--   Timer     src/timer.c: the clock and its devices, with Timer/Steps, the steps of the threads in any
--             order. Timer/Invariant has the invariant, Timer/Barrier keeps it, and Timer/Progress what
--             follows of it. Timer/Signals is about the threads that sleep, Timer/Rounds about the round of the
--             timer, and Timer/Liveness about the devices that wait.
--   Simulator src/os.c: a round of a CPU and of the loader between two calls of next_slot, and
--             Simulator/Config, the configuration and the start. Simulator/Quantum and Simulator/Switch
--             are about the CPU, and Simulator/Load is about the loader.
--             Simulator/Machine has the CPUs and the loader interleaved: a step is what a thread does under one
--             lock, or between two, and steps come in any order. Below it, Places, Taken and Owned
--             have the invariant of where each process is, Lists counts the processes that wait, Room how many
--             there can be, Apart is about the steps, Exclusion about all reachable states, Waits and Fair about
--             how long a process waits, and Rounds and Loads take a round of a CPU and of the loader apart into
--             steps.
--             Simulator/Demo is src/paging.c, a main of its own.
--   Mm/Print has the functions of src/mm.c that print.
--   The files called Tests, Simulator/Machine/Pair, Paging/Example and Process/Example have runs and
--   theorems at concrete states.
--
-- libread and libwrite call pg_getval and pg_setval, which call pg_getpage for the frame and system
-- call 17 for the byte; a page fault takes a victim, a free frame of swap, and system call 17 again to
-- copy. __alloc searches the free regions of an area, and otherwise extends the area by system call 17,
-- which calls inc_vma_limit, and that vm_map_ram, which takes frames of RAM and writes the entries.
--
-- A function of C is a function of the same name, less leading underscores and the prefix MEMPHY_. It
-- takes the state that it uses and returns its code, what it writes through pointers, and the state.
-- Queues and schedulers are over any type of processes with a `prio`. A NULL that is followed, or an
-- index outside of an array whose size is known, is `fault` of `Outcome`. What uninitialised variables
-- hold is a parameter called `junk`. Words have their wrap-around written out. An `int` that a
-- size or an address goes through is kept as the `unsigned long` to which it converts back (`as_int` of
-- Base/Bytes), and its signed overflow is a fault. The addresses of bytes in a physical device, and the
-- numbers of frames and pages, are below 2 ^ 31; a virtual address is not narrowed where only its low
-- 22 bits are read. A BYTE is its pattern below 256.
--
-- Loops are recursion on the rounds that are left, which the code bounds; the loop of MEMPHY_mv_csr has
-- the address as its fuel, which it counts up to. `malloc` is taken to succeed.
--
-- A CPU takes a process from Sched, runs its instructions by Cpu, which calls Libmem, Paging and Syscall,
-- and calls next_slot of Timer after each. The loader reads processes by Loader, waits for their times at
-- the clock of Timer, and adds them to Sched. Loops over a queue make at most as many rounds as the queue
-- has processes, which is their fuel.
--
-- The mutexes are not modelled but for the clock: a locked section is one function, get_mlq_proc, which
-- checks for emptiness before it locks, has its locked part as a function of its own, and a round of a
-- thread of src/os.c runs alone. In Timer and in Simulator/Machine the steps of the threads are
-- interleaved in any order. A locked section is one step there, put_proc, add_proc and get_proc are two,
-- and the wait for a condition variable of the clock is a state in which the thread sleeps until it is
-- signalled or stirs by itself. Simulator/Machine leaves the clock out, which only allows more orders. It
-- has no step for killall, which changes the queues without their lock: what is said of its runs holds up
-- to the first call of killall.
--
-- Not modelled are the creation and the join of threads, what is printed outside of the functions whose
-- purpose is to print, and the branches for builds without MLQ_SCHED or MM_PAGING.
pub mod Base
pub mod Queue
pub mod Sched
pub mod Bitops
pub mod Pte
pub mod Memphy
pub mod Mm
pub mod MmVm
pub mod SysMem
pub mod Libmem
pub mod Paging
pub mod Process
pub mod Segment
pub mod Killall
pub mod Syscall
pub mod Cpu
pub mod Stdio
pub mod Loader
pub mod Timer
pub mod Simulator
