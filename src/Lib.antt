-- ===== src/Lib.antt =====
-- A verification library for the kernel of so-finalproject, a small x86 system.
--
-- The program. The boot loader enters src/kmain.c, which sets up the processor's tables (src/gdt.c,
-- src/idt.c, src/tss.c), the devices (src/drivers/, src/pit.c), the page frame allocator
-- (src/pfa.c), the page tables, the heap and the file system, creates the shell's process
-- (src/process.c) and enters it. From then on the kernel runs when an interrupt or a system call
-- enters it: the timer's interrupt calls the scheduler, the keyboard's interrupt edits a line of
-- input, which the system call for reading takes.
--
-- The files and what they model.
--   Base: numbers, bits, the unsigned types of C, `int` (ℤ), lists. u8, u16 and u32 are C's
--     conversions; sub_u32 and not_u32 are `-` and `~` on unsigned int.
--   Memory: the bytes that the kernel reads through pointers, and src/kutil.c (memset, memcpy,
--     strcmp, strlen). Memory/Words, Memory/Blocks and Memory/Strings hold the proofs.
--   Pfa: src/pfa.c. The statics frame_bitmap, total_frame_count and used_frame_count are the
--     record Pfa; a function pfa_f is `f`, with the record as its first argument and in its
--     result. Pfa/Init is pfa_init over the structures of include/multiboot.h in memory. The
--     proofs are in Pfa/Frames (one bit), Pfa/Runs (marking loops), Pfa/Search (the two
--     searches), Pfa/Counts (the counters), Pfa/Roundtrip, Pfa/MemoryMap and Pfa/Boot.
--   Process: src/process.c with include/process.h, and the switch of src/context_switch.s. The
--     statics procs, current and next_pid and the registers that a switch changes are the record
--     Processes. A pointer to a PCB is its index, the null pointer none. Process/Choice,
--     Process/Schedule, Process/Fairness and Process/Queries hold the proofs.
--   Drivers: Io is the ports of include/io.h, with a list of what was written; Pic, Serial, Fb and
--     Keyboard are the files of src/drivers/ and Pit is src/pit.c. Fb/Screen specifies the text
--     screen and Keyboard/Line the editing of a line; Serial/Sent has the polling loop.
--   Tables: Gdt, Idt and Tss are the tables of src/gdt.c, src/idt.c and src/tss.c.
--   Fs: src/fs.c with include/fs.h, over the image in memory; Fs/Find is the lookup, Fs/Listing with
--     Fs/Text the listing, Fs/Mount an image that is refused.
--   Paging: src/paging4k.c with include/paging4k.h. Vm is memory with the frame allocator;
--     Paging/Kernel has the processor's address translation, Paging/Fill the loops over tables,
--     Paging/Tree directories whose tables are apart, Paging/Install and Paging/Marked the writes
--     to a directory, Paging/Space address spaces in used frames, Paging/Tabled and Paging/Map the
--     branches of paging_map_4k.
--   Spawn: process_create of src/process.c, over the file system, the allocator, the page tables
--     and the table of processes (the record Machine). Each function is the rest of process_create
--     from one of its steps on. Spawn/Changed and Spawn/Taken have what a new frame leaves of an
--     address space, Spawn/Loading and Spawn/Page the loop over the pages of the program,
--     Spawn/Stacked the user's stack, Spawn/Stack the fake kernel stack, Spawn/Entered the PCB,
--     Spawn/Slot the slot, Spawn/Made what a new process consists of, Spawn/Created and
--     Spawn/Follows the whole; Spawn/Sample is a machine for the tests.
--   Interrupt: interrupt_handler of src/idt.c; Interrupt/Served is a sequence of interrupts, with
--     Interrupt/Reads.
--   Calls: syscall_dispatch of src/syscall.c. A call runs to its return or to a point where it may
--     wait, and goes on from there when its process is current again: Calls/Steps has a step of the
--     current process or an interrupt. Calls/Sound, Calls/Made and Calls/Runs have what every run
--     keeps, Calls/Others and Calls/Waits have SYS_WAIT, Calls/Exits SYS_EXIT, Calls/Starts SYS_SPAWN,
--     and Calls/Procs SYS_GETPROCS, with the stores to a buffer in Calls/Stored; Calls/Sample has
--     systems for the tests, and Spawn/Filled what SYS_SPAWN does to the table.
--   Kheap: src/kheap.c. The record Kheap is memory, the allocator of frames and the static freep;
--     init, malloc and free are kheap_init, kmalloc and kfree. Kheap/Ring and Kheap/Place are the ring
--     of free blocks and the search of kfree, Kheap/Headers and Kheap/Joined the writes to the
--     headers, Kheap/Merged the merge with the two neighbours, Kheap/Site and Kheap/Freed kfree,
--     Kheap/Empty kheap_init, Kheap/Fits and Kheap/Search the search of kmalloc, and Kheap/Taken (with
--     Kheap/Outside) and Kheap/Allocated kmalloc.
--   Boot: src/kmain.c over all the parts; Boot/Checks is the way to the shell and Boot/Shell its
--     start.
--   User: src/programs/ulib.h; User/Same is streq and ustrlen, User/Digits and
--     User/Decimal are itoa.
--   Programs: src/programs/. A program is the tree of its system calls (the type Program), where the
--     wrappers of programs/syscall.h are the registers at `int $0x80`. Shell, Top and Demo are
--     shell.c, top.c, and hello.c with program.c. Programs/Wrapped is the agreement of the wrappers
--     with the kernel, Programs/Printed what a program prints, Shell/Trim and Shell/Reacts the
--     shell's way with a line, Shell/Starts the shell with the kernel, Top/Rows the table of top,
--     Demo/Said the two greetings.
-- Each module Tests evaluates the definitions of its folder on concrete inputs.
--
-- Loops, bounds and fuel. A for loop is recursion on the rounds that are left, so it has no fuel.
-- Some loops have no bound in the source. strlen and strcmp, and ustrlen and streq of the programs,
-- go at most once round the address space (2^32 bytes), which every string that ends in it needs
-- less than. The walk of the memory map in pfa_init takes at most 2^32 entries; each entry is at
-- least 4 bytes long, so that no chain of entries needs more. serial_write_char polls a device: its
-- fuel is the number of polls after which the port is ready, which is a hypothesis on the device.
-- The loops of kheap.c go at most 2^32 rounds: each passes a block of the ring, and a block is at
-- least 8 bytes of memory long, or adds one to it.
-- The loop of itoa over the digits of an int has at most 10 rounds. The loops of main in shell.c and
-- top.c have no end: their number of rounds is an argument.
--
-- Parameters. What a device answers to a read is any function of the port and of the number of reads
-- before (Io.device). The addresses of the interrupt stubs, of the TSS, of the boot stack, of
-- process_start_trampoline in src/context_switch.s, of the static `base` of kheap.c, of the string
-- "shell" and of the strings and buffers of the programs are the linker's and the compiler's, and so
-- is what a program's registers hold where a wrapper does not set them.
--
-- The kernel's own addresses are physical ones: that a page directory maps the program over some of
-- them is seen in Spawn, and left out elsewhere. In Calls, memory is physical too, and a call reads
-- it as the page directory of its process shows it; what it stores in a buffer goes through that
-- directory, byte by byte, to whatever is there. Two things are simpler than in the code. A call
-- stores behind its reads, so that fs_list reads the image as it is when the call starts. And of
-- what process_create stores for SYS_SPAWN, the bytes count that the caller's directory shows at
-- their own addresses. What a program stores between its calls is no step of Calls. The PCBs, the
-- line of input, the screen and the tables stand apart from memory.
--
-- Not modelled: in Boot the call of kheap_init, whose list no other part uses; the processor's
-- instructions that load the tables; the pushes and pops of switch_context around the switch of the
-- stack pointer (the register esp in Process is the one behind the pushes); interrupts that arrive
-- inside a function of the kernel, which runs with interrupts off but where it halts and, for the
-- keyboard, in kmain.
pub mod Base
pub mod Memory
pub mod Pfa
pub mod Process
pub mod Kheap
pub mod Programs
pub mod Drivers
pub mod Fs
pub mod Paging
pub mod Spawn
pub mod Interrupt
pub mod User
pub mod Calls
pub mod Boot
pub mod Tables
