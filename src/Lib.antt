-- ===== src/Lib.antt =====
-- The Cat-OS microkernel: a model of the C code under boot/, kernel/, hal/, drivers/ and
-- userspace/, with proofs.
--
-- The program keeps its state in the static variables of a few C files. Each file here models one
-- of them: its state as a record, each function as a function on that record, and its pointers
-- as numbers, with NULL as 0. Words are 32 bits and wrap around (u32, sub32 of Common.Words).
--
--   Common      Boolean tests, words, C arrays as functions, loops, searches, counts and bits
--   Memory      kernel/memory.c: page_bitmap, memory_alloc_pages (alloc_pages),
--               memory_free_pages (free_pages); Memory/Paging: memory_init, memory_map_page
--               (map_page) and the page directories, over `ram`, the physical memory as words
--   Types       include/types.h and include/kernel.h: status_t, process_state_t, pcb_t
--   Scheduler   kernel/scheduler.c: the ready queue, a doubly linked list through the pcbs. The
--               pcb of slot i of the process table is at pointer i + 1
--   Kernel      the whole state: all static variables under kernel/, and the objects that live in
--               pages of their own, at their addresses
--   Process     kernel/process.c: creation, pids, lookup, exit, kill; Process/Stack:
--               process_setup_stack (setup_stack)
--   Capability  kernel/capability.c: the table of capabilities
--   Ipc         kernel/ipc.c: message queues, sending and receiving
--   Syscall     kernel/syscall.c: the table of handlers, the dispatch, and every handler
--   Ports       hal/io.c: the bitmap of permitted I/O ports
--   Hal         hal/pic.c (Hal/Pic), hal/timer.c (Hal/Timer), hal/gdt.c (Hal/Gdt), over devices that
--               are a parameter: what a read from a port gives and what a write to it does;
--               Hal/Safe: the accesses of hal/io.c that ask for permission; Hal/Wait: the busy
--               waits of hal/timer.c; Hal/Cpu: hal/cpu.c, over the registers of the processor
--   Interrupts  kernel/interrupt.c: the descriptor table, over the addresses of the assembly
--               handlers (Handlers), and interrupt_handler_common
--   Drivers     drivers/driver_manager.c; Drivers/Keyboard: drivers/keyboard.c with its ring;
--               Drivers/Console: drivers/console.c, the text screen and its cursor;
--               Drivers/Timer: drivers/timer.c, the delay requests
--   Startup     kernel/main.c: start_service, start_system_services, kernel_main; Startup/Denied:
--               what only process 0 may do, in the states that the start leads to
--   Userspace   userspace/userspace.c: the string functions, over the bytes of a memory;
--               Userspace/Print: print, print_hex; Userspace/Calls: include/userspace.h and
--               sleep, over system calls that are a parameter (Userspace/Calls/Kernel: the
--               kernel's); Userspace/Monitor: userspace/monitor.c and userspace/init.c
--   Shell       userspace/shell.c: the line editor, parse_command, execute_command;
--               Shell/Commands: the handlers; Shell/Loop: read_command and main
--   Boot        boot/stage2_c.c, the second stage that is built (Boot/Copy, Boot/Loader), and
--               boot/stage2.c (Boot/Stage2, Boot/Disk); Boot/Simple: kernel/simple_kernel.c
--
-- How the parts interact: a process takes its stacks and its directory from Memory and is run by
-- Scheduler; capabilities, messages and queues take a page each from
-- Memory and ask Scheduler for the current process; Ipc blocks and wakes processes.
-- Syscall calls all of them for a user process. Interrupts calls the tick of Scheduler and ends
-- a process that faults. The drivers and the shell are programs of their own: what they send and
-- receive are values of AbiMessage, and a text that a program prints reaches the console driver
-- through Ipc (Userspace/Calls/Text). Boot leaves the kernel and the programs where Startup
-- expects them.
--
-- Bounds and fuel. Loops with a fixed bound (64 processes, 1024 capabilities, 4096 pages) are
-- recursion on that bound. The loops that follow links have fuel: the walk of
-- scheduler_find_process has 66, since a queue without repetition over 64 pcbs ends within 65
-- rounds, and those of ipc_find_in_queue and ipc_clear_queue have 101, since a queue holds at most
-- 100 messages. A walk that runs out of fuel finds nothing. The loops over ports
-- take their fuel as an argument, since one of them can fail to end.
--
-- A context switch (context_switch_asm) is assembly, so an operation that switches returns a
-- value of Flow that names both processes: the calling code goes on only when the first is
-- switched back to, and never if it is NULL.
--
-- The string loops of Userspace and Shell take their fuel as an argument; one more than the length
-- of the string is enough.
--
-- A wait for ticks is over what the successive readings of the counter give. The main loops of the
-- shell and the monitor take a number of rounds, and a loop that has not ended gives no result.
--
-- Not modelled: output on the serial line by the kernel and the drivers, which changes no state;
-- the assembly under boot/ and kernel/; the C variants of the second stage that no build uses, which
-- repeat the functions of stage2.c; the receive loops of the drivers; and tests/.
pub mod Common
pub mod Memory
pub mod Types
pub mod Scheduler
pub mod Kernel
pub mod Process
pub mod Capability
pub mod Ipc
pub mod Syscall
pub mod Ports
pub mod Userspace
pub mod Shell
pub mod Drivers
pub mod Hal
pub mod Interrupts
pub mod Startup
pub mod Boot
