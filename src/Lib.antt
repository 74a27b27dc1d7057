-- ===== src/Lib.antt =====
-- bozOS, a small kernel for x86 with three terminals, in C: student-distrib/, and the programs that run
-- on it: syscalls/. The development models the kernel's own code, from the string functions to the
-- system calls, as functions on its state, and the programs as functions on the system calls.
--
-- Parts, and the files that model them:
--
--   Prelude      tests, the conditional, the fault monad, 32-bit words, byte arrays
--   Clib         student-distrib/lib.c: memset, memcpy and memmove as their inline assembly runs (Asm),
--                strlen, strncmp, strcpy, strncpy and strrev (Strings), with ece391_strcmp and
--                ece391_strncmp of syscalls/ece391support.c, itoa (Numbers), and the rest of that file's
--                string functions (Support)
--   Filesystem   student-distrib/filesystem.c on an image of bytes: the directory and read_data
--   State        the global variables, fd_t, pcb_t and term_t, as one record Kernel
--   Process      student-distrib/multi_term.c: get_PCB_base, get_PCB_tail, add_PCB and the usage table
--   Screen       student-distrib/lib.c: putc, puts, video_scroll, clear_screen and the cursor
--   Printf       student-distrib/lib.c: printf, with its arguments as a list
--   Terminals    student-distrib/multi_term.c: multi_term_init and switch_terminal (Switching)
--   Interrupts   student-distrib/i8259.c and RTC_handler.c
--   Keyboard     student-distrib/keyboard.c: the interrupt handler and its buffers
--   Files        student-distrib/syscalls.c: open, close, read, write and getargs (sys_open, sys_close,
--                sys_read, sys_write, getargs), terminal_read and terminal_write of terminal.c, fread
--   Paging       student-distrib/paging.c and vidmap of syscalls.c: the tables at the start (Initial),
--                and the screens of a program (View)
--   Scheduler    student-distrib/scheduling.c and halt of syscalls.c
--   Idt          student-distrib/IDT.c: set_IDT_wrapper and init_IDT (Gates)
--   Segments     student-distrib/x86_desc.h and kernel.c: the descriptors of the LDT and the TSS
--   Execute      student-distrib/syscalls.c: execute, step by step: the words of the command (Words), the
--                check of the file (Refusing), the process (Loading, Starting), its argument (Argument),
--                its end (Returning), and a table of processes that is full (Full)
--   Exceptions   student-distrib/IDT.c: the handlers of the exceptions (Ending)
--   Boot         student-distrib/kernel.c: the messages on the boot loader's information (Multiboot,
--                multiboot.h), the initialisations and the first shell, and entry as a whole (Entry)
--   Syscalls     student-distrib/IDT_asm.S: the jump table of the system calls
--   Programs     syscalls/: cat (Cat), ls, hello, testprint and counter (Small), grep (Grep), shell
--                (Shell), pingpong (Pingpong) and syserr (Syserr), and the kernel's calls as what they
--                run on (OnKernel)
--   Lifecycle    the terminals as stacks of process numbers, which execute, halt and the timer refine
--   Tests        concrete inputs
--
-- How they meet: entry fills the descriptor tables, prints what the boot loader passes, initialises the
-- devices and starts the shell. A program's call reaches a function through the jump table. A system
-- call finds the running process with get_PCB_tail on the active task's terminal, then a descriptor of
-- it, then the entry of its operation table, which is fread, dread, terminal_read, terminal_write,
-- rtc_read or rtc_write. These use the file system, the screen and the clock. The keyboard handler types
-- on the terminal that is shown, and hands a line to terminal_read. The timer's handler moves the
-- active task on. execute finds a program in the file system, adds a process to the terminal's list
-- with add_PCB, loads the file into the process's page and leaves for it; halt takes the process out of
-- the list and resumes the execute that started it. An exception prints a message and calls halt. The
-- programs are functions on a record of calls, which kernel_calls fills with the kernel's functions.
--
-- Conventions. An integer is a natural number; a 32-bit value is its bit pattern, with the remainder
-- by 2 ^ 32 written out where the code wraps. A pointer of a caller is an object and a position, 0 for
-- NULL; the video pages, and the user pages, are one object each by physical address. A store through a
-- pointer is a new function, and each operation returns the state after it. `none` is a fault: a string that does not
-- end in its object, a call through a NULL table. A wait for an interrupt is `blocked`. What a port is
-- read for, the contents of an uninitialised local and the stack registers are arguments.
--
-- Fuel. A loop with a bound in the code recurses on that bound. A loop to a terminator takes the size
-- of the object: strings of the caller take any number, of which the theorems ask that it exceeds the
-- length, and a list of processes takes six, the number of processes. The spaces of a command take 256,
-- the number of values of its index; the kernel's messages take 64, more than the longest. The memory
-- map of the boot loader takes one more than its length, since each entry passes over four bytes at
-- least unless an address wraps. A program that reads to the end of a file takes any number; for cat
-- one more than the bytes that it prints is enough. pingpong and the shell, which need not end, take
-- the number of rounds.
--
-- Not modelled: the assembly entry points, which save and restore registers; the control registers; the
-- kernel's printed tests, which RUN_TESTS leaves out; fish, whose frames are drawn by assembly;
-- sigtest, which needs signals, and the kernel has none; ece391emulate, which runs the calls on Linux.
pub mod Prelude
pub mod Clib
pub mod Filesystem
pub mod State
pub mod Syscalls
pub mod Process
pub mod Screen
pub mod Segments
pub mod Printf
pub mod Programs
pub mod Idt
pub mod Execute
pub mod Exceptions
pub mod Boot
pub mod Lifecycle
pub mod Interrupts
pub mod Files
pub mod Terminals
pub mod Keyboard
pub mod Paging
pub mod Scheduler
pub mod Tests
