-- ===== src/Lib.antt =====
-- A model of egos-2k+, a small teaching operating system for RISC-V, and what is proved of it.
--
-- The system has three layers. The earth layer (earth/) manages memory, the timer and the devices.
-- The grass layer (grass/) is the kernel: it handles traps, schedules processes and passes messages
-- between them, and calls the earth layer through `struct earth`. Above it run servers
-- (apps/system/) and user programs, which ask one another for work by messages: the shell asks the
-- process server for a new process, and programs ask the file server for blocks of files. The file
-- server works on an inode store (library/file/), which is treedisk or mydisk over a disk; the same
-- code makes the disk image in tools/mkfs.c.
--
-- The parts, and the code that each file models:
--   Base and below it: shared names, Boolean tests of numbers, point updates, and two kinds of
--     loops.
--   Mem.Bitmap, Mem.Frames: the page allocator (earth/mem_alloc.c, and mmu_alloc of
--     earth/cpu_mmu.c). `Mmu` is the bitmap, the page table, the current process and memory, an
--     array of pages of bytes.
--   Mem.SoftTlb: the software TLB (earth/mem_soft_tlb.c). Mem.Ownership: runs of both, as a step
--     relation.
--   Earth.Timer: the timer (earth/cpu_timer.c), as accesses to the halves of its registers.
--     Earth.InitTimer: the timer example of grass/init.c. Earth.Devices: the drivers of the disk
--     and of the terminal (earth/dev_disk.c, earth/dev_tty.c).
--   Kernel.State: the kernel's variables (grass/kernel.c, grass/process.h,
--     library/syscall/syscall.h) as the record `Kernel`, with the system call pages of the
--     processes, the terminal's input, and the calls made of the earth layer.
--   Kernel.Process: the process table (grass/process.c). Kernel.Ipc: messages (grass/ipc.c).
--   Kernel.Scheduler: grass/scheduler.c. Kernel.Entry: the trap handlers (grass/kernel.c).
--   Kernel.Ipc.Stuck, Kernel.Scheduler.Standing: which system calls cannot go further, and where
--     the others stand while the scheduler settles them.
--   Kernel.Lifecycle: what the allocation and release of processes come to.
--   Fs.Store: inode stores (library/file/inode.h) as a record of operations over any state, and the
--     effects of a client: a result, -1, or a panic. `Reliable` is what a client relies on of a
--     store that has no errors, and `Readable` of one that can be read. Fs.Disks: the stores of
--     apps/system/sys_file.c, tools/mkfs.c and library/file/file0.c, of which the ramdisk is shown
--     reliable, and the ROM disk readable. The ramdisk does not check its offsets, so its state is
--     memory from its array on. Fs.Mkfs: how tools/mkfs.c writes a program into the file system;
--     Fs.Mkfs.Image, Fs.Mkfs.Made: how it fills the file system, and with what.
--   Fs.Layout, Fs.Freelist, Fs.Read, Fs.Write, Fs.Create, Fs.Init: treedisk (library/file/file1.h
--     and library/file/file1.c), one function per function of the source.
--   Fs.Tree, Fs.System: the trees of blocks that hold files, and `IsFs`, which says what makes a
--     disk a well-formed file system. `file_write` says what a write is to do to the files.
--   User.Shell, User.Shell.Batch: command lines and batches of commands (apps/system/sys_shell.c).
--   User.Elf: the loader of executables (library/elf/elf.c), over Mem.
--   User.Print: formatted printing (library/libc/print.c); User.Print.Shown: what it is to print.
--     User.Heap: _sbrk (library/libc/malloc.c).
--   User.Syscalls: system calls on the side of a program (library/syscall/syscall.c).
--   User.Terminal: the line editor of the terminal (library/syscall/servers.c, when compiled for
--     the kernel) and the requests of apps/system/sys_terminal.c. User.Terminal.Client: the same
--     functions as programs have them.
--   Servers.Files, Servers.Directory: requests to the file server (apps/system/sys_file.c), and how
--     programs read files and find names in directories (library/syscall/servers.c).
--     Servers.Directory.Entries: the entries of a directory, as tools/mkfs.c prints them.
--   Servers.Processes: the process server (apps/system/sys_proc.c), over Kernel, Mem and User.Elf.
--   Servers.Shell: the requests of the shell's loop (apps/system/sys_shell.c) to that server.
--   Servers.Startup: how that server starts the others. Servers.Programs: apps/user/ls.c, cat.c and
--     echo.c.
--   Servers.WorkingDir: the working directory that programs share (apps/app.h), and apps/user/cd.c.
-- Each part has its laws in modules below it, and concrete runs in Tests.
--
-- A 32-bit number is a natural number with its wrap-around written out; an int is its 32-bit
-- pattern, so -1 is 2 ^ 32 - 1. `FATAL`, which never returns, is none, `fatal` or `panicked`.
--
-- Loops with a bound are `for_range` and `find_from`, and need no fuel. The others have fuel:
-- `clear_pending_syscalls` gets one round more than there are entries, and each round but the last
-- makes a pending process runnable; `mtime_get` needs two rounds, since the high half changes once
-- at most in the time of six accesses; `setup_freelist` gets a round for each block, and each takes
-- a block; `levels_of` has six tests, since five levels of seven bits cover 32 bits; the shell's
-- loop over a batch gets one round more than the line has commands.
-- A write asks for 11 free blocks, as many as it can take: a tree grows by five levels at most, and
-- the walk down to the block allocates six at most.
--
-- Not modelled: assembly (earth/boot.s, grass/kernel.s, apps/app.S); device registers other than
-- the timer's and the UART's (earth/boot.c, earth/cpu_intr.c); code that students are to write
-- (grass/mlfq.c, earth/mem_vm.c, apps/user/ult.c, the scheduling attributes and metrics, locks);
-- the messages at the start of the servers, and the other user programs; the host file I/O of
-- tools/mkfs.c, which `Host` stands for. Messages between servers and their clients are the
-- arguments and results of the servers' turns. Printing has no effect in the models of the kernel
-- and the servers. The kernel is modelled as run by one core at a time, as its lock is meant to
-- ensure.
pub mod Base
pub mod Mem
pub mod Earth
pub mod Kernel
pub mod Fs
pub mod User
pub mod Servers
