-- ===== src/User.antt =====
-- The user side: the shell (apps/system/sys_shell.c), formatted printing (library/libc/print.c), the loader
-- of executables (library/elf/elf.c), and the terminal (library/syscall/servers.c, apps/system/sys_terminal.c).
pub mod Syscalls
pub mod Heap
pub mod Shell
pub mod Print
pub mod Terminal
pub mod Elf
mod Tests
