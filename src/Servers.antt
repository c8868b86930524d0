-- ===== src/Servers.antt =====
-- The servers that programs ask for files and processes (apps/system/sys_file.c, apps/system/sys_proc.c),
-- and what programs do with them (library/syscall/servers.c, apps/system/sys_shell.c, apps/user/cd.c).
pub mod Files
pub mod Directory
pub mod Processes
pub mod Shell
pub mod WorkingDir
pub mod Startup
pub mod Programs
mod Tests
