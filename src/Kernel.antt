-- ===== src/Kernel.antt =====
-- The grass kernel: processes, scheduling, system calls and traps (grass/*.c).
pub mod State
pub mod Process
pub mod Ipc
pub mod Scheduler
pub mod Entry
pub mod Lifecycle
pub mod Tests
