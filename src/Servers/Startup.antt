-- ===== src/Servers/Startup.antt =====
-- The start of the servers: sys_spawn and the beginning of main of apps/system/sys_proc.c. The messages in
-- which the servers report that they are ready are left out.
use egos_upstream.Base.{ℕ, ◌+◌, ◌*◌, ◌/◌, ◌%◌, ◌^◌, Option, none, some, ◌>>=◌}
use egos_upstream.Mem.Frames.{Contents}
use egos_upstream.User.Elf.{elf_load}
use egos_upstream.Kernel.Process.{proc_alloc, proc_set_ready}
use egos_upstream.Servers.Processes.{Server}

-- EGOS_BIN_MAX_NBYTE / BLOCK_SIZE
abbrev pub exec_blocks : ℕ
exec_blocks = 128 * 1024 / 512

abbrev pub sys_term_exec_start : ℕ
sys_term_exec_start = exec_blocks * 2

abbrev pub sys_file_exec_start : ℕ
sys_file_exec_start = exec_blocks * 3

abbrev pub sys_shell_exec_start : ℕ
sys_shell_exec_start = exec_blocks * 4

module _ (disk : ℕ → Contents) where
  -- The blocks of a server's program.
  abbrev pub sys_proc_read : ℕ → ℕ → Contents
  sys_proc_read sys_apps_base block_no = disk ((sys_apps_base + block_no) % 2 ^ 32)

  unfoldable pub sys_spawn : ℕ → Server → Option Server
  sys_spawn base s = do
    (pid, kernel) ← proc_alloc s.kernel
    mmu ← elf_load pid (sys_proc_read base) 0 none s.mmu
    some (record s { kernel = proc_set_ready pid kernel; mmu = mmu })

  unfoldable pub start_servers : Server → Option Server
  unfolding sys_spawn
  start_servers s = do
    s1 ← sys_spawn sys_term_exec_start s
    s2 ← sys_spawn sys_file_exec_start s1
    sys_spawn sys_shell_exec_start s2
