-- ===== src/Kernel/State.antt =====
-- The state of grass/kernel.c, and the types of grass/process.h, library/syscall/syscall.h and servers.h.
-- An int is its 32-bit pattern, so GPID_ALL (-1) is 2 ^ 32 - 1. `schd_attr` is left out: the source
-- reserves it for student code and neither reads nor writes it.
use egos_upstream.Base.{
  ℕ, ◌-◌, ◌^◌, ◌≡◌, Bool, true, false, List, ◌∷◌, ◌&&◌, leb, ltb, if◌then◌else◌, update,
}

abbrev pub max_nprocess : ℕ
max_nprocess = 16

abbrev pub ncores : ℕ
ncores = 4

abbrev pub gpid_all : ℕ
gpid_all = 2 ^ 32 - 1

abbrev pub gpid_user_start : ℕ
gpid_user_start = 5

-- pid >= GPID_USER_START, as ints
abbrev pub is_user : ℕ → Bool
is_user pid = leb gpid_user_start pid && ltb pid (2 ^ 31)

pub data ProcStatus : Type 0 where
  unused loading ready running runnable pending_syscall sleeping : ProcStatus

-- `==` on the enumeration, at the constants that the kernel compares with.
abbrev pub is_unused : ProcStatus → Bool
is_unused unused = true
is_unused _ = false

abbrev pub is_ready : ProcStatus → Bool
is_ready ready = true
is_ready _ = false

abbrev pub is_running : ProcStatus → Bool
is_running running = true
is_running _ = false

abbrev pub is_runnable : ProcStatus → Bool
is_runnable runnable = true
is_runnable _ = false

abbrev pub is_pending : ProcStatus → Bool
is_pending pending_syscall = true
is_pending _ = false

-- enum syscall_type, and the status of a system call. A process writes these fields itself, so they
-- may hold any number.
abbrev pub sys_recv : ℕ
sys_recv = 1

abbrev pub sys_send : ℕ
sys_send = 2

abbrev pub pending : ℕ
pending = 1

abbrev pub done : ℕ
done = 2

abbrev pub syscall_msg_len : ℕ
syscall_msg_len = 1024

-- `memcpy` of `size` bytes into `dst`.
abbrev pub memcpy : (ℕ → ℕ) → (ℕ → ℕ) → ℕ → ℕ → ℕ
memcpy dst src size i = if ltb i size then src i else dst i

-- `content` is an array of SYSCALL_MSG_LEN bytes, with `status` behind it. It is read and written below
-- that index only; what the function says from there on stands for nothing.
pub record Syscall : Type 0 where
  pub type : ℕ
  pub sender : ℕ
  pub receiver : ℕ
  pub content : ℕ → ℕ
  pub status : ℕ

pub record Process : Type 0 where
  pub pid : ℕ
  pub syscall : Syscall
  pub status : ProcStatus
  pub mepc : ℕ
  pub saved_registers : ℕ → ℕ

abbrev pub Procs : Type 0
Procs = ℕ → Process

-- The calls of the earth layer that the kernel makes, latest first.
pub data EarthCall : Type 0 where
  mmu_free : ℕ → EarthCall
  mmu_translate : ℕ → EarthCall
  mmu_switch : ℕ → EarthCall
  mmu_flush_cache : EarthCall
  timer_reset : ℕ → EarthCall

-- `user pid` is the struct syscall at SYSCALL_ARG in the address space of `pid`, which the kernel
-- reads and writes after `mmu_translate`. `tty` holds the characters that wait at the terminal, and
-- `msip` the software interrupt register of each core.
pub record Kernel : Type 0 where
  pub core_in_kernel : ℕ
  pub core_to_proc_idx : ℕ → ℕ
  pub proc_set : Procs
  pub user : ℕ → Syscall
  pub calls : List EarthCall
  pub tty : List ℕ
  pub msip : ℕ → ℕ

abbrev pub curr_proc_idx : Kernel → ℕ
curr_proc_idx k = k.core_to_proc_idx k.core_in_kernel

abbrev pub curr : Kernel → Process
curr k = k.proc_set (curr_proc_idx k)

abbrev pub curr_pid : Kernel → ℕ
curr_pid k = (curr k).pid

abbrev pub curr_status : Kernel → ProcStatus
curr_status k = (curr k).status

-- A call of the earth layer, recorded.
abbrev pub call : EarthCall → Kernel → Kernel
call c k = record k { calls = c ∷ k.calls }

-- proc_set[i] after a change of that entry
abbrev pub put : ℕ → Process → Kernel → Kernel
put i p k = record k { proc_set = update k.proc_set i p }

-- Every process has the program counter and registers that it had.
abbrev pub SameContexts : Procs → Procs → Type 0
SameContexts before after =
    (i : ℕ)
    → ((after i).mepc ≡ (before i).mepc) × ((after i).saved_registers ≡ (before i).saved_registers)
