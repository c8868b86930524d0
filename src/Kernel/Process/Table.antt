-- ===== src/Kernel/Process/Table.antt =====
-- What `proc_set_status` does to the process table.
use egos_upstream.Base.{ℕ, ◌+◌, ◌≡◌, refl, ◌&&◌, arith, ltb, ◌==◌, if◌then◌else◌, for_range_inv}
use egos_upstream.Kernel.State.{max_nprocess, ProcStatus, Procs, Kernel}
use egos_upstream.Kernel.Process.{set_status_body, proc_set_status}

-- The entries below `n` with this pid have the status; every other entry is as it was.
abbrev pub Sets : ℕ → ProcStatus → Procs → ℕ → Procs → Type 0
Sets pid status before n after =
    (i : ℕ)
    → after i ≡ (
        if ltb i n && ((before i).pid == pid)
        then record (before i) { status = status }
        else before i)

set_status_body-Sets :
    (pid : ℕ) (status : ProcStatus) (before : Procs) (n : ℕ) (after : Procs)
    → Sets pid status before n after
    → Sets pid status before (n + 1) (set_status_body pid status n after)
unfolding set_status_body
set_status_body-Sets pid status before n after h i = ground (arith, h i, h n)

-- `proc_set_status` gives the status to exactly the entries below MAX_NPROCESS with the pid.
pub proc_set_status_lem :
    (pid : ℕ) (status : ProcStatus) (k : Kernel)
    → Sets pid status k.proc_set max_nprocess (proc_set_status pid status k).proc_set
unfolding proc_set_status
proc_set_status_lem pid status k =
    for_range_inv (Sets pid status k.proc_set) (set_status_body pid status) max_nprocess 0
      max_nprocess (λ n after lo hi h. set_status_body-Sets pid status k.proc_set n after h)
      k.proc_set refl (λ i. ground arith)

-- A status change leaves pids, system calls and the rest of the kernel alone.
pub proc_set_status-pid :
    (pid : ℕ) (status : ProcStatus) (k : Kernel) (i : ℕ)
    → ((proc_set_status pid status k).proc_set i).pid ≡ (k.proc_set i).pid
proc_set_status-pid pid status k i = ground (arith, proc_set_status_lem pid status k i)

pub proc_set_status-syscall :
    (pid : ℕ) (status : ProcStatus) (k : Kernel) (i : ℕ)
    → ((proc_set_status pid status k).proc_set i).syscall ≡ (k.proc_set i).syscall
proc_set_status-syscall pid status k i = ground (arith, proc_set_status_lem pid status k i)

pub proc_set_status-status :
    (pid : ℕ) (status : ProcStatus) (k : Kernel) (i : ℕ)
    → ((proc_set_status pid status k).proc_set i).status ≡ (
        if ltb i max_nprocess && ((k.proc_set i).pid == pid) then status else (k.proc_set i).status)
proc_set_status-status pid status k i = ground (arith, proc_set_status_lem pid status k i)

pub core-proc_set_status :
    (pid : ℕ) (status : ProcStatus) (k : Kernel)
    → (proc_set_status pid status k).core_in_kernel ≡ k.core_in_kernel
unfolding proc_set_status
core-proc_set_status pid status k = refl

pub cores-proc_set_status :
    (pid : ℕ) (status : ProcStatus) (k : Kernel)
    → (proc_set_status pid status k).core_to_proc_idx ≡ k.core_to_proc_idx
unfolding proc_set_status
cores-proc_set_status pid status k = refl

pub user-proc_set_status :
    (pid : ℕ) (status : ProcStatus) (k : Kernel) → (proc_set_status pid status k).user ≡ k.user
unfolding proc_set_status
user-proc_set_status pid status k = refl
