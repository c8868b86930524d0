-- ===== src/Kernel/Process.antt =====
-- Process management (grass/process.c), and the state-transition callbacks of grass/scheduler.c.
-- The callbacks do nothing but print unless MLFQ is defined, which the Makefile does not do. `none` is
-- `FATAL`, which never returns.
pub mod Table
use egos_upstream.Base.{
  ◌>>=◌, ℕ, not, ◌&&◌, Option, none, some, ltb, leb, ◌==◌, if◌then◌else◌, update, for_range,
  find_from,
}
use egos_upstream.Kernel.State.{
  max_nprocess, gpid_all, is_user, ProcStatus, unused, loading, ready, running, runnable,
  pending_syscall, is_unused, Procs, mmu_free, Kernel, call, put,
}

-- The body of the loop of `proc_set_status`.
unfoldable pub set_status_body : ℕ → ProcStatus → ℕ → Procs → Procs
set_status_body pid status i procs =
    if (procs i).pid == pid then update procs i (record (procs i) { status = status }) else procs

unfoldable pub proc_set_status : ℕ → ProcStatus → Kernel → Kernel
proc_set_status pid status k = record k {
  proc_set = for_range max_nprocess 0 (set_status_body pid status) k.proc_set;
}

unfoldable pub proc_set_ready : ℕ → Kernel → Kernel
proc_set_ready pid k = proc_set_status pid ready k

unfoldable pub proc_set_running : ℕ → Kernel → Kernel
proc_set_running pid k = proc_set_status pid running k

unfoldable pub proc_set_runnable : ℕ → Kernel → Kernel
proc_set_runnable pid k = proc_set_status pid runnable k

unfoldable pub proc_set_pending : ℕ → Kernel → Kernel
proc_set_pending pid k = proc_set_status pid pending_syscall k

-- `ASSERT` stops the kernel when it fails.
unfoldable pub pid2idx : ℕ → Option ℕ
pid2idx pid = if ltb 0 pid && leb pid max_nprocess then some pid else none

unfoldable pub idx2pid : ℕ → Option ℕ
idx2pid proc_idx = if ltb 0 proc_idx && leb proc_idx max_nprocess then some proc_idx else none

abbrev pub proc_on_arrive : ℕ → Kernel → Kernel
proc_on_arrive pid k = k

abbrev pub proc_on_sched_in : ℕ → Kernel → Kernel
proc_on_sched_in pid k = k

abbrev pub proc_on_sched_out : ℕ → Kernel → Kernel
proc_on_sched_out pid k = k

abbrev pub proc_on_sleep : ℕ → ℕ → Kernel → Kernel
proc_on_sleep pid time_units k = k

abbrev pub proc_on_stop : ℕ → Kernel → Kernel
proc_on_stop pid k = k

-- The body of the loop of `proc_alloc`, at the first unused entry. The pid returned is read back.
unfoldable pub proc_alloc_at : ℕ → Kernel → ℕ × Kernel
proc_alloc_at i k =
    let k' = put i (record (k.proc_set i) { pid = i; status = loading }) k in
    let k'' = proc_on_arrive (k'.proc_set i).pid k' in ((k''.proc_set i).pid, k'')

unfoldable pub proc_alloc : Kernel → Option (ℕ × Kernel)
unfolding proc_alloc_at
proc_alloc k = do
  i ← find_from max_nprocess 1 (λ i. is_unused (k.proc_set i).status)
  some (proc_alloc_at i k)

-- The body of the loop of `proc_free` over every user process.
unfoldable pub free_all_body : ℕ → Kernel → Kernel
free_all_body i k =
    let p = k.proc_set i in
    if is_user p.pid && not (is_unused p.status)
    then proc_on_stop p.pid (put i (record p { status = unused }) (call (mmu_free p.pid) k))
    else k

unfoldable pub proc_free : ℕ → Kernel → Kernel
unfolding proc_set_status free_all_body
proc_free pid k =
    if not (pid == gpid_all)
    then proc_on_stop pid (proc_set_status pid unused (call (mmu_free pid) k))
    else for_range max_nprocess 0 free_all_body k

-- The rest of `proc_sleep` is left to students.
unfoldable pub proc_sleep : ℕ → ℕ → Kernel → Kernel
proc_sleep pid usec k = proc_on_sleep pid usec k
