-- ===== src/Kernel/Scheduler.antt =====
-- Round-robin scheduling and the switch to the next process (grass/scheduler.c), as the Makefile
-- builds it, without MLFQ.
pub mod RoundRobin
pub mod Clear
pub mod Standing
pub mod Quiet
pub mod Yield
pub mod Settles
use egos_upstream.Base.{
  ◌>>=◌, ℕ, zero, suc, ◌+◌, ◌%◌, ◌^◌, Bool, ◌||◌, Option, none, some, ltb, ◌==◌, if◌then◌else◌,
  update, for_range, find_from,
}
use egos_upstream.Kernel.State.{
  max_nprocess, ProcStatus, is_ready, is_running, is_runnable, is_pending, done, Process,
  mmu_switch, mmu_flush_cache, timer_reset, Kernel, curr_proc_idx, curr, curr_pid, curr_status,
  call, put,
}
use egos_upstream.Kernel.Process.{
  proc_set_runnable, proc_set_running, proc_on_sched_in, proc_on_sched_out,
}
use egos_upstream.Kernel.Ipc.{proc_try_syscall}

abbrev pub apps_arg : ℕ
apps_arg = 0x80300000

abbrev pub apps_entry : ℕ
apps_entry = 0x80200000

-- The i-th entry after the current one, round the table.
abbrev pub rotated : Kernel → ℕ → ℕ
rotated k i = (curr_proc_idx k + i) % 2 ^ 32 % max_nprocess

abbrev pub may_run : ProcStatus → Bool
may_run status = is_ready status || is_runnable status

unfoldable pub round_robin : Kernel → ℕ
round_robin k = elim (find_from max_nprocess 1 (λ i. may_run (k.proc_set (rotated k i)).status)) [
  | none ↦ max_nprocess
  | some i ↦ rotated k i
]

unfoldable pub schedule : Kernel → ℕ
unfolding round_robin
schedule k = round_robin k

-- The body of the loop of `clear_pending_syscalls`, with its count of progress. `none` is `FATAL`.
unfoldable pub clear_body : ℕ → Option (ℕ × Kernel) → Option (ℕ × Kernel)
unfolding proc_try_syscall
clear_body i o = do
  (progress, k) ← o
  let p = rotated k i
  let tried = do
    k' ← proc_try_syscall p k
    some ((if (k'.proc_set p).syscall.status == done then progress + 1 else progress), k')
  if is_pending (k.proc_set p).status then tried else some (progress, k)

-- One pass over the table.
unfoldable pub clear_pass : Kernel → Option (ℕ × Kernel)
unfolding clear_body
clear_pass k = for_range max_nprocess 1 clear_body (some (0, k))

-- What the rounds of a loop come to: an end, `FATAL`, or no fuel left.
pub data Outcome (A : Type 0) : Type 0 where
  ended : A → Outcome A
  fatal : Outcome A
  out_of_fuel : Outcome A

unfoldable pub clear_pending_syscalls : ℕ → Kernel → Outcome Kernel
unfolding clear_pass
clear_pending_syscalls zero k = out_of_fuel
clear_pending_syscalls (suc fuel) k = elim (clear_pass k) [
  | none ↦ fatal
  | some (progress, k') ↦
      let again = clear_pending_syscalls fuel k' in if progress == 0 then ended k' else again
]

-- A newly created process starts at APPS_ENTRY with its arguments in a0 and a1.
abbrev pub start : Process → Process
start p = record p {
  saved_registers = update (update p.saved_registers 0 apps_arg) 1 (apps_arg + 4);
  mepc = apps_entry;
}

-- `proc_yield` from the choice of the next process to the setup of a new one.
unfoldable pub bring_in : ℕ → Kernel → Kernel
bring_in next_idx k =
    let k1 = record k { core_to_proc_idx = update k.core_to_proc_idx k.core_in_kernel next_idx } in
    let k2 = call mmu_flush_cache (call (mmu_switch (curr_pid k1)) k1) in
    if is_ready (curr_status k2) then put (curr_proc_idx k2) (start (curr k2)) k2 else k2

-- The rest of `proc_yield`.
unfoldable pub switch_to : ℕ → Kernel → Kernel
unfolding bring_in proc_set_running
switch_to next_idx k =
    let k' = bring_in next_idx k in
    let k'' = call (timer_reset k'.core_in_kernel) (proc_set_running (curr_pid k') k') in
    proc_on_sched_in (curr_pid k'') k''

-- `proc_yield` up to the system calls.
unfoldable pub set_aside : Kernel → Kernel
unfolding proc_set_runnable
set_aside k =
    let k' = if is_running (curr_status k) then proc_set_runnable (curr_pid k) k else k in
    proc_on_sched_out (curr_pid k') k'

-- `proc_yield` after the system calls.
unfoldable pub run_next : Outcome Kernel → Outcome Kernel
unfolding schedule switch_to
run_next (ended k) =
    let next_idx = schedule k in
    if ltb next_idx max_nprocess then ended (switch_to next_idx k) else fatal
run_next fatal = fatal
run_next out_of_fuel = out_of_fuel

-- Seventeen rounds are enough for the sixteen entries.
unfoldable pub proc_yield : Kernel → Outcome Kernel
unfolding set_aside clear_pending_syscalls run_next
proc_yield k = run_next (clear_pending_syscalls (max_nprocess + 1) (set_aside k))
