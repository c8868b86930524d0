-- ===== src/Kernel/Scheduler/Settles.antt =====
-- From a standing in which every process is calm or meets the current one, `proc_yield` leaves the kernel
-- quiet.
use egos_upstream.Base.{ℕ, ◌+◌, ◌<◌, ◌≡◌, refl, inl, inr, true, arith, ltb_of_lt, Bool-cases}
use egos_upstream.Kernel.State.{
  max_nprocess, is_running, runnable, pending_syscall, Kernel, curr_proc_idx, curr_pid, curr_status,
}
use egos_upstream.Kernel.Process.{proc_set_runnable}
use egos_upstream.Kernel.Process.Table.{
  proc_set_status_lem, core-proc_set_status, cores-proc_set_status,
}
use egos_upstream.Kernel.Ipc.Stuck.{IsQuiet, Unseen, IsQuiet-Unseen}
use egos_upstream.Kernel.Scheduler.{
  Outcome, ended, fatal, out_of_fuel, proc_yield, may_run, set_aside, switch_to, run_next,
  clear_pending_syscalls,
}
use egos_upstream.Kernel.Scheduler.Quiet.{AtRound, clear_pending_syscalls-Quieted}
use egos_upstream.Kernel.Scheduler.Standing.{Standing, Standing-Unseen}
use egos_upstream.Kernel.Scheduler.Yield.{
  IsValid, IsBetween, set_aside-IsBetween, Settled-IsBetween, switch_to-proc_set,
}
use egos_upstream.Kernel.Scheduler.{rotated}
use egos_upstream.Kernel.Scheduler.Clear.{
  Ends, settles, Settled, clear_pending_syscalls-Ends, pendings-le,
}
use egos_upstream.Kernel.Scheduler.RoundRobin.{round_robin_lem}
use mathlib.Core.Path.{subst}

set_aside-Unseen : (k : Kernel) → IsValid k → Unseen k.proc_set (set_aside k).proc_set
unfolding set_aside proc_set_runnable
set_aside-Unseen k v = elim (Bool-cases (is_running (curr_status k))) [
  | inl runs ↦ rw runs (record {
    pids = λ i. ground (arith, proc_set_status_lem (curr_pid k) runnable k i);
    calls = λ i. ground (arith, proc_set_status_lem (curr_pid k) runnable k i);
    used = λ i li. ground (
      arith,
      proc_set_status_lem (curr_pid k) runnable k i,
      v.numbered i (omega arith),
      v.numbered (curr_proc_idx k) (omega (arith, v.in_table)),
      v.waiting.named (curr_proc_idx k),
    );
    asleep = λ i li e. ground (arith, proc_set_status_lem (curr_pid k) runnable k i);
  })
  | inr idle ↦
      rw idle
        (record { pids = λ i. refl; calls = λ i. refl; used = λ i li. refl; asleep = λ i li e. e })
]

set_aside-current : (k : Kernel) → curr_proc_idx (set_aside k) ≡ curr_proc_idx k
unfolding set_aside proc_set_runnable
set_aside-current k = elim (Bool-cases (is_running (curr_status k))) [
  | inl runs ↦ rw runs (
      ground (
        arith,
        core-proc_set_status (curr_pid k) runnable k,
        cores-proc_set_status (curr_pid k) runnable k,
      ))
  | inr idle ↦ rw idle refl
]

AtRound-set_aside :
    (k : Kernel)
    → IsValid k
    → ((q : ℕ)
        → q < max_nprocess
        → (k.proc_set q).status ≡ pending_syscall
        → Standing k.proc_set (curr_proc_idx k) q)
    → AtRound (curr_proc_idx k) 1 (set_aside k)
AtRound-set_aside k v standing =
    let b = set_aside-IsBetween k v in
    let u = set_aside-Unseen k v in
    record {
      current = set_aside-current k;
      waiting = b.waiting;
      numbered = b.numbered;
      early = λ q lq e near. absurd (omega arith);
      late = λ q lq e.
          Standing-Unseen k.proc_set (set_aside k).proc_set (curr_proc_idx k) q u
            (standing q lq (u.asleep q lq e));
    }

switch_to-Unseen :
    (n : ℕ) (k : Kernel)
    → n < max_nprocess
    → IsBetween k
    → may_run (k.proc_set n).status ≡ true
    → Unseen k.proc_set (switch_to n k).proc_set
switch_to-Unseen n k ln b can_run = record {
  pids = λ i. ground (arith, switch_to-proc_set k n i);
  calls = λ i. ground (arith, switch_to-proc_set k n i);
  used = λ i li. ground (
    arith,
    switch_to-proc_set k n i,
    b.numbered i (omega arith),
    b.numbered n (omega arith),
    b.waiting.named n,
  );
  asleep = λ i li e. ground (arith, switch_to-proc_set k n i);
}

-- A handler has come back with a quiet kernel, or has stopped.
pub data Quiets : Outcome Kernel → Type 0 where
  goes_on : {k : Kernel} → IsQuiet k.proc_set → Quiets (ended k)
  halts : Quiets fatal

pub run_next-Quiets : (m : Kernel) → IsBetween m → IsQuiet m.proc_set → Quiets (run_next (ended m))
unfolding run_next
run_next-Quiets m b quiet = elim (round_robin_lem m b.in_table) [
  | inl (i, next, e, lt) ↦
      rw (e, ltb_of_lt _ _ (rw e at lt))
        (goes_on (
          IsQuiet-Unseen m.proc_set (switch_to (rotated m i) m).proc_set
            (switch_to-Unseen (rotated m i) m (rw e at lt) b next.ready) quiet))
  | inr (e, nobody) ↦ rw e halts
]

Ends-Settled : (k m : Kernel) → Ends k (ended m) → Settled k m
Ends-Settled k m (settles s) = s

Ends-fuel : (k : Kernel) → Ends k out_of_fuel → ⊥
Ends-fuel k e = elim e [ ]

-- When every process in a system call has a standing, the loop over the system calls ends.
abbrev pub AllStanding : Kernel → Type 0
AllStanding k =
    (q : ℕ)
    → q < max_nprocess
    → (k.proc_set q).status ≡ pending_syscall
    → Standing k.proc_set (curr_proc_idx k) q

-- How settling ends.
abbrev pub Settles : Kernel → Type 0
Settles k =
    (m : Kernel) × (clear_pending_syscalls (max_nprocess + 1) (set_aside k) ≡ ended m)
    × IsBetween m
    × IsQuiet m.proc_set

pub AllStanding-Settles : (k : Kernel) → IsValid k → AllStanding k → Settles k
AllStanding-Settles k v standing =
    let b = set_aside-IsBetween k v in
    let ends =
      clear_pending_syscalls-Ends (max_nprocess + 1) (set_aside k) b.waiting
        (omega (arith, pendings-le max_nprocess (set_aside k).proc_set)) in
    elim (clear_pending_syscalls-Quieted (max_nprocess + 1) (curr_proc_idx k) (set_aside k)
      v.in_table (AtRound-set_aside k v standing)) [
        | inl e ↦ absurd (Ends-fuel (set_aside k) (subst (Ends (set_aside k)) e ends))
        | inr (m, e, q) ↦ (
          m,
          e,
          Settled-IsBetween (set_aside k) m b
              (Ends-Settled (set_aside k) m (subst (Ends (set_aside k)) e ends)),
          q.quiet,
        )
      ]

pub proc_yield-Quiets : (k : Kernel) → IsValid k → AllStanding k → Quiets (proc_yield k)
unfolding proc_yield
proc_yield-Quiets k v standing =
    let (m, e, b, quiet) = AllStanding-Settles k v standing in rw e (run_next-Quiets m b quiet)
