-- ===== src/Kernel/Scheduler/Yield.antt =====
-- `proc_yield` keeps the kernel's invariant and runs exactly one process.
use egos_upstream.Base.{
  ℕ, ◌+◌, ◌≤◌, ◌<◌, ◌≡◌, ap, ◌∙◌, ◌≢◌, inl, inr, true, false, ◌&&◌, arith, ltb, ltb_of_lt, ◌==◌,
  if◌then◌else◌, Bool-cases, update_self,
}
use egos_upstream.Kernel.State.{
  max_nprocess, ProcStatus, ready, running, runnable, is_ready, is_running, Process, Kernel,
  curr_proc_idx, curr, curr_pid, curr_status,
}
use egos_upstream.Kernel.Process.{proc_set_runnable, proc_set_running, proc_set_status}
use egos_upstream.Kernel.Process.Table.{
  proc_set_status_lem, core-proc_set_status, cores-proc_set_status,
}
use egos_upstream.Kernel.Ipc.Recv.{IsWaiting}
use egos_upstream.Kernel.Scheduler.{
  rotated, may_run, apps_entry, apps_arg, Outcome, ended, fatal, out_of_fuel, start, switch_to,
  bring_in, set_aside, clear_pending_syscalls, run_next, proc_yield,
}
use egos_upstream.Kernel.Scheduler.RoundRobin.{IsNext, round_robin_lem}
use egos_upstream.Kernel.Scheduler.Clear.{
  pendings-le, Refused, Settled, Ends, settles, stops, clear_pending_syscalls-Ends,
}

-- A process stands at the entry of its pid, the current entry is one that the scheduler visits, and no
-- other entry is running.
pub record IsValid (k : Kernel) : Type 0 where
  pub waiting : IsWaiting k
  pub numbered : (i : ℕ) → i ≤ max_nprocess → (k.proc_set i).pid ≢ 0 → (k.proc_set i).pid ≡ i
  pub in_table : curr_proc_idx k < max_nprocess
  pub alone : (i : ℕ) → i ≤ max_nprocess → (k.proc_set i).status ≡ running → i ≡ curr_proc_idx k

-- The same, with no process running: the kernel is between two processes.
pub record IsBetween (k : Kernel) : Type 0 where
  pub waiting : IsWaiting k
  pub numbered : (i : ℕ) → i ≤ max_nprocess → (k.proc_set i).pid ≢ 0 → (k.proc_set i).pid ≡ i
  pub in_table : curr_proc_idx k < max_nprocess
  pub none_running : (i : ℕ) → i ≤ max_nprocess → (k.proc_set i).status ≢ running

pub proc_set_status-IsWaiting :
    (pid : ℕ) (status : ProcStatus) (k : Kernel)
    → pid ≢ 0
    → IsWaiting k
    → IsWaiting (proc_set_status pid status k)
proc_set_status-IsWaiting pid status k ne w = record {
  sends = λ i. ground (arith, proc_set_status_lem pid status k i, w.sends i);
  served = λ i. ground (arith, proc_set_status_lem pid status k i, w.served i);
  named = λ i. ground (arith, proc_set_status_lem pid status k i, w.named i);
}

pub set_aside-IsBetween : (k : Kernel) → IsValid k → IsBetween (set_aside k)
unfolding set_aside proc_set_runnable
set_aside-IsBetween k v = elim (Bool-cases (is_running (curr_status k))) [
  | inl runs ↦ rw runs (record {
    waiting =
        proc_set_status-IsWaiting (curr_pid k) runnable k
          (ground (arith, v.waiting.named (curr_proc_idx k))) v.waiting;
    numbered =
        λ i le. ground (arith, proc_set_status_lem (curr_pid k) runnable k i, v.numbered i le);
    in_table = ground (
      arith,
      v.in_table,
      core-proc_set_status (curr_pid k) runnable k,
      cores-proc_set_status (curr_pid k) runnable k,
    );
    none_running = λ i le.
        ground (arith, proc_set_status_lem (curr_pid k) runnable k i, v.alone i le, v.in_table);
  })
  | inr idle ↦ rw idle (record {
    waiting = v.waiting;
    numbered = v.numbered;
    in_table = v.in_table;
    none_running = λ i le e. ground (arith, v.alone i le);
  })
]

pub Settled-IsBetween : (k k' : Kernel) → IsBetween k → Settled k k' → IsBetween k'
Settled-IsBetween k k' b s = record {
  waiting = s.waiting;
  numbered = λ i le. ground (arith, s.pids i, b.numbered i le);
  in_table = ground (arith, s.core, s.cores, b.in_table);
  none_running = λ i le. ground (arith, s.moves i, b.none_running i le);
}

-- What the switch to entry `n` has done.
pub record Switched (k : Kernel) (n : ℕ) (k' : Kernel) : Type 0 where
  pub valid : IsValid k'
  pub current : curr_proc_idx k' ≡ n
  pub runs : curr_status k' ≡ running
  pub resumed :
      (k.proc_set n).status ≡ runnable
      → ((curr k').mepc ≡ (k.proc_set n).mepc)
        × ((curr k').saved_registers ≡ (k.proc_set n).saved_registers)
  pub others :
      (i : ℕ)
      → i ≢ n
      → ((k'.proc_set i).mepc ≡ (k.proc_set i).mepc)
        × ((k'.proc_set i).saved_registers ≡ (k.proc_set i).saved_registers)
  pub started :
      (k.proc_set n).status ≡ ready
      → ((curr k').mepc ≡ apps_entry)
        × ((curr k').saved_registers 0 ≡ apps_arg)
        × ((curr k').saved_registers 1 ≡ apps_arg + 4)

-- The entry before the last call of `switch_to`: a new process has been set up.
abbrev set_up : ℕ → Kernel → Process
set_up n k = if is_ready (k.proc_set n).status then start (k.proc_set n) else k.proc_set n

bring_in-proc_set :
    (k : Kernel) (n i : ℕ)
    → (bring_in n k).proc_set i ≡ (if n == i then set_up n k else k.proc_set i)
unfolding bring_in
bring_in-proc_set k n i = rw (update_self k.core_to_proc_idx k.core_in_kernel n) (ground arith)

bring_in-current : (k : Kernel) (n : ℕ) → curr_proc_idx (bring_in n k) ≡ n
unfolding bring_in
bring_in-current k n = ground arith

curr-bring_in : (k : Kernel) (n : ℕ) → curr (bring_in n k) ≡ set_up n k
curr-bring_in k n =
    ap (bring_in n k).proc_set (bring_in-current k n) ∙ bring_in-proc_set k n n ∙ ground arith

-- The process table after `switch_to`.
pub switch_to-proc_set :
    (k : Kernel) (n i : ℕ)
    → (switch_to n k).proc_set i ≡ (
        let p = (if n == i then set_up n k else k.proc_set i) in
        if ltb i max_nprocess && (p.pid == (set_up n k).pid)
        then record p { status = running }
        else p)
unfolding switch_to proc_set_running
switch_to-proc_set k n i = ground (
  arith,
  proc_set_status_lem (curr_pid (bring_in n k)) running (bring_in n k) i,
  bring_in-proc_set k n i,
  curr-bring_in k n,
)

switch_to-current : (k : Kernel) (n : ℕ) → curr_proc_idx (switch_to n k) ≡ n
unfolding switch_to proc_set_running
switch_to-current k n = ground (
  arith,
  core-proc_set_status (curr_pid (bring_in n k)) running (bring_in n k),
  cores-proc_set_status (curr_pid (bring_in n k)) running (bring_in n k),
  bring_in-current k n,
)

curr-switch_to :
    (k : Kernel) (n : ℕ)
    → n < max_nprocess
    → curr (switch_to n k) ≡ record (set_up n k) { status = running }
curr-switch_to k n lt =
    ap (switch_to n k).proc_set (switch_to-current k n) ∙ switch_to-proc_set k n n ∙ ground arith

pub switch_to-Switched :
    (k : Kernel) (n : ℕ)
    → IsBetween k
    → n < max_nprocess
    → may_run (k.proc_set n).status ≡ true
    → Switched k n (switch_to n k)
switch_to-Switched k n b lt can_run = record {
  valid = record {
    waiting = record {
      sends = λ i. ground (arith, switch_to-proc_set k n i, b.waiting.sends i, b.waiting.sends n);
      served =
          λ i. ground (arith, switch_to-proc_set k n i, b.waiting.served i, b.waiting.served n);
      named = λ i. ground (arith, switch_to-proc_set k n i, b.waiting.named i, b.waiting.named n);
    };
    numbered = λ i le. ground (arith, switch_to-proc_set k n i, b.numbered i le);
    in_table = rw (switch_to-current k n) lt;
    alone = λ i le. ground (
      arith,
      switch_to-current k n,
      switch_to-proc_set k n i,
      b.none_running i le,
      b.numbered i le,
      b.numbered n (omega arith),
      b.waiting.named n,
    );
  };
  current = switch_to-current k n;
  runs = ground (arith, curr-switch_to k n lt);
  resumed = λ was. (ground (arith, curr-switch_to k n lt), ground (arith, curr-switch_to k n lt));
  others =
      λ i ne. (ground (arith, switch_to-proc_set k n i), ground (arith, switch_to-proc_set k n i));
  started = λ was. (
    ground (arith, curr-switch_to k n lt),
    ground (arith, curr-switch_to k n lt),
    ground (arith, curr-switch_to k n lt),
  );
}

-- What `proc_yield` comes to.
pub data Yields (k : Kernel) : Outcome Kernel → Type 0 where
  switches :
      {k' : Kernel} (m : Kernel) (i : ℕ)
      → Settled (set_aside k) m
      → IsNext m i
      → Switched m (rotated m i) k'
      → Yields k (ended k')
  refuses : Refused (set_aside k).proc_set → Yields k fatal
  starves :
      (m : Kernel)
      → Settled (set_aside k) m
      → ((idx : ℕ) → idx < max_nprocess → may_run (m.proc_set idx).status ≡ false)
      → Yields k fatal

pub run_next-ended :
    (k m : Kernel) → IsBetween m → Settled (set_aside k) m → Yields k (run_next (ended m))
unfolding run_next
run_next-ended k m b s = elim (round_robin_lem m b.in_table) [
  | inl (i, next, e, lt) ↦
      rw (e, ltb_of_lt _ _ (rw e at lt))
        (switches m i s next (switch_to-Switched m (rotated m i) b (rw e at lt) next.ready))
  | inr (e, nobody) ↦ rw e (starves m s nobody)
]

run_next-Ends :
    (k : Kernel) (r : Outcome Kernel)
    → IsBetween (set_aside k)
    → Ends (set_aside k) r
    → Yields k (run_next r)
run_next-Ends k (ended m) b (settles s) =
    run_next-ended k m (Settled-IsBetween (set_aside k) m b s) s
run_next-Ends k fatal b (stops bad) = unfold run_next in refuses bad
run_next-Ends k out_of_fuel b r = elim r [ ]

pub proc_yield-Yields : (k : Kernel) → IsValid k → Yields k (proc_yield k)
unfolding proc_yield
proc_yield-Yields k v =
    let b = set_aside-IsBetween k v in
    run_next-Ends k (clear_pending_syscalls (max_nprocess + 1) (set_aside k)) b (
      clear_pending_syscalls-Ends (max_nprocess + 1) (set_aside k) b.waiting
        (omega (arith, pendings-le max_nprocess (set_aside k).proc_set)))
