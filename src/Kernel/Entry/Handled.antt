-- ===== src/Kernel/Entry/Handled.antt =====
-- Every trap is handled: the kernel goes back to a running process in a valid state, or stops.
use egos_upstream.Base.{
  ℕ, ◌+◌, ◌%◌, ◌^◌, ◌≡◌, refl, ap, ◌∙◌, ◌≢◌, ◌⊎◌, inl, inr, Option, none, some, List, arith, leb,
  ◌==◌, Bool-cases, update, update_self,
}
use egos_upstream.Kernel.State.{
  is_user, running, pending_syscall, pending, Process, mmu_translate, Kernel, curr_proc_idx, curr,
  curr_pid, curr_status, call, put,
}
use egos_upstream.Kernel.Process.{proc_set_pending}
use egos_upstream.Kernel.Process.Table.{
  proc_set_status_lem, core-proc_set_status, cores-proc_set_status,
}
use egos_upstream.Kernel.Ipc.{proc_try_syscall}
use egos_upstream.Kernel.Ipc.Recv.{Tried, proc_try_syscall-Tried}
use egos_upstream.Kernel.Scheduler.{Outcome, ended, fatal, out_of_fuel, proc_yield, apps_entry}
use egos_upstream.Kernel.Scheduler.Yield.{
  IsValid, Yields, switches, refuses, starves, proc_yield-Yields, proc_set_status-IsWaiting,
}
use egos_upstream.Kernel.Entry.{
  Trap, Resume, intr_timer, accept_syscall, after_attempt, intr_soft, intr_entry, excp_entry, save,
  restore, resume, kernel_entry, read_ctrl_c,
}

-- A handler has come back with a valid kernel whose current process runs, or has stopped.
data Continues : Outcome Kernel → Type 0 where
  goes_on : {k : Kernel} → IsValid k → curr_status k ≡ running → Continues (ended k)
  halts : Continues fatal

-- So has `kernel_entry`, and the registers that it restores are those of that process.
pub data Handles : Outcome (Resume × Kernel) → Type 0 where
  resumes :
      {r : Resume} {k : Kernel}
      → IsValid k
      → curr_status k ≡ running
      → r ≡ restore k
      → Handles (ended (r, k))
  stops : Handles fatal

-- The running process of a valid kernel has a pid.
curr_pid-ne-zero : (k : Kernel) → IsValid k → curr_status k ≡ running → curr_pid k ≢ 0
curr_pid-ne-zero k v runs = ground (arith, v.waiting.named (curr_proc_idx k))

Yields-Continues : (k : Kernel) (r : Outcome Kernel) → Yields k r → Continues r
Yields-Continues k (ended k') (switches m i s next sw) = goes_on sw.valid sw.runs
Yields-Continues k fatal (refuses bad) = halts
Yields-Continues k fatal (starves m s nobody) = halts
Yields-Continues k out_of_fuel y = elim y [ ]

-- A change of the current entry that keeps its pid and status, and leaves no sender done.
pub put-IsValid :
    (k : Kernel) (p : Process)
    → IsValid k
    → p.pid ≡ curr_pid k
    → p.status ≡ curr_status k
    → (p.syscall ≡ (curr k).syscall) ⊎ (p.syscall.status ≡ pending)
    → IsValid (put (curr_proc_idx k) p k)
put-IsValid k p v same_pid same_status call_kept =
    let c = curr_proc_idx k in
    record {
      waiting = record {
        sends = λ i e. ground (arith, v.waiting.sends i);
        served = λ i e. ground (arith, v.waiting.served i);
        named = λ i e. ground (arith, v.waiting.named i);
      };
      numbered = λ i le. ground (arith, v.numbered i le);
      in_table = v.in_table;
      alone = λ i le. ground (arith, v.alone i le);
    }

pub Tried-IsValid : (k : Kernel) (p : ℕ) (k' : Kernel) → IsValid k → Tried k p k' → IsValid k'
Tried-IsValid k p k' v t = record {
  waiting = t.waiting;
  numbered = λ i le. ground (arith, t.pids i, v.numbered i le);
  in_table = ground (arith, t.core, t.cores, v.in_table);
  alone = λ i le. ground (arith, t.core, t.cores, t.moves i, v.alone i le);
}

proc_set_pending-IsValid :
    (k : Kernel) → IsValid k → curr_pid k ≢ 0 → IsValid (proc_set_pending (curr_pid k) k)
unfolding proc_set_pending
proc_set_pending-IsValid k v ne = record {
  waiting = proc_set_status-IsWaiting (curr_pid k) pending_syscall k ne v.waiting;
  numbered =
      λ i le. ground (arith, proc_set_status_lem (curr_pid k) pending_syscall k i, v.numbered i le);
  in_table = ground (
    arith,
    v.in_table,
    core-proc_set_status (curr_pid k) pending_syscall k,
    cores-proc_set_status (curr_pid k) pending_syscall k,
  );
  alone = λ i le. ground (
    arith,
    proc_set_status_lem (curr_pid k) pending_syscall k i,
    v.alone i le,
    core-proc_set_status (curr_pid k) pending_syscall k,
    cores-proc_set_status (curr_pid k) pending_syscall k,
  );
}

curr-proc_set_pending :
    (k : Kernel) → IsValid k → (curr (proc_set_pending (curr_pid k) k)).status ≡ pending_syscall
unfolding proc_set_pending
curr-proc_set_pending k v = ground (
  arith,
  v.in_table,
  proc_set_status_lem (curr_pid k) pending_syscall k (curr_proc_idx k),
  core-proc_set_status (curr_pid k) pending_syscall k,
  cores-proc_set_status (curr_pid k) pending_syscall k,
)

pub accept_syscall-IsValid :
    (hartid : ℕ) (k : Kernel)
    → IsValid k
    → curr_status k ≡ running
    → IsValid (accept_syscall hartid k) × (curr_status (accept_syscall hartid k) ≡ pending_syscall)
unfolding accept_syscall
accept_syscall-IsValid hartid k v runs =
    let k1 = call (mmu_translate (curr_pid k)) (record k { msip = update k.msip hartid 0 }) in
    let v1 : IsValid k1 = record {
      waiting = record {
        sends = v.waiting.sends;
        served = v.waiting.served;
        named = v.waiting.named;
      };
      numbered = v.numbered;
      in_table = v.in_table;
      alone = v.alone;
    } in
    let p = record (curr k1) { syscall = record (k1.user (curr_pid k1)) { status = pending } } in
    let k2 = put (curr_proc_idx k1) p k1 in
    let v2 : IsValid k2 = put-IsValid k1 p v1 refl refl (inr refl) in
    let same : curr k2 ≡ p = update_self k1.proc_set (curr_proc_idx k1) p in
    let ne : curr_pid k2 ≢ 0 = ground (arith, curr_pid-ne-zero k v runs) in
    let k3 = proc_set_pending (curr_pid k2) k2 in
    let v3 : IsValid k3 = proc_set_pending-IsValid k2 v2 ne in
    let p' = record (curr k3) { mepc = ((curr k3).mepc + 4) % 2 ^ 32 } in
    (
      put-IsValid k3 p' v3 refl refl (inl refl),
      ap (λ (q : Process). q.status) (update_self k3.proc_set (curr_proc_idx k3) p')
          ∙ curr-proc_set_pending k2 v2,
    )

after_attempt-Continues :
    (k : Kernel) (o : Option Kernel)
    → IsValid k
    → curr_status k ≡ pending_syscall
    → proc_try_syscall (curr_proc_idx k) k ≡ o
    → Continues (after_attempt o)
unfolding after_attempt
after_attempt-Continues k none v waits e = halts
after_attempt-Continues k (some k') v waits e =
    let t = proc_try_syscall-Tried k (curr_proc_idx k) k' v.in_table waits v.waiting e in
    Yields-Continues k' (proc_yield k')
      (proc_yield-Yields k' (Tried-IsValid k (curr_proc_idx k) k' v t))

intr_soft-Continues :
    (hartid : ℕ) (k : Kernel) → IsValid k → curr_status k ≡ running → Continues (intr_soft hartid k)
unfolding intr_soft
intr_soft-Continues hartid k v runs =
    let (v', waits) = accept_syscall-IsValid hartid k v runs in
    after_attempt-Continues (accept_syscall hartid k) _ v' waits refl

pub tty-IsValid : (k : Kernel) (rest : List ℕ) → IsValid k → IsValid (record k { tty = rest })
tty-IsValid k rest v = record {
  waiting = record { sends = v.waiting.sends; served = v.waiting.served; named = v.waiting.named };
  numbered = v.numbered;
  in_table = v.in_table;
  alone = v.alone;
}

intr_timer-Continues : (k : Kernel) → IsValid k → curr_status k ≡ running → Continues (intr_timer k)
unfolding intr_timer
intr_timer-Continues k v runs =
    let (ctrl_c, rest) = read_ctrl_c k.tty in
    let k' = record k { tty = rest } in
    let v' : IsValid k' = tty-IsValid k rest v in
    let p = record (curr k') { mepc = apps_entry + 0xC } in
    elim (Bool-cases (is_user (curr_pid k))) [
      | inl user ↦ elim (Bool-cases ctrl_c) [
        | inl kill ↦
            rw (user, kill)
              (goes_on (put-IsValid k' p v' refl refl (inl refl)) (
                ap (λ (q : Process). q.status) (update_self k'.proc_set (curr_proc_idx k') p)
                ∙ runs))
        | inr other ↦
            rw (user, other) (Yields-Continues k' (proc_yield k') (proc_yield-Yields k' v'))
      ]
      | inr system ↦ rw system (Yields-Continues k (proc_yield k) (proc_yield-Yields k v))
    ]

intr_entry-Continues :
    (hartid id : ℕ) (k : Kernel)
    → IsValid k
    → curr_status k ≡ running
    → Continues (intr_entry hartid id k)
unfolding intr_entry
intr_entry-Continues hartid id k v runs = elim (Bool-cases (id == 7)) [
  | inl timer ↦ rw timer (intr_timer-Continues k v runs)
  | inr not_timer ↦ elim (Bool-cases (id == 3)) [
    | inl soft ↦ rw (not_timer, soft) (intr_soft-Continues hartid k v runs)
    | inr other ↦ rw (not_timer, other) halts
  ]
]

resume-Handles : (r : Outcome Kernel) → Continues r → Handles (resume r)
resume-Handles (ended k) (goes_on v runs) = unfold resume in resumes v runs refl
resume-Handles fatal halts = unfold resume in stops
resume-Handles out_of_fuel c = elim c [ ]

pub save-IsValid :
    (t : Trap) (k : Kernel)
    → IsValid k
    → curr_status k ≡ running
    → t.mhartid ≡ k.core_in_kernel
    → IsValid (save t k) × (curr_status (save t k) ≡ running)
unfolding save
save-IsValid t k v runs same_core =
    let p = record (curr k) { mepc = t.mepc; saved_registers = t.registers } in
    rw same_core (
      put-IsValid k p v refl refl (inl refl),
      ap (λ (q : Process). q.status) (update_self k.proc_set (curr_proc_idx k) p) ∙ runs,
    )

-- On the core that runs the current process, every trap of a valid kernel ends: the kernel is valid
-- again, its current process is the one running, and the registers restored are that process's; or
-- the kernel has stopped. It never runs out of fuel.
pub kernel_entry-Handles :
    (t : Trap) (k : Kernel)
    → IsValid k
    → curr_status k ≡ running
    → t.mhartid ≡ k.core_in_kernel
    → Handles (kernel_entry t k)
unfolding kernel_entry excp_entry
kernel_entry-Handles t k v runs same_core =
    let (v', runs') = save-IsValid t k v runs same_core in
    elim (Bool-cases (leb (2 ^ 31) t.mcause)) [
      | inl intr ↦ rw intr (
          resume-Handles (intr_entry t.mhartid (t.mcause % 2 ^ 10) (save t k))
            (intr_entry-Continues t.mhartid (t.mcause % 2 ^ 10) (save t k) v' runs'))
      | inr excp ↦ rw excp (resume-Handles fatal halts)
    ]
