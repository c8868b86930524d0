-- ===== src/Kernel/Entry/Settled.antt =====
-- No trap leaves a message undelivered: a receiver and a sender that match never both stay asleep.
use egos_upstream.Base.{
  ℕ, ◌+◌, ◌%◌, ◌^◌, ◌≡◌, refl, ◌⊎◌, inl, inr, arith, leb, ◌==◌, Bool-cases, update,
}
use egos_upstream.Kernel.State.{
  is_user, running, Process, Kernel, curr_proc_idx, curr, curr_pid, curr_status,
}
use egos_upstream.Kernel.Ipc.Stuck.{IsQuiet, Unseen, IsQuiet-Unseen}
use egos_upstream.Kernel.Scheduler.{Outcome, ended, fatal, out_of_fuel, proc_yield, apps_entry}
use egos_upstream.Kernel.Scheduler.Standing.{stuck, calm}
use egos_upstream.Kernel.Scheduler.Yield.{IsValid}
use egos_upstream.Kernel.Entry.{
  Trap, Resume, intr_timer, after_attempt, intr_soft, intr_entry, excp_entry, save, restore, resume,
  kernel_entry, read_ctrl_c,
}
use egos_upstream.Kernel.Entry.Handled.{save-IsValid, tty-IsValid}
use egos_upstream.Kernel.Scheduler.Settles.{
  AllStanding, Quiets, goes_on, halts, run_next-Quiets, proc_yield-Quiets,
}
use egos_upstream.Kernel.Entry.Attempt.{accept_syscall-Settles}

intr_soft-Quiets :
    (hartid : ℕ) (k : Kernel)
    → IsValid k
    → IsQuiet k.proc_set
    → curr_status k ≡ running
    → Quiets (intr_soft hartid k)
unfolding intr_soft after_attempt proc_yield
intr_soft-Quiets hartid k v quiet runs = elim (accept_syscall-Settles hartid k v quiet runs) [
  | inl (e, refusable) ↦ rw e halts
  | inr (k1, e, (m, settled, b, quiet')) ↦ rw (e, settled) (run_next-Quiets m b quiet')
]

-- A change that leaves every entry as it is but for contexts.
put-Unseen :
    (k : Kernel) (p : Process)
    → p.pid ≡ curr_pid k
    → p.status ≡ curr_status k
    → p.syscall ≡ (curr k).syscall
    → Unseen k.proc_set (update k.proc_set (curr_proc_idx k) p)
put-Unseen k p same_pid same_status same_call = record {
  pids = λ i. ground arith;
  calls = λ i. ground arith;
  used = λ i li. ground arith;
  asleep = λ i li e. ground arith;
}

IsQuiet-Standing : (k : Kernel) → IsQuiet k.proc_set → AllStanding k
IsQuiet-Standing k quiet q lq e = calm (stuck (quiet q lq e))

intr_timer-Quiets : (k : Kernel) → IsValid k → IsQuiet k.proc_set → Quiets (intr_timer k)
unfolding intr_timer
intr_timer-Quiets k v quiet =
    let (ctrl_c, rest) = read_ctrl_c k.tty in
    let k' = record k { tty = rest } in
    let v' : IsValid k' = tty-IsValid k rest v in
    let p = record (curr k') { mepc = apps_entry + 0xC } in
    elim (Bool-cases (is_user (curr_pid k))) [
      | inl user ↦ elim (Bool-cases ctrl_c) [
        | inl kill ↦
            rw (user, kill)
              (goes_on (
                IsQuiet-Unseen k.proc_set (update k.proc_set (curr_proc_idx k) p)
                  (put-Unseen k p refl refl refl) quiet))
        | inr other ↦ rw (user, other) (proc_yield-Quiets k' v' (IsQuiet-Standing k' quiet))
      ]
      | inr system ↦ rw system (proc_yield-Quiets k v (IsQuiet-Standing k quiet))
    ]

intr_entry-Quiets :
    (hartid id : ℕ) (k : Kernel)
    → IsValid k
    → IsQuiet k.proc_set
    → curr_status k ≡ running
    → Quiets (intr_entry hartid id k)
unfolding intr_entry
intr_entry-Quiets hartid id k v quiet runs = elim (Bool-cases (id == 7)) [
  | inl timer ↦ rw timer (intr_timer-Quiets k v quiet)
  | inr not_timer ↦ elim (Bool-cases (id == 3)) [
    | inl soft ↦ rw (not_timer, soft) (intr_soft-Quiets hartid k v quiet runs)
    | inr other ↦ rw (not_timer, other) halts
  ]
]

-- Where `kernel_entry` comes back, the kernel is quiet.
abbrev pub ReturnsQuiet : Outcome (Resume × Kernel) → Type 0
ReturnsQuiet o =
    (o ≡ fatal) ⊎ ((r : Resume) × (k : Kernel) × (o ≡ ended (r, k)) × IsQuiet k.proc_set)

resume-ReturnsQuiet : (r : Outcome Kernel) → Quiets r → ReturnsQuiet (resume r)
resume-ReturnsQuiet (ended k) (goes_on quiet) = unfold resume in inr (restore k, k, refl, quiet)
resume-ReturnsQuiet fatal halts = unfold resume in inl refl
resume-ReturnsQuiet out_of_fuel q = elim q [ ]

save-IsQuiet :
    (t : Trap) (k : Kernel)
    → IsQuiet k.proc_set
    → t.mhartid ≡ k.core_in_kernel
    → IsQuiet (save t k).proc_set
unfolding save
save-IsQuiet t k quiet same_core =
    let p = record (curr k) { mepc = t.mepc; saved_registers = t.registers } in
    rw same_core (
      IsQuiet-Unseen k.proc_set (update k.proc_set (curr_proc_idx k) p)
        (put-Unseen k p refl refl refl) quiet)

-- Every trap of a valid and quiet kernel, on the core that runs the current process, stops the kernel or
-- leaves it quiet again, and never runs out of fuel. In a quiet kernel each process in a system call is a
-- receiver that has no message yet, or a sender to a process in use that does not wait for it: no message
-- that could be handed over stays behind.
pub kernel_entry-IsQuiet :
    (t : Trap) (k : Kernel)
    → IsValid k
    → IsQuiet k.proc_set
    → curr_status k ≡ running
    → t.mhartid ≡ k.core_in_kernel
    → ReturnsQuiet (kernel_entry t k)
unfolding kernel_entry excp_entry
kernel_entry-IsQuiet t k v quiet runs same_core =
    let (v', runs') = save-IsValid t k v runs same_core in
    elim (Bool-cases (leb (2 ^ 31) t.mcause)) [
      | inl intr ↦ rw intr (
          resume-ReturnsQuiet (intr_entry t.mhartid (t.mcause % 2 ^ 10) (save t k)) (
            intr_entry-Quiets t.mhartid (t.mcause % 2 ^ 10) (save t k) v'
              (save-IsQuiet t k quiet same_core) runs'))
      | inr excp ↦ rw excp (resume-ReturnsQuiet fatal halts)
    ]
