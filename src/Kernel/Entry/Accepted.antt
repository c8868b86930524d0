-- ===== src/Kernel/Entry/Accepted.antt =====
-- What `intr_entry` changes when it takes a system call from the memory of the process.
use egos_upstream.Base.{
  ℕ, ◌<◌, ◌≡◌, ap, ◌∙◌, ◌≢◌, inl, inr, arith, ◌==◌, eq_of_==, ne_of_==, Bool-cases, update,
  update_self,
}
use egos_upstream.Kernel.State.{
  max_nprocess, is_unused, running, pending_syscall, pending, done, mmu_translate, Kernel,
  curr_proc_idx, curr, curr_pid, curr_status, call, put,
}
use egos_upstream.Kernel.Process.{proc_set_pending}
use egos_upstream.Kernel.Process.Table.{
  proc_set_status_lem, core-proc_set_status, cores-proc_set_status,
}
use egos_upstream.Kernel.Ipc.Send.{try_send_at-Waits}
use egos_upstream.Kernel.Ipc.Stuck.{StuckAt, receives, sends, IsFirst-transfer}
use egos_upstream.Kernel.Scheduler.Standing.{stuck, Standing, calm, matched}
use egos_upstream.Kernel.Scheduler.Yield.{IsValid}
use egos_upstream.Kernel.Entry.{accept_syscall}

-- What accepting a system call has changed.
pub record Accepted (k a : Kernel) : Type 0 where
  pub current : curr_proc_idx a ≡ curr_proc_idx k
  pub pids : (i : ℕ) → (a.proc_set i).pid ≡ (k.proc_set i).pid
  pub used :
      (i : ℕ) → i < max_nprocess → is_unused (a.proc_set i).status ≡ is_unused (k.proc_set i).status
  pub calls : (i : ℕ) → i ≢ curr_proc_idx k → (a.proc_set i).syscall ≡ (k.proc_set i).syscall
  pub asleep :
      (i : ℕ)
      → i < max_nprocess
      → i ≢ curr_proc_idx k
      → (a.proc_set i).status ≡ pending_syscall
      → (k.proc_set i).status ≡ pending_syscall
  pub fresh : (curr a).syscall ≡ record (k.user (curr_pid k)) { status = pending }

pub accept_syscall-Accepted :
    (hartid : ℕ) (k : Kernel)
    → IsValid k
    → curr_status k ≡ running
    → Accepted k (accept_syscall hartid k)
unfolding accept_syscall proc_set_pending
accept_syscall-Accepted hartid k v runs =
    let p = record (curr k) { syscall = record (k.user (curr_pid k)) { status = pending } } in
    let k2 =
      put (curr_proc_idx k) p
        (call (mmu_translate (curr_pid k)) (record k { msip = update k.msip hartid 0 })) in
    let same : curr k2 ≡ p = update_self k.proc_set (curr_proc_idx k) p in
    let core = core-proc_set_status (curr_pid k2) pending_syscall k2 in
    let cores = cores-proc_set_status (curr_pid k2) pending_syscall k2 in
    record {
      current = ground (arith, core, cores);
      pids = λ i. ground (
        arith,
        core,
        cores,
        same,
        proc_set_status_lem (curr_pid k2) pending_syscall k2 i,
        proc_set_status_lem (curr_pid k2) pending_syscall k2 (curr_proc_idx k),
      );
      used = λ i li. ground (
        arith,
        core,
        cores,
        same,
        proc_set_status_lem (curr_pid k2) pending_syscall k2 i,
        proc_set_status_lem (curr_pid k2) pending_syscall k2 (curr_proc_idx k),
        v.numbered i (omega arith),
        v.numbered (curr_proc_idx k) (omega (arith, v.in_table)),
        v.waiting.named (curr_proc_idx k),
      );
      calls = λ i ne.
          ground (arith, core, cores, same, proc_set_status_lem (curr_pid k2) pending_syscall k2 i);
      asleep = λ i li ne e. ground (
        arith,
        core,
        cores,
        same,
        proc_set_status_lem (curr_pid k2) pending_syscall k2 i,
        v.numbered i (omega arith),
        v.numbered (curr_proc_idx k) (omega (arith, v.in_table)),
        v.waiting.named (curr_proc_idx k),
      );
      fresh = ground (
        arith,
        core,
        cores,
        same,
        proc_set_status_lem (curr_pid k2) pending_syscall k2 (curr_proc_idx k),
      );
    }

-- A call that was stuck either still is, or sends to the current process, which now waits for it.
pub Accepted-Standing :
    (k a : Kernel) (q : ℕ)
    → Accepted k a
    → q ≢ curr_proc_idx k
    → StuckAt k.proc_set q
    → Standing a.proc_set (curr_proc_idx k) q
Accepted-Standing k a q h ne (receives type status) = calm (
    stuck (
      receives (ap (λ x. x.type) (h.calls q ne) ∙ type)
        (ap (λ x. x.status) (h.calls q ne) ∙ status)))
Accepted-Standing k a q h ne (sends d type not_done first idle) =
    let first' = IsFirst-transfer k.proc_set a.proc_set q d h.pids h.used (h.calls q ne) first in
    let type' = ap (λ x. x.type) (h.calls q ne) ∙ type in
    let not_done' : (a.proc_set q).syscall.status ≢ done = rw (h.calls q ne) not_done in
    elim (try_send_at-Waits a q d) [
      | inl (waits, sent) ↦ elim (Bool-cases (d == curr_proc_idx k)) [
        | inl here ↦
            let e = eq_of_== d (curr_proc_idx k) here in
            matched type' not_done' (rw e at first') (rw e at waits)
        | inr other ↦
            absurd (idle (rw (h.calls d (ne_of_== d (curr_proc_idx k) other), h.pids q) at waits))
      ]
      | inr (idle', same) ↦ calm (stuck (sends d type' not_done' first' idle'))
    ]
