-- ===== src/Kernel/Ipc/Recv.antt =====
-- What a system call attempt changes in the process table: only from pending to runnable.
use egos_upstream.Base.{
  ℕ, ◌<◌, ◌≡◌, refl, ◌∙◌, ◌≢◌, ◌⊎◌, inl, inr, ◌&&◌, ◌||◌, none, some, arith, ltb, ◌==◌,
  if◌then◌else◌, eq_of_==, ne_of_==, Bool-cases, update,
}
use egos_upstream.Kernel.State.{
  max_nprocess, unused, runnable, pending_syscall, sys_recv, sys_send, pending, done, mmu_translate,
  Procs, Kernel, call, SameContexts,
}
use egos_upstream.Kernel.Process.{proc_set_runnable}
use mathlib.Core.Path.{subst}
use egos_upstream.Kernel.Process.Table.{
  proc_set_status_lem, core-proc_set_status, cores-proc_set_status, user-proc_set_status,
}
use egos_upstream.Kernel.Ipc.{deliver, proc_try_send, proc_try_recv, proc_try_syscall}
use egos_upstream.Kernel.Ipc.Send.{proc_try_send_cases}

-- The system calls in the table: a process that sends is marked pending to the end, since only receivers
-- are marked done; a receiver that is done has a sender; and an entry with no pid is unused.
pub record IsWaiting (k : Kernel) : Type 0 where
  pub sends :
      (i : ℕ) → (k.proc_set i).syscall.type ≡ sys_send → (k.proc_set i).syscall.status ≡ pending
  pub served :
      (i : ℕ)
      → (k.proc_set i).syscall.type ≡ sys_recv
      → (k.proc_set i).syscall.status ≢ pending
      → (k.proc_set i).syscall.sender ≢ 0
  pub named : (i : ℕ) → (k.proc_set i).pid ≡ 0 → (k.proc_set i).status ≡ unused

-- Every process asks for the same kind of call, with the same receiver.
abbrev pub SameCalls : Procs → Procs → Type 0
SameCalls before after =
    (i : ℕ)
    → ((after i).syscall.type ≡ (before i).syscall.type)
      × ((after i).syscall.receiver ≡ (before i).syscall.receiver)

-- The effect of one attempt for entry `p`.
pub record Tried (k : Kernel) (p : ℕ) (k' : Kernel) : Type 0 where
  pub pids : (i : ℕ) → (k'.proc_set i).pid ≡ (k.proc_set i).pid
  pub moves :
      (i : ℕ)
      → ((k'.proc_set i).status ≡ (k.proc_set i).status) ⊎ ((k'.proc_set i).status ≡ runnable)
  pub nobody : (i : ℕ) → (k.proc_set i).pid ≡ 0 → (k'.proc_set i).status ≡ (k.proc_set i).status
  pub contexts : SameContexts k.proc_set k'.proc_set
  pub calls : SameCalls k.proc_set k'.proc_set
  pub waiting : IsWaiting k'
  pub done_runs : (k'.proc_set p).syscall.status ≡ done → (k'.proc_set p).status ≡ runnable
  pub core : k'.core_in_kernel ≡ k.core_in_kernel
  pub cores : k'.core_to_proc_idx ≡ k.core_to_proc_idx

deliver-Tried :
    (k : Kernel) (p d : ℕ)
    → IsWaiting k
    → (k.proc_set p).pid ≢ 0
    → (k.proc_set p).syscall.type ≡ sys_send
    → (k.proc_set d).syscall.type ≡ sys_recv
    → Tried k p (deliver d p k)
unfolding deliver
deliver-Tried k p d waiting pid_ne sends receives = record {
  pids = λ i. ground arith;
  moves = λ i. inl (ground arith);
  nobody = λ i h. ground arith;
  contexts = λ i. (ground arith, ground arith);
  calls = λ i. (ground arith, ground arith);
  waiting = record {
    sends = λ i h. ground (arith, waiting.sends i);
    served = λ i h ne. ground (arith, waiting.served i);
    named = λ i h. ground (arith, waiting.named i);
  };
  done_runs = λ h. ground (arith, waiting.sends p);
  core = refl;
  cores = refl;
}

same-Tried :
    (k : Kernel) (p : ℕ) → IsWaiting k → (k.proc_set p).syscall.status ≡ pending → Tried k p k
same-Tried k p waiting waits = record {
  pids = λ i. refl;
  moves = λ i. inl refl;
  nobody = λ i h. refl;
  contexts = λ i. (refl, refl);
  calls = λ i. (refl, refl);
  waiting = waiting;
  done_runs = λ h. ground arith;
  core = refl;
  cores = refl;
}

-- What the return of a receive has changed.
pub record Received (k : Kernel) (p : ℕ) (k' : Kernel) : Type 0 where
  pub procs :
      (i : ℕ)
      → k'.proc_set i ≡ (
          if ltb i max_nprocess
            && (((k.proc_set i).pid == (k.proc_set p).pid)
                || ((k.proc_set i).pid == (k.proc_set p).syscall.sender))
          then record (k.proc_set i) { status = runnable }
          else k.proc_set i)
  pub own : k'.user (k.proc_set p).pid ≡ record (k.proc_set p).syscall { status = done }
  pub others : (q : ℕ) → q ≢ (k.proc_set p).pid → k'.user q ≡ k.user q
  pub core : k'.core_in_kernel ≡ k.core_in_kernel
  pub cores : k'.core_to_proc_idx ≡ k.core_to_proc_idx

-- `proc_try_recv` leaves a receiver that still waits as it is. Of one that has been served the system
-- call goes to its own memory, marked done; the entries below MAX_NPROCESS with its pid or its
-- sender's become runnable; no other entry and no other process's memory changes.
pub proc_try_recv_lem :
    (k : Kernel) (p : ℕ)
    → ((k.proc_set p).syscall.status ≡ pending) × (proc_try_recv p k ≡ k)
      ⊎ ((k.proc_set p).syscall.status ≢ pending) × Received k p (proc_try_recv p k)
unfolding proc_try_recv
proc_try_recv_lem k p = elim (Bool-cases ((k.proc_set p).syscall.status == pending)) [
  | inl waits ↦ inl (eq_of_== _ _ waits, rw waits)
  | inr served ↦
      let r = k.proc_set p in
      let copied = record (call (mmu_translate r.pid) k) { user = update k.user r.pid r.syscall } in
      let once = proc_set_runnable r.pid copied in
      inr (
        ne_of_== _ _ served,
        rw served (record {
          procs = λ i. ground (
            arith,
            proc_set_status_lem r.pid runnable copied i,
            proc_set_status_lem r.syscall.sender runnable once i,
          );
          own = ground (
            arith,
            user-proc_set_status r.pid runnable copied,
            user-proc_set_status r.syscall.sender runnable once,
          );
          others = λ q ne. ground (
            arith,
            user-proc_set_status r.pid runnable copied,
            user-proc_set_status r.syscall.sender runnable once,
          );
          core =
              core-proc_set_status r.syscall.sender runnable once
              ∙ core-proc_set_status r.pid runnable copied;
          cores =
              cores-proc_set_status r.syscall.sender runnable once
              ∙ cores-proc_set_status r.pid runnable copied;
        }),
      )
]

Received-Tried :
    (k : Kernel) (p : ℕ) (k' : Kernel)
    → p < max_nprocess
    → (k.proc_set p).pid ≢ 0
    → (k.proc_set p).syscall.type ≡ sys_recv
    → (k.proc_set p).syscall.status ≢ pending
    → IsWaiting k
    → Received k p k'
    → Tried k p k'
Received-Tried k p k' lt pid_ne recv not_pending waiting h = record {
  pids = λ i. ground (arith, h.procs i);
  moves = λ i. ground (arith, h.procs i);
  nobody = λ i e. ground (arith, h.procs i, waiting.served p);
  contexts = λ i. (ground (arith, h.procs i), ground (arith, h.procs i));
  calls = λ i. (ground (arith, h.procs i), ground (arith, h.procs i));
  waiting = record {
    sends = λ i e. ground (arith, h.procs i, waiting.sends i);
    served = λ i e ne. ground (arith, h.procs i, waiting.served i);
    named = λ i e. ground (arith, h.procs i, waiting.named i, waiting.served p);
  };
  done_runs = λ d. ground (arith, h.procs p);
  core = h.core;
  cores = h.cores;
}

pid_ne_of_pending :
    (k : Kernel) (p : ℕ)
    → IsWaiting k
    → (k.proc_set p).status ≡ pending_syscall
    → (k.proc_set p).pid ≢ 0
pid_ne_of_pending k p waiting waits e = ground (arith, waiting.named p)

proc_try_recv-Tried :
    (k : Kernel) (p : ℕ)
    → p < max_nprocess
    → (k.proc_set p).status ≡ pending_syscall
    → (k.proc_set p).syscall.type ≡ sys_recv
    → IsWaiting k
    → Tried k p (proc_try_recv p k)
proc_try_recv-Tried k p lt waits recv waiting = elim (proc_try_recv_lem k p) [
  | inl (idle, same) ↦ rw same (same-Tried k p waiting idle)
  | inr (served, h) ↦
      Received-Tried k p (proc_try_recv p k) lt (pid_ne_of_pending k p waiting waits) recv served
        waiting h
]

proc_try_send-Tried :
    (k : Kernel) (p : ℕ) (k' : Kernel)
    → (k.proc_set p).status ≡ pending_syscall
    → IsWaiting k
    → (k.proc_set p).syscall.type ≡ sys_send
    → proc_try_send p k ≡ some k'
    → Tried k p k'
proc_try_send-Tried k p k' waits waiting sends e = elim (proc_try_send_cases k p) [
  | inl (d, found, receives, sent) ↦
      let same : deliver d p k ≡ k' = cc in
      rw (← same)
        (deliver-Tried k p d waiting (pid_ne_of_pending k p waiting waits) sends receives.0)
  | inr (inl (d, found, not_waits, idle)) ↦
      let same : k ≡ k' = cc in
      subst (Tried k p) same (same-Tried k p waiting (waiting.sends p sends))
  | inr (inr (nobody, stopped)) ↦ cc
]

-- An attempt that the kernel accepts, for a waiting process of the first MAX_NPROCESS entries, keeps the
-- table of system calls well formed and every pid, program counter and register; a status is kept or
-- becomes runnable, and that of an entry with no pid is kept; and if the process's own call is done
-- afterwards, the process is runnable.
pub proc_try_syscall-Tried :
    (k : Kernel) (p : ℕ) (k' : Kernel)
    → p < max_nprocess
    → (k.proc_set p).status ≡ pending_syscall
    → IsWaiting k
    → proc_try_syscall p k ≡ some k'
    → Tried k p k'
unfolding proc_try_syscall
proc_try_syscall-Tried k p k' lt waits waiting e =
    let type = (k.proc_set p).syscall.type in
    elim (Bool-cases (type == sys_recv)) [
      | inl recv ↦
          let e' : some (proc_try_recv p k) ≡ some k' = (rw recv at e) in
          let same : proc_try_recv p k ≡ k' = cc in
          rw (← same) (proc_try_recv-Tried k p lt waits (eq_of_== type sys_recv recv) waiting)
      | inr not_recv ↦ elim (Bool-cases (type == sys_send)) [
        | inl send ↦
            proc_try_send-Tried k p k' waits waiting (eq_of_== type sys_send send)
              (rw (not_recv, send) at e)
        | inr other ↦ let e' : none ≡ some k' = (rw (not_recv, other) at e) in cc
      ]
    ]
