-- ===== src/Kernel/Ipc/Stuck.antt =====
-- System calls that cannot go further: a receiver that has no message yet, and a sender whose receiver does
-- not wait for it.
use egos_upstream.Base.{
  ℕ, ◌<◌, ◌≡◌, refl, sym, ap, ◌∙◌, ◌≢◌, inl, inr, some, arith, IsFirst, IsFirst-unique,
}
use egos_upstream.Kernel.State.{
  max_nprocess, pending_syscall, is_unused, sys_recv, sys_send, pending, done, Procs, Kernel,
}
use egos_upstream.Kernel.Ipc.{is_dst, proc_try_send, proc_try_recv, proc_try_syscall}
use egos_upstream.Kernel.Ipc.Send.{Waits, proc_try_send_lem}
use egos_upstream.Kernel.Ipc.Recv.{proc_try_recv_lem}

pub data StuckAt (procs : Procs) (p : ℕ) : Type 0 where
  receives :
      (procs p).syscall.type ≡ sys_recv → (procs p).syscall.status ≡ pending → StuckAt procs p
  sends :
      (d : ℕ)
      → (procs p).syscall.type ≡ sys_send
      → (procs p).syscall.status ≢ done
      → IsFirst max_nprocess 0 (is_dst procs p) d
      → (Waits (procs d) (procs p) → ⊥)
      → StuckAt procs p

-- No process in a system call can go further.
abbrev pub IsQuiet : Procs → Type 0
IsQuiet procs = (p : ℕ) → p < max_nprocess → (procs p).status ≡ pending_syscall → StuckAt procs p

-- A call that waits for a message tries to receive, and a call that sends tries to send.
pub receive_of :
    (k : Kernel) (p : ℕ)
    → (k.proc_set p).syscall.type ≡ sys_recv
    → proc_try_syscall p k ≡ some (proc_try_recv p k)
unfolding proc_try_syscall
receive_of k p type = rw type refl

pub send_of :
    (k : Kernel) (p : ℕ)
    → (k.proc_set p).syscall.type ≡ sys_send
    → proc_try_syscall p k ≡ proc_try_send p k
unfolding proc_try_syscall
send_of k p type = rw type refl

-- An attempt at such a call changes nothing.
pub StuckAt-proc_try_syscall :
    (k : Kernel) (p : ℕ)
    → StuckAt k.proc_set p
    → (proc_try_syscall p k ≡ some k) × ((k.proc_set p).syscall.status ≢ done)
StuckAt-proc_try_syscall k p (receives type status) = (
  elim (proc_try_recv_lem k p) [
    | inl (waits, same) ↦ receive_of k p type ∙ ap some same
    | inr (served, r) ↦ absurd (served status)
  ],
  ground arith,
)
StuckAt-proc_try_syscall k p (sends d type not_done first idle) = (
  elim (proc_try_send_lem k p) [
    | inl (d', first', waits, e) ↦
        let same = IsFirst-unique max_nprocess 0 (is_dst k.proc_set p) d' d first' first in
        absurd (idle (rw same at waits))
    | inr (inl (d', first', idle', e)) ↦ send_of k p type ∙ e
    | inr (inr (nobody, e)) ↦
        let none_there = nobody d (omega (arith, first.below)) in cc (first.hit)
  ],
  not_done,
)

-- A change of the process table that a system call does not see: pids, system calls and the entries in
-- use are kept, and no process comes to be in a system call.
pub record Unseen (before after : Procs) : Type 0 where
  pub pids : (i : ℕ) → (after i).pid ≡ (before i).pid
  pub calls : (i : ℕ) → (after i).syscall ≡ (before i).syscall
  pub used : (i : ℕ) → i < max_nprocess → is_unused (after i).status ≡ is_unused (before i).status
  pub asleep :
      (i : ℕ)
      → i < max_nprocess
      → (after i).status ≡ pending_syscall
      → (before i).status ≡ pending_syscall

-- The receiver of a call stays the same while pids and the entries in use do.
pub IsFirst-transfer :
    (before after : Procs) (p d : ℕ)
    → ((i : ℕ) → (after i).pid ≡ (before i).pid)
    → ((i : ℕ) → i < max_nprocess → is_unused (after i).status ≡ is_unused (before i).status)
    → (after p).syscall ≡ (before p).syscall
    → IsFirst max_nprocess 0 (is_dst before p) d
    → IsFirst max_nprocess 0 (is_dst after p) d
IsFirst-transfer before after p d pids used call first = record {
  above = first.above;
  below = first.below;
  hit = same d first.below ∙ first.hit;
  earliest = λ i lo lt. same i (omega (arith, first.below)) ∙ first.earliest i lo lt;
}
  where
    same : (i : ℕ) → i < max_nprocess → is_dst after p i ≡ is_dst before p i
    same i lt = rw (pids i, used i lt, call) refl

-- A call stays stuck when the process table changes as far as it does not see.
pub StuckAt-transfer :
    (before after : Procs) (p : ℕ)
    → ((i : ℕ) → (after i).pid ≡ (before i).pid)
    → ((i : ℕ) → i < max_nprocess → is_unused (after i).status ≡ is_unused (before i).status)
    → (after p).syscall ≡ (before p).syscall
    → ((d : ℕ) → d < max_nprocess → Waits (after d) (after p) → Waits (before d) (before p))
    → StuckAt before p
    → StuckAt after p
StuckAt-transfer before after p pids used call waits (receives type status) =
    receives (ap (λ c. c.type) call ∙ type) (ap (λ c. c.status) call ∙ status)
StuckAt-transfer before after p pids used call waits (sends d type not_done first idle) =
    sends d (ap (λ c. c.type) call ∙ type) (λ e. not_done (sym (ap (λ c. c.status) call) ∙ e))
      (IsFirst-transfer before after p d pids used call first) (λ w. idle (waits d first.below w))

pub Waits-Unseen :
    (before after : Procs) (d p : ℕ)
    → Unseen before after
    → Waits (after d) (after p)
    → Waits (before d) (before p)
Waits-Unseen before after d p u w = rw (u.calls d, u.pids p) at w

pub StuckAt-Unseen :
    (before after : Procs) (p : ℕ) → Unseen before after → StuckAt before p → StuckAt after p
StuckAt-Unseen before after p u s =
    StuckAt-transfer before after p u.pids u.used (u.calls p)
      (λ d lt w. Waits-Unseen before after d p u w) s

pub IsQuiet-Unseen : (before after : Procs) → Unseen before after → IsQuiet before → IsQuiet after
IsQuiet-Unseen before after u quiet p lt waits =
    StuckAt-Unseen before after p u (quiet p lt (u.asleep p lt waits))
