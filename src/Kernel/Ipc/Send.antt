-- ===== src/Kernel/Ipc/Send.antt =====
-- What `proc_try_send` does, on every branch.
use egos_upstream.Base.{
  ℕ, ◌<◌, ◌≡◌, ◌≢◌, ap, ◌⊎◌, inl, inr, false, ◌&&◌, ◌||◌, none, some, arith, ◌==◌, Bool-cases,
  Option-cases, find_from, IsFirst, find_from-none, find_from-some,
}
use egos_upstream.Kernel.State.{
  max_nprocess, gpid_all, sys_recv, pending, done, Process, Kernel, syscall_msg_len,
}
use egos_upstream.Kernel.Ipc.{deliver, try_send_at, is_dst, proc_try_send}

-- The receiver waits for a message, from this sender or from anyone.
abbrev pub Waits : Process → Process → Type 0
Waits dst s =
    (dst.syscall.type ≡ sys_recv)
    × (dst.syscall.status ≡ pending)
    × ((dst.syscall.sender ≡ gpid_all) ⊎ (dst.syscall.sender ≡ s.pid))

-- The first entry below MAX_NPROCESS that is in use under the receiver's pid.
abbrev pub IsReceiver : Kernel → ℕ → ℕ → Type 0
IsReceiver k sender d = IsFirst max_nprocess 0 (is_dst k.proc_set sender) d

-- The two guards of the loop decide whether the receiver waits.
pub try_send_at-Waits :
    (k : Kernel) (sender d : ℕ)
    → (Waits (k.proc_set d) (k.proc_set sender) × (try_send_at d sender k ≡ deliver d sender k))
      ⊎ ((Waits (k.proc_set d) (k.proc_set sender) → ⊥) × (try_send_at d sender k ≡ k))
unfolding try_send_at
try_send_at-Waits k sender d =
    let r = (k.proc_set d).syscall in
    elim (Bool-cases ((r.type == sys_recv) && (r.status == pending))) [
      | inl waiting ↦
          elim (Bool-cases ((r.sender == gpid_all) || (r.sender == (k.proc_set sender).pid))) [
            | inl from ↦ inl ((ground arith, ground arith, ground arith), rw (waiting, from))
            | inr other ↦ inr (λ w. ground arith, rw (waiting, other))
          ]
      | inr idle ↦ inr (λ w. ground arith, rw idle)
    ]

-- The branches of `proc_try_send`.
pub proc_try_send_cases :
    (k : Kernel) (sender : ℕ)
    → ((d : ℕ) × IsReceiver k sender d
        × Waits (k.proc_set d) (k.proc_set sender)
        × (proc_try_send sender k ≡ some (deliver d sender k)))
      ⊎ ((d : ℕ) × IsReceiver k sender d
          × (Waits (k.proc_set d) (k.proc_set sender) → ⊥)
          × (proc_try_send sender k ≡ some k))
      ⊎ (((d : ℕ) → d < max_nprocess → is_dst k.proc_set sender d ≡ false)
          × (proc_try_send sender k ≡ none))
unfolding proc_try_send
proc_try_send_cases k sender =
    elim (Option-cases (find_from max_nprocess 0 (is_dst k.proc_set sender))) [
      | inl e ↦ inr (
          inr (
            λ d lt.
                find_from-none max_nprocess 0 (is_dst k.proc_set sender) e d (omega arith)
                  (omega arith),
            rw e,
          ))
      | inr (d, e) ↦
          let found = find_from-some max_nprocess 0 (is_dst k.proc_set sender) d e in
          elim (try_send_at-Waits k sender d) [
            | inl (waits, sent) ↦ inl (d, found, waits, rw e (ap some sent))
            | inr (not_waits, same) ↦ inr (inl (d, found, not_waits, rw e (ap some same)))
          ]
    ]

-- The message of `sender` has come to the entry `d`, and nothing else has changed: the receiver's call
-- is done, with the sender's pid and the bytes of the message, and the sender's own page says done.
pub record Delivered (k : Kernel) (sender d : ℕ) (k' : Kernel) : Type 0 where
  pub status : (k'.proc_set d).syscall.status ≡ done
  pub from : (k'.proc_set d).syscall.sender ≡ (k.proc_set sender).pid
  pub message :
      (i : ℕ)
      → i < syscall_msg_len
      → (k'.proc_set d).syscall.content i ≡ (k.proc_set sender).syscall.content i
  pub same_call :
      ((k'.proc_set d).syscall.type ≡ (k.proc_set d).syscall.type)
      × ((k'.proc_set d).syscall.receiver ≡ (k.proc_set d).syscall.receiver)
  pub same_process :
      ((k'.proc_set d).pid ≡ (k.proc_set d).pid)
      × ((k'.proc_set d).status ≡ (k.proc_set d).status)
      × ((k'.proc_set d).mepc ≡ (k.proc_set d).mepc)
      × ((k'.proc_set d).saved_registers ≡ (k.proc_set d).saved_registers)
  pub others : (i : ℕ) → i ≢ d → k'.proc_set i ≡ k.proc_set i
  pub told :
      k'.user (k.proc_set sender).pid ≡ record (k.user (k.proc_set sender).pid) { status = done }
  pub users : (q : ℕ) → q ≢ (k.proc_set sender).pid → k'.user q ≡ k.user q

deliver-Delivered : (k : Kernel) (sender d : ℕ) → Delivered k sender d (deliver d sender k)
unfolding deliver
deliver-Delivered k sender d = record {
  status = ground arith;
  from = ground arith;
  message = λ i lt. ground arith;
  same_call = (ground arith, ground arith);
  same_process = (ground arith, ground arith, ground arith, ground arith);
  others = λ i ne. ground arith;
  told = ground arith;
  users = λ q ne. ground arith;
}

-- `proc_try_send` hands the message to a receiver that waits for it: the receiver's system call
-- becomes done with the sender's pid and the SYSCALL_MSG_LEN bytes of the message, the sender's own
-- copy becomes done, and no other entry and no other process's memory changes. If the receiver does
-- not wait for it, nothing changes. If there is no such process the kernel stops.
pub proc_try_send_lem :
    (k : Kernel) (sender : ℕ)
    → ((d : ℕ) × IsReceiver k sender d
        × Waits (k.proc_set d) (k.proc_set sender)
        × ((k' : Kernel) × (proc_try_send sender k ≡ some k') × Delivered k sender d k'))
      ⊎ ((d : ℕ) × IsReceiver k sender d
          × (Waits (k.proc_set d) (k.proc_set sender) → ⊥)
          × (proc_try_send sender k ≡ some k))
      ⊎ (((d : ℕ) → d < max_nprocess → is_dst k.proc_set sender d ≡ false)
          × (proc_try_send sender k ≡ none))
proc_try_send_lem k sender = elim (proc_try_send_cases k sender) [
  | inl (d, found, waits, sent) ↦
      inl (d, found, waits, (deliver d sender k, sent, deliver-Delivered k sender d))
  | inr (inl (d, found, idle, same)) ↦ inr (inl (d, found, idle, same))
  | inr (inr (nobody, stopped)) ↦ inr (inr (nobody, stopped))
]
