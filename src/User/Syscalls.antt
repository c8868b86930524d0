-- ===== src/User/Syscalls.antt =====
-- System calls on the side of a program (library/syscall/syscall.c): what they leave in the page of the
-- process for the kernel, and what they take from it.
use egos_upstream.Base.{
  ℕ, ◌+◌, ◌-◌, ◌*◌, ◌/◌, ◌%◌, ◌^◌, ◌≤◌, ◌<◌, ◌≡◌, refl, ap, ◌∙◌, ◌≢◌, inl, inr, Bool, not, ◌&&◌,
  some, arith, ltb, ◌==◌, if◌then◌else◌, IsFirst, IsFirst-unique,
}
use egos_upstream.Kernel.State.{
  max_nprocess, is_unused, running, sys_recv, sys_send, pending, done, Syscall, Kernel,
  curr_proc_idx, curr, curr_pid, curr_status, syscall_msg_len, memcpy,
}
use egos_upstream.Kernel.Ipc.{is_dst, deliver, proc_try_syscall}
use egos_upstream.Kernel.Ipc.Send.{Waits, proc_try_send_cases}
use egos_upstream.Kernel.Ipc.Stuck.{send_of}
use egos_upstream.Kernel.Scheduler.Yield.{IsValid}
use egos_upstream.Kernel.Entry.{accept_syscall}
use egos_upstream.Kernel.Entry.Accepted.{accept_syscall-Accepted}

-- The byte `j` of a status.
abbrev pub status_byte : ℕ → ℕ → ℕ
status_byte status j = status / 256 ^ j % 256

-- The byte `j` of the status behind `content`, after a memcpy of `size` bytes to `content`.
unfoldable pub overrun_byte : (ℕ → ℕ) → ℕ → ℕ → ℕ → ℕ
overrun_byte msg size status j =
    if ltb (syscall_msg_len + j) size then msg (syscall_msg_len + j) % 256 else status_byte status j

-- The status itself, of four bytes.
unfoldable pub overrun : (ℕ → ℕ) → ℕ → ℕ → ℕ
unfolding overrun_byte
overrun msg size status =
    overrun_byte msg size status 0
    + 256 * overrun_byte msg size status 1
    + 256 ^ 2 * overrun_byte msg size status 2
    + 256 ^ 3 * overrun_byte msg size status 3

-- The page when sys_send traps, and when sys_recv does. The memcpy of sys_send is not checked: a size
-- above SYSCALL_MSG_LEN goes on into the status, and from there on behind the struct.
unfoldable pub send_call : ℕ → (ℕ → ℕ) → ℕ → Syscall → Syscall
unfolding overrun
send_call receiver msg size sc = record sc {
  type = sys_send;
  receiver = receiver;
  status = overrun msg size pending;
  content = memcpy sc.content msg (if ltb syscall_msg_len size then syscall_msg_len else size);
}

unfoldable pub recv_call : ℕ → Syscall → Syscall
recv_call from sc = record sc { type = sys_recv; sender = from; status = pending }

-- Memory from `content` on: the array, the status, and what is `behind` the struct.
unfoldable pub from_content : (ℕ → ℕ) → Syscall → ℕ → ℕ
from_content behind sc i =
    if ltb i syscall_msg_len
    then sc.content i
    else if ltb i (syscall_msg_len + 4)
    then status_byte sc.status (i - syscall_msg_len)
    else behind (i - (syscall_msg_len + 4))

-- What sys_recv comes back with, when the page is not pending any more: the buffer and the sender. Its
-- memcpy is not checked either.
unfoldable pub recv_result : (ℕ → ℕ) → Syscall → (ℕ → ℕ) → ℕ → (ℕ → ℕ) × ℕ
unfolding from_content
recv_result behind sc buf size = (memcpy buf (from_content behind sc) size, sc.sender)

abbrev pub pid_test : Kernel → ℕ → ℕ → Bool
pid_test k pid i = ((k.proc_set i).pid == pid) && not (is_unused (k.proc_set i).status)

-- The first entry below MAX_NPROCESS that is in use with this pid.
abbrev pub HasPid : Kernel → ℕ → ℕ → Type 0
HasPid k pid d = IsFirst max_nprocess 0 (pid_test k pid) d

-- When the running process of a valid kernel has called sys_send with a message of at most SYSCALL_MSG_LEN
-- bytes for a process that waits in sys_recv, for this sender or for anyone, then the first attempt of the kernel hands it over: the
-- receiver's call is done, with the sender's pid and the message, and the sender's page says done.
pub send_call-delivered :
    (hartid : ℕ) (k : Kernel) (receiver size d i : ℕ) (msg : ℕ → ℕ) (sc : Syscall)
    → IsValid k
    → curr_status k ≡ running
    → k.user (curr_pid k) ≡ send_call receiver msg size sc
    → HasPid k receiver d
    → d ≢ curr_proc_idx k
    → Waits (k.proc_set d) (curr k)
    → size ≤ syscall_msg_len
    → i < size
    → (k1 : Kernel) × (proc_try_syscall
          (curr_proc_idx (accept_syscall hartid k))
          (accept_syscall hartid k)
        ≡ some k1)
      × ((k1.proc_set d).syscall.status ≡ done)
      × ((k1.proc_set d).syscall.sender ≡ curr_pid k)
      × ((k1.proc_set d).syscall.content i ≡ msg i)
      × ((k1.user (curr_pid k)).status ≡ done)
unfolding send_call deliver
send_call-delivered hartid k receiver size d i msg sc v runs call first ne waits fits lt =
    let a = accept_syscall hartid k in
    let h = accept_syscall-Accepted hartid k v runs in
    let fresh : (curr a).syscall ≡ record (send_call receiver msg size sc) { status = pending } =
      h.fresh ∙ ap (λ (c : Syscall). record c { status = pending }) call in
    let same_pid : (curr a).pid ≡ curr_pid k =
      h.pids (curr_proc_idx a) ∙ ap (λ c. (k.proc_set c).pid) h.current in
    let same_test : (j : ℕ)
        → j < max_nprocess
        → is_dst a.proc_set (curr_proc_idx a) j ≡ pid_test k receiver j =
      λ j lj. rw (h.pids j, h.used j lj, ap (λ c. c.receiver) fresh) refl in
    let first' : IsFirst max_nprocess 0 (is_dst a.proc_set (curr_proc_idx a)) d = record {
      above = first.above;
      below = first.below;
      hit = same_test d first.below ∙ first.hit;
      earliest = λ j lo lj. same_test j (omega (arith, first.below)) ∙ first.earliest j lo lj;
    } in
    let waits' : Waits (a.proc_set d) (curr a) = rw (h.calls d ne, same_pid) waits in
    elim (proc_try_send_cases a (curr_proc_idx a)) [
      | inl (d', found, w, e) ↦
          let same : d' ≡ d =
            IsFirst-unique max_nprocess 0 (is_dst a.proc_set (curr_proc_idx a)) d' d found first' in
          (
            deliver d (curr_proc_idx a) a,
            send_of a (curr_proc_idx a) (ap (λ c. c.type) fresh) ∙ (rw same at e),
            ground arith,
            ground (arith, same_pid),
            ground (arith, ap (λ (c : Syscall). c.content i) fresh),
            ground (arith, same_pid),
          )
      | inr (inl (d', found, idle, e)) ↦
          let same : d' ≡ d =
            IsFirst-unique max_nprocess 0 (is_dst a.proc_set (curr_proc_idx a)) d' d found first' in
          absurd ((rw same at idle) waits')
      | inr (inr (nobody, e)) ↦ let miss = nobody d first.below in cc (first'.hit)
    ]
