-- ===== src/Kernel/Entry/Attempt.antt =====
-- The first attempt at a system call, and what settling comes to after it.
use egos_upstream.Base.{
  ℕ, ◌<◌, ◌≡◌, refl, sym, ap, ◌∙◌, ◌≢◌, ◌⊎◌, inl, inr, false, none, some, arith, ◌==◌, eq_of_==,
  ne_of_==, Bool-cases,
}
use egos_upstream.Kernel.State.{
  max_nprocess, running, pending_syscall, pending, sys_send, sys_recv, Kernel, curr_proc_idx, curr,
  curr_status,
}
use egos_upstream.Kernel.Ipc.{is_dst, deliver, proc_try_syscall}
use egos_upstream.Kernel.Ipc.Send.{proc_try_send_cases}
use egos_upstream.Kernel.Ipc.Recv.{proc_try_recv_lem, proc_try_syscall-Tried}
use egos_upstream.Kernel.Ipc.Stuck.{receives, sends, IsQuiet, receive_of, send_of}
use egos_upstream.Kernel.Scheduler.Standing.{Calm, stuck, Standing, calm, deliver-Landed, matched}
use egos_upstream.Kernel.Scheduler.Yield.{IsValid}
use egos_upstream.Kernel.Entry.{accept_syscall}
use egos_upstream.Kernel.Entry.Handled.{accept_syscall-IsValid, Tried-IsValid}
use egos_upstream.Kernel.Scheduler.Settles.{AllStanding, Settles, AllStanding-Settles}
use egos_upstream.Kernel.Entry.Accepted.{accept_syscall-Accepted, Accepted-Standing}

-- The call that the current process has made, when the kernel does not accept it.
abbrev pub IsRefusable : Kernel → Type 0
IsRefusable a =
    ((curr a).syscall.type ≢ sys_recv)
    × ((curr a).syscall.type ≡ sys_send
        → (d : ℕ) → d < max_nprocess
        → is_dst a.proc_set (curr_proc_idx a) d ≡ false)

-- After the attempt at a call that the kernel has accepted, every process in a call has a standing.
abbrev pub Attempted : Kernel → Type 0
Attempted a =
    ((proc_try_syscall (curr_proc_idx a) a ≡ none) × IsRefusable a)
    ⊎ ((k1 : Kernel) × (proc_try_syscall (curr_proc_idx a) a ≡ some k1) × AllStanding k1)

attempt_recv :
    (a : Kernel)
    → (curr a).syscall.type ≡ sys_recv
    → (curr a).syscall.status ≡ pending
    → ((q : ℕ)
        → q < max_nprocess
        → q ≢ curr_proc_idx a
        → (a.proc_set q).status ≡ pending_syscall
        → Standing a.proc_set (curr_proc_idx a) q)
    → Attempted a
attempt_recv a type status others = elim (proc_try_recv_lem a (curr_proc_idx a)) [
  | inl (waits, same) ↦ inr (
    a,
    receive_of a (curr_proc_idx a) type ∙ ap some same,
    λ q lq e. elim (Bool-cases (q == curr_proc_idx a)) [
      | inl here ↦ rw (eq_of_== q (curr_proc_idx a) here) (calm (stuck (receives type status)))
      | inr other ↦ others q lq (ne_of_== q (curr_proc_idx a) other) e
    ],
  )
  | inr (not_waits, h) ↦ absurd (not_waits status)
]

-- For a sender nobody else has come to wait.
still_stuck :
    (a : Kernel) (q : ℕ)
    → (curr a).syscall.type ≡ sys_send
    → Standing a.proc_set (curr_proc_idx a) q
    → Calm a.proc_set q
still_stuck a q type (calm s) = s
still_stuck a q type (matched type' ne first waits) = absurd (ground (arith, waits.0))

deliver-status :
    (a : Kernel) (d p q : ℕ) → ((deliver d p a).proc_set q).status ≡ (a.proc_set q).status
unfolding deliver
deliver-status a d p q = ground arith

attempt_send :
    (a : Kernel)
    → IsValid a
    → curr_status a ≡ pending_syscall
    → (curr a).syscall.type ≡ sys_send
    → (curr a).syscall.status ≡ pending
    → ((q : ℕ)
        → q < max_nprocess
        → q ≢ curr_proc_idx a
        → (a.proc_set q).status ≡ pending_syscall
        → Standing a.proc_set (curr_proc_idx a) q)
    → Attempted a
attempt_send a v waiting type status others = elim (proc_try_send_cases a (curr_proc_idx a)) [
  | inl (d, first, waits, e) ↦
      let l =
        deliver-Landed a d (curr_proc_idx a) v.waiting v.numbered v.in_table waiting type
          (λ s. ground arith) first waits in
      inr (
        deliver d (curr_proc_idx a) a,
        send_of a (curr_proc_idx a) type ∙ e,
        λ q lq s. elim (Bool-cases (q == curr_proc_idx a)) [
          | inl here ↦ rw (eq_of_== q (curr_proc_idx a) here) (calm (stuck l.mine))
          | inr other ↦ calm (
              l.all q (
                calm (
                  still_stuck a q type (
                    others q lq (ne_of_== q (curr_proc_idx a) other)
                      (sym (deliver-status a d (curr_proc_idx a) q) ∙ s)))))
        ],
      )
  | inr (inl (d, first, idle, e)) ↦ inr (
    a,
    send_of a (curr_proc_idx a) type ∙ e,
    λ q lq s. elim (Bool-cases (q == curr_proc_idx a)) [
      | inl here ↦
          rw (eq_of_== q (curr_proc_idx a) here)
            (calm (stuck (sends d type (λ x. ground arith) first idle)))
      | inr other ↦ others q lq (ne_of_== q (curr_proc_idx a) other) s
    ],
  )
  | inr (inr (nobody, e)) ↦
      inl (send_of a (curr_proc_idx a) type ∙ e, (λ x. ground arith, λ x d lt. nobody d lt))
]

others-Standing :
    (hartid : ℕ) (k : Kernel)
    → IsValid k
    → IsQuiet k.proc_set
    → curr_status k ≡ running
    → (q : ℕ) → q < max_nprocess
    → q ≢ curr_proc_idx (accept_syscall hartid k)
    → ((accept_syscall hartid k).proc_set q).status ≡ pending_syscall
    → Standing (accept_syscall hartid k).proc_set (curr_proc_idx (accept_syscall hartid k)) q
others-Standing hartid k v quiet runs =
    let a = accept_syscall hartid k in
    let h = accept_syscall-Accepted hartid k v runs in
    rw h.current (λ q lq ne e. Accepted-Standing k a q h ne (quiet q lq (h.asleep q lq ne e)))

-- The first attempt at the call of the current process, from a quiet kernel.
accept_syscall-Attempted :
    (hartid : ℕ) (k : Kernel)
    → IsValid k
    → IsQuiet k.proc_set
    → curr_status k ≡ running
    → Attempted (accept_syscall hartid k)
unfolding proc_try_syscall
accept_syscall-Attempted hartid k v quiet runs =
    let a = accept_syscall hartid k in
    let (v', waits) = accept_syscall-IsValid hartid k v runs in
    let h = accept_syscall-Accepted hartid k v runs in
    let status : (curr a).syscall.status ≡ pending = ap (λ x. x.status) h.fresh in
    let others = others-Standing hartid k v quiet runs in
    elim (Bool-cases ((curr a).syscall.type == sys_recv)) [
      | inl recv ↦ attempt_recv a (eq_of_== _ _ recv) status others
      | inr not_recv ↦ elim (Bool-cases ((curr a).syscall.type == sys_send)) [
        | inl send ↦ attempt_send a v' waits (eq_of_== _ _ send) status others
        | inr neither ↦ inl (
          rw (not_recv, neither) refl,
          (ne_of_== _ _ not_recv, λ e. absurd (ne_of_== _ _ neither e)),
        )
      ]
    ]

-- A system call of the running process, from a valid and quiet kernel, is refused at the first attempt
-- only if it is neither a send nor a receive, or sends to a process that does not exist. Otherwise every
-- system call that can go further does: settling is never refused nor out of fuel, and the kernel is
-- quiet again.
pub accept_syscall-Settles :
    (hartid : ℕ) (k : Kernel)
    → IsValid k
    → IsQuiet k.proc_set
    → curr_status k ≡ running
    → ((proc_try_syscall (curr_proc_idx (accept_syscall hartid k)) (accept_syscall hartid k) ≡ none)
        × IsRefusable (accept_syscall hartid k))
      ⊎ ((k1 : Kernel) × (proc_try_syscall
              (curr_proc_idx (accept_syscall hartid k))
              (accept_syscall hartid k)
            ≡ some k1)
          × Settles k1)
accept_syscall-Settles hartid k v quiet runs =
    let a = accept_syscall hartid k in
    let (v', waits) = accept_syscall-IsValid hartid k v runs in
    elim (accept_syscall-Attempted hartid k v quiet runs) [
      | inl refused ↦ inl refused
      | inr (k1, e, standing) ↦
          let t = proc_try_syscall-Tried a (curr_proc_idx a) k1 v'.in_table waits v'.waiting e in
          inr (k1, e, AllStanding-Settles k1 (Tried-IsValid a (curr_proc_idx a) k1 v' t) standing)
    ]
