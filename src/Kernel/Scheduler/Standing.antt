-- ===== src/Kernel/Scheduler/Standing.antt =====
-- Where the processes in a system call stand, and what an attempt for one of them changes.
use egos_upstream.Base.{
  IsFirst-unique, ℕ, ◌≤◌, ◌<◌, ◌≡◌, sym, ap, ◌∙◌, ◌≢◌, inl, inr, false, some, arith, ◌==◌, eq_of_==,
  ne_of_==, Bool-cases, IsFirst,
}
use egos_upstream.Kernel.State.{
  max_nprocess, pending_syscall, is_unused, sys_recv, sys_send, pending, done, Procs, Kernel,
}
use egos_upstream.Kernel.Ipc.{is_dst, deliver, proc_try_recv, proc_try_syscall}
use egos_upstream.Kernel.Ipc.Send.{Waits, proc_try_send_cases}
use egos_upstream.Kernel.Ipc.Recv.{IsWaiting, Received, proc_try_recv_lem}
use egos_upstream.Kernel.Ipc.Stuck.{
  StuckAt, sends, receive_of, send_of, StuckAt-proc_try_syscall, StuckAt-transfer, IsFirst-transfer,
  Unseen, StuckAt-Unseen,
}

-- A process in a system call that no attempt of another can serve: it is stuck, or served already and
-- still asleep, with a sender that is in use.
pub data Calm (procs : Procs) (p : ℕ) : Type 0 where
  stuck : StuckAt procs p → Calm procs p
  served :
      (procs p).syscall.type ≡ sys_recv
      → (procs p).syscall.status ≢ pending
      → ((i : ℕ)
          → i < max_nprocess
          → (procs i).pid ≡ (procs p).syscall.sender
          → is_unused (procs i).status ≡ false)
      → Calm procs p

-- Where a process in a system call stands: calm, or a sender for which entry `c` waits.
pub data Standing (procs : Procs) (c p : ℕ) : Type 0 where
  calm : Calm procs p → Standing procs c p
  matched :
      (procs p).syscall.type ≡ sys_send
      → (procs p).syscall.status ≢ done
      → IsFirst max_nprocess 0 (is_dst procs p) c
      → Waits (procs c) (procs p)
      → Standing procs c p

-- A process stands at the entry of its pid.
abbrev pub IsNumbered : Procs → Type 0
IsNumbered procs = (i : ℕ) → i ≤ max_nprocess → (procs i).pid ≢ 0 → (procs i).pid ≡ i

-- What an attempt for entry `p` does to where the processes stand.
pub record Advanced (m : Kernel) (c p : ℕ) (k' : Kernel) : Type 0 where
  pub mine : (k'.proc_set p).status ≡ pending_syscall → StuckAt k'.proc_set p
  pub others : (q : ℕ) → q < max_nprocess → q ≢ c → StuckAt m.proc_set q → StuckAt k'.proc_set q
  pub standing :
      (q : ℕ)
      → q < max_nprocess
      → (k'.proc_set q).status ≡ pending_syscall
      → Standing m.proc_set c q
      → Standing k'.proc_set c q

same-Advanced : (m : Kernel) (c p : ℕ) → StuckAt m.proc_set p → Advanced m c p m
same-Advanced m c p s = record { mine = λ e. s; others = λ q lt ne t. t; standing = λ q lt e t. t }

Calm-Unseen : (before after : Procs) (p : ℕ) → Unseen before after → Calm before p → Calm after p
Calm-Unseen before after p u (stuck s) = stuck (StuckAt-Unseen before after p u s)
Calm-Unseen before after p u (served type ne used) =
    served (ap (λ x. x.type) (u.calls p) ∙ type) (rw (u.calls p) ne)
      (λ i li e. u.used i li ∙ used i li (sym (u.pids i) ∙ e ∙ ap (λ x. x.sender) (u.calls p)))

pub Standing-Unseen :
    (before after : Procs) (c p : ℕ)
    → Unseen before after
    → Standing before c p
    → Standing after c p
Standing-Unseen before after c p u (calm s) = calm (Calm-Unseen before after p u s)
Standing-Unseen before after c p u (matched type ne first w) =
    matched (ap (λ x. x.type) (u.calls p) ∙ type) (rw (u.calls p) ne)
      (IsFirst-transfer before after p c u.pids u.used (u.calls p) first)
      (rw (u.calls c, u.pids p) w)

-- A wake-up is not seen by the calls that go on.
Received-Unseen :
    (m : Kernel) (p : ℕ) (k' : Kernel)
    → IsWaiting m
    → IsNumbered m.proc_set
    → p < max_nprocess
    → (m.proc_set p).status ≡ pending_syscall
    → ((i : ℕ)
        → i < max_nprocess
        → (m.proc_set i).pid ≡ (m.proc_set p).syscall.sender
        → is_unused (m.proc_set i).status ≡ false)
    → Received m p k'
    → Unseen m.proc_set k'.proc_set
Received-Unseen m p k' waiting numbered lt waits used h = record {
  pids = λ i. ground (arith, h.procs i);
  calls = λ i. ground (arith, h.procs i);
  used = λ i li. ground (
    arith,
    h.procs i,
    used i li,
    numbered i (omega arith),
    numbered p (omega arith),
    waiting.named p,
  );
  asleep = λ i li e. ground (arith, h.procs i);
}

Received-Advanced :
    (m : Kernel) (c p : ℕ) (k' : Kernel)
    → p < max_nprocess
    → Unseen m.proc_set k'.proc_set
    → Received m p k'
    → Advanced m c p k'
Received-Advanced m c p k' lt u h = record {
  mine = λ e. absurd (ground (arith, h.procs p));
  others = λ q lq ne s. StuckAt-Unseen m.proc_set k'.proc_set q u s;
  standing = λ q lq e s. Standing-Unseen m.proc_set k'.proc_set c q u s;
}

-- A delivery to entry `c` leaves its sender stuck, and every process in a system call calm.
pub record Landed (m : Kernel) (c p : ℕ) (k' : Kernel) : Type 0 where
  pub mine : StuckAt k'.proc_set p
  pub others : (q : ℕ) → q ≢ c → StuckAt m.proc_set q → StuckAt k'.proc_set q
  pub all : (q : ℕ) → Standing m.proc_set c q → Calm k'.proc_set q

pub deliver-Landed :
    (m : Kernel) (c p : ℕ)
    → IsWaiting m
    → IsNumbered m.proc_set
    → p < max_nprocess
    → (m.proc_set p).status ≡ pending_syscall
    → (m.proc_set p).syscall.type ≡ sys_send
    → (m.proc_set p).syscall.status ≢ done
    → IsFirst max_nprocess 0 (is_dst m.proc_set p) c
    → Waits (m.proc_set c) (m.proc_set p)
    → Landed m c p (deliver c p m)
unfolding deliver
deliver-Landed m c p waiting numbered lt status type ne first w = record {
  mine = now_stuck p p_ne type ne first;
  others = moved;
  all = land;
}
  where
    k' : Kernel
    k' = deliver c p m

    p_ne : p ≢ c
    p_ne e = ground arith

    pid_kept : (i : ℕ) → (k'.proc_set i).pid ≡ (m.proc_set i).pid
    pid_kept i = ground arith

    unused_kept :
        (i : ℕ)
        → i < max_nprocess
        → is_unused (k'.proc_set i).status ≡ is_unused (m.proc_set i).status
    unused_kept i li = ground arith

    call_kept : (i : ℕ) → i ≢ c → (k'.proc_set i).syscall ≡ (m.proc_set i).syscall
    call_kept i i_ne = ground arith

    now_done : (k'.proc_set c).syscall.status ≡ done
    now_done = ground arith

    waits_kept :
        (q d : ℕ) → Waits (k'.proc_set d) (k'.proc_set q) → Waits (m.proc_set d) (m.proc_set q)
    waits_kept q d v = elim (Bool-cases (d == c)) [
      | inl here ↦ absurd (ground (arith, v.1, now_done, eq_of_== d c here))
      | inr other ↦ rw (call_kept d (ne_of_== d c other), pid_kept q) at v
    ]

    moved : (q : ℕ) → q ≢ c → StuckAt m.proc_set q → StuckAt k'.proc_set q
    moved q q_ne s =
        StuckAt-transfer m.proc_set k'.proc_set q pid_kept unused_kept (call_kept q q_ne)
          (λ d ld v. waits_kept q d v) s

    now_stuck :
        (q : ℕ)
        → q ≢ c
        → (m.proc_set q).syscall.type ≡ sys_send
        → (m.proc_set q).syscall.status ≢ done
        → IsFirst max_nprocess 0 (is_dst m.proc_set q) c
        → StuckAt k'.proc_set q
    now_stuck q q_ne sends_q ne_q first_q =
        sends c (ap (λ x. x.type) (call_kept q q_ne) ∙ sends_q) (rw (call_kept q q_ne) ne_q)
          (IsFirst-transfer m.proc_set k'.proc_set q c pid_kept unused_kept (call_kept q q_ne)
            first_q)
          (λ v. ground (arith, v.1, now_done))

    now_served : Calm k'.proc_set c
    now_served = served (ground arith) (ground (arith, now_done)) (λ i li e.
        ground (arith, numbered i (omega arith), numbered p (omega arith), waiting.named p))

    apart : (q : ℕ) → q ≢ c → Standing m.proc_set c q → Calm k'.proc_set q
    apart q q_ne (calm (stuck t)) = stuck (moved q q_ne t)
    apart q q_ne (calm (served type_q ne_q used)) =
        served (ap (λ x. x.type) (call_kept q q_ne) ∙ type_q) (rw (call_kept q q_ne) ne_q)
          (λ i li e.
            unused_kept i li
            ∙ used i li (sym (pid_kept i) ∙ e ∙ ap (λ x. x.sender) (call_kept q q_ne)))
    apart q q_ne (matched type_q ne_q first_q v) = stuck (now_stuck q q_ne type_q ne_q first_q)

    land : (q : ℕ) → Standing m.proc_set c q → Calm k'.proc_set q
    land q s = elim (Bool-cases (q == c)) [
      | inl here ↦ rw (eq_of_== q c here) now_served
      | inr other ↦ apart q (ne_of_== q c other) s
    ]

Landed-Advanced : (m : Kernel) (c p : ℕ) (k' : Kernel) → Landed m c p k' → Advanced m c p k'
Landed-Advanced m c p k' l = record {
  mine = λ e. l.mine;
  others = λ q lq ne s. l.others q ne s;
  standing = λ q lq e s. calm (l.all q s);
}

-- An attempt for a process in one of these positions is accepted.
pub attempt-Advanced :
    (m : Kernel) (c p : ℕ)
    → IsWaiting m
    → IsNumbered m.proc_set
    → p < max_nprocess
    → (m.proc_set p).status ≡ pending_syscall
    → Standing m.proc_set c p
    → (k' : Kernel) × (proc_try_syscall p m ≡ some k') × Advanced m c p k'
attempt-Advanced m c p waiting numbered lt status (calm (stuck s)) =
    (m, (StuckAt-proc_try_syscall m p s).0, same-Advanced m c p s)
attempt-Advanced m c p waiting numbered lt status (calm (served type ne used)) =
    elim (proc_try_recv_lem m p) [
      | inl (waits, same) ↦ absurd (ne waits)
      | inr (not_waits, h) ↦ (
        proc_try_recv p m,
        receive_of m p type,
        Received-Advanced m c p (proc_try_recv p m) lt
            (Received-Unseen m p (proc_try_recv p m) waiting numbered lt status used h) h,
      )
    ]
attempt-Advanced m c p waiting numbered lt status (matched type ne first w) =
    elim (proc_try_send_cases m p) [
      | inl (d, first', waits, e) ↦
          let same = IsFirst-unique max_nprocess 0 (is_dst m.proc_set p) d c first' first in
          (
            deliver c p m,
            send_of m p type ∙ (rw same at e),
            Landed-Advanced m c p (deliver c p m)
                (deliver-Landed m c p waiting numbered lt status type ne first w),
          )
      | inr (inl (d, first', idle, e)) ↦
          let same = IsFirst-unique max_nprocess 0 (is_dst m.proc_set p) d c first' first in
          absurd ((rw same at idle) w)
      | inr (inr (nobody, e)) ↦
          let none_there = nobody c (omega (arith, first.below)) in cc (first.hit)
    ]
