-- ===== src/Kernel/Scheduler/Quiet.antt =====
-- Settling the system calls leaves no process with a call that could go further.
use egos_upstream.Base.{
  ℕ, zero, suc, ◌+◌, ◌-◌, ◌%◌, ◌≤◌, ◌<◌, ◌≡◌, refl, sym, ap, ◌∙◌, ◌≢◌, ◌⊎◌, inl, inr, Option, some,
  arith, ◌==◌, if◌then◌else◌, eq_of_==, ne_of_==, Bool-cases, for_range_inv,
}
use egos_upstream.Kernel.State.{
  max_nprocess, pending_syscall, is_pending, done, Kernel, curr_proc_idx,
}
use egos_upstream.Kernel.Ipc.Recv.{IsWaiting, Tried, proc_try_syscall-Tried}
use egos_upstream.Kernel.Ipc.Stuck.{StuckAt, IsQuiet}
use egos_upstream.Kernel.Scheduler.{
  rotated, clear_body, clear_pass, clear_pending_syscalls, ended, out_of_fuel,
}
use egos_upstream.Kernel.Scheduler.Clear.{pending_of_is_pending}
use egos_upstream.Kernel.Scheduler.RoundRobin.{rotated_back}
use egos_upstream.Kernel.Scheduler.Standing.{
  stuck, Standing, calm, IsNumbered, Advanced, attempt-Advanced,
}

-- Before round `i` of a pass: the processes met so far are stuck, and the others have a standing.
pub record AtRound (c i : ℕ) (k : Kernel) : Type 0 where
  pub current : curr_proc_idx k ≡ c
  pub waiting : IsWaiting k
  pub numbered : IsNumbered k.proc_set
  pub early :
      (q : ℕ)
      → q < max_nprocess
      → (k.proc_set q).status ≡ pending_syscall
      → (q + 15 - c) % 16 + 1 < i
      → StuckAt k.proc_set q
  pub late :
      (q : ℕ) → q < max_nprocess → (k.proc_set q).status ≡ pending_syscall → Standing k.proc_set c q

-- An entry other than that of round `i` which is met by then is met before.
before_round :
    (c i : ℕ) (m : Kernel) (q : ℕ)
    → q ≢ rotated m i
    → c < max_nprocess
    → q < max_nprocess
    → curr_proc_idx m ≡ c
    → (q + 15 - c) % 16 + 1 < i + 1
    → (q + 15 - c) % 16 + 1 < i
before_round c i m q ne lc lq current near = elim (Bool-cases ((q + 15 - c) % 16 + 1 == i)) [
  | inl now ↦
      let same : (q + 15 - curr_proc_idx m) % 16 + 1 ≡ i = rw current (eq_of_== _ _ now) in
      absurd (ne (sym (ap (rotated m) (sym same) ∙ rotated_back m q (rw current lc) lq)))
  | inr other ↦ omega (arith, ne_of_== _ _ other)
]

-- A round that meets entry `p`, after which it is stuck if it still waits.
next-AtRound :
    (c i : ℕ) (m : Kernel) (p : ℕ) (k' : Kernel)
    → c < max_nprocess
    → i ≤ max_nprocess
    → p ≡ rotated m i
    → AtRound c i m
    → Tried m p k'
    → Advanced m c p k'
    → AtRound c (i + 1) k'
next-AtRound c i m p k' lc hi here r t a = record {
  current =
      ap (λ x. k'.core_to_proc_idx x) t.core ∙ ap (λ f. f m.core_in_kernel) t.cores ∙ r.current;
  waiting = t.waiting;
  numbered = λ q le ne. ground (arith, t.pids q, r.numbered q le);
  early = λ q lq e near. elim (Bool-cases (q == p)) [
    | inl same ↦ let at_p = eq_of_== q p same in rw at_p (a.mine (rw at_p at e))
    | inr other ↦
        let q_ne : q ≢ p = ne_of_== q p other in
        let was : (m.proc_set q).status ≡ pending_syscall = ground (arith, t.moves q) in
        a.others q lq (λ same. omega (arith, ap (λ x. (x + 15 - c) % 16) same))
          (r.early q lq was (before_round c i m q (rw here at q_ne) lc lq r.current near))
  ];
  late = λ q lq e. a.standing q lq e (r.late q lq (ground (arith, t.moves q)));
}

-- A pass goes through, and its rounds keep that.
abbrev Rounds : ℕ → ℕ → Option (ℕ × Kernel) → Type 0
Rounds c i o = (r : ℕ × Kernel) × (o ≡ some r) × AtRound c i r.1

idle-AtRound :
    (c i : ℕ) (m : Kernel)
    → c < max_nprocess
    → (m.proc_set (rotated m i)).status ≢ pending_syscall
    → AtRound c i m
    → AtRound c (i + 1) m
idle-AtRound c i m lc idle r = record {
  current = r.current;
  waiting = r.waiting;
  numbered = r.numbered;
  early = λ q lq e near.
      r.early q lq e (before_round c i m q (λ same. idle (rw (← same) e)) lc lq r.current near);
  late = r.late;
}

clear_body-Rounds :
    (c i : ℕ) (o : Option (ℕ × Kernel))
    → c < max_nprocess
    → i ≤ max_nprocess
    → Rounds c i o
    → Rounds c (i + 1) (clear_body i o)
unfolding clear_body
clear_body-Rounds c i o lc hi ((progress, m), e, r) =
    let p = rotated m i in
    elim (Bool-cases (is_pending (m.proc_set p).status)) [
      | inl waits ↦
          let status = pending_of_is_pending _ waits in
          let (k', tried, a) =
            attempt-Advanced m c p r.waiting r.numbered (omega arith) status
              (r.late p (omega arith) status) in
          (
            ((if (k'.proc_set p).syscall.status == done then progress + 1 else progress), k'),
            rw (e, waits, tried) refl,
            next-AtRound c i m p k' lc hi refl r
                (proc_try_syscall-Tried m p k' (omega arith) status r.waiting tried) a,
          )
      | inr idle ↦
          ((progress, m), rw (e, idle) refl, idle-AtRound c i m lc (λ status. ground arith) r)
    ]

-- At the end of a pass the kernel is quiet, and so at the start of another.
AtRound-restart : (c : ℕ) (k : Kernel) → AtRound c (max_nprocess + 1) k → AtRound c 1 k
AtRound-restart c k r = record {
  current = r.current;
  waiting = r.waiting;
  numbered = r.numbered;
  early = λ q lq e near. absurd (omega arith);
  late = λ q lq e. calm (stuck (r.early q lq e (omega arith)));
}

clear_pass-Rounds :
    (c : ℕ) (k : Kernel)
    → c < max_nprocess
    → AtRound c 1 k
    → Rounds c (max_nprocess + 1) (clear_pass k)
unfolding clear_pass
clear_pass-Rounds c k lc r =
    for_range_inv (Rounds c) clear_body max_nprocess 1 (max_nprocess + 1)
      (λ i o lo hi h. clear_body-Rounds c i o lc (omega arith) h) (some (0, k)) refl
      ((0, k), refl, r)

-- What settling comes to from there.
pub record Quieted (k' : Kernel) : Type 0 where
  pub current : curr_proc_idx k' < max_nprocess
  pub waiting : IsWaiting k'
  pub numbered : IsNumbered k'.proc_set
  pub quiet : IsQuiet k'.proc_set

-- Unless the fuel runs out, the loop ends with a quiet kernel.
pub clear_pending_syscalls-Quieted :
    (fuel c : ℕ) (k : Kernel)
    → c < max_nprocess
    → AtRound c 1 k
    → (clear_pending_syscalls fuel k ≡ out_of_fuel)
      ⊎ ((k' : Kernel) × (clear_pending_syscalls fuel k ≡ ended k') × Quieted k')
unfolding clear_pending_syscalls
clear_pending_syscalls-Quieted zero c k lc r = inl refl
clear_pending_syscalls-Quieted (suc fuel) c k lc r =
    let ((progress, m), e, r') = clear_pass-Rounds c k lc r in
    elim (Bool-cases (progress == 0)) [
      | inl last ↦ inr (
        m,
        rw (e, clear_pending_syscalls, last) refl,
        record {
          current = rw (r'.current) lc;
          waiting = r'.waiting;
          numbered = r'.numbered;
          quiet = λ q lq status. r'.early q lq status (omega arith);
        },
      )
      | inr more ↦
          rw (e, clear_pending_syscalls, more)
            (clear_pending_syscalls-Quieted fuel c m lc (AtRound-restart c m r'))
    ]
