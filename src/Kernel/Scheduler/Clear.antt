-- ===== src/Kernel/Scheduler/Clear.antt =====
-- `clear_pending_syscalls` ends: a pass that makes progress leaves fewer processes in a system call.
use egos_upstream.Base.{
  ℕ, zero, suc, ◌+◌, ◌≤◌, ◌<◌, ◌≡◌, refl, ◌∙◌, ◌≢◌, ◌⊎◌, inl, inr, true, false, Option, none, some,
  arith, ◌==◌, if◌then◌else◌, eq_of_==, ne_of_==, Bool-cases, Option-cases, for_range_inv,
}
use egos_upstream.Kernel.State.{
  max_nprocess, ProcStatus, runnable, pending_syscall, sys_recv, sys_send, is_pending, done, Procs,
  Kernel, SameContexts,
}
use egos_upstream.Kernel.Ipc.{is_dst, proc_try_send, proc_try_recv, proc_try_syscall}
use egos_upstream.Kernel.Ipc.Send.{proc_try_send_cases}
use egos_upstream.Kernel.Ipc.Recv.{IsWaiting, SameCalls, Tried, proc_try_syscall-Tried}
use egos_upstream.Kernel.Scheduler.{
  rotated, clear_body, clear_pass, clear_pending_syscalls, Outcome, ended, fatal, out_of_fuel,
}

-- The entries below `n` that are in a system call.
unfoldable pub pendings : ℕ → Procs → ℕ
pendings zero procs = 0
pendings (suc n) procs = pendings n procs + (if is_pending (procs n).status then 1 else 0)

pub pendings-le : (n : ℕ) (procs : Procs) → pendings n procs ≤ n
unfolding pendings
pendings-le zero procs = omega arith
pendings-le (suc n) procs = ground (arith, pendings-le n procs)

-- Statuses only move to runnable.
abbrev pub Moves : Procs → Procs → Type 0
Moves before after =
    (i : ℕ) → ((after i).status ≡ (before i).status) ⊎ ((after i).status ≡ runnable)

-- An entry that no process has ever had keeps its status.
abbrev pub Nobody : Procs → Procs → Type 0
Nobody before after = (i : ℕ) → (before i).pid ≡ 0 → (after i).status ≡ (before i).status

pendings_mono :
    (n : ℕ) (before after : Procs) → Moves before after → pendings n after ≤ pendings n before
unfolding pendings
pendings_mono zero before after moves = omega arith
pendings_mono (suc n) before after moves =
    ground (arith, pendings_mono n before after moves, moves n)

pendings_lt :
    (n j : ℕ) (before after : Procs)
    → Moves before after
    → j < n
    → (before j).status ≡ pending_syscall
    → (after j).status ≡ runnable
    → pendings n after < pendings n before
unfolding pendings
pendings_lt zero j before after moves lt b a = absurd (omega arith)
pendings_lt (suc n) j before after moves lt b a = elim (Bool-cases (n == j)) [
  | inl here ↦ ground (arith, pendings_mono n before after moves, moves n, eq_of_== n j here)
  | inr other ↦ ground (arith, pendings_lt n j before after moves (ground arith) b a, moves n)
]

-- What part of a pass has done, from `k` to `k'`.
pub record Cleared (k : Kernel) (progress : ℕ) (k' : Kernel) : Type 0 where
  pub pids : (i : ℕ) → (k'.proc_set i).pid ≡ (k.proc_set i).pid
  pub moves : Moves k.proc_set k'.proc_set
  pub nobody : Nobody k.proc_set k'.proc_set
  pub contexts : SameContexts k.proc_set k'.proc_set
  pub calls : SameCalls k.proc_set k'.proc_set
  pub waiting : IsWaiting k'
  pub core : k'.core_in_kernel ≡ k.core_in_kernel
  pub cores : k'.core_to_proc_idx ≡ k.core_to_proc_idx
  pub served :
      (progress ≡ 0)
      ⊎ ((j : ℕ) × (j < max_nprocess)
          × ((k.proc_set j).status ≡ pending_syscall)
          × ((k'.proc_set j).status ≡ runnable))

-- A system call which the kernel does not accept: neither a send nor a receive, or a send to a pid that
-- no process below MAX_NPROCESS has.
abbrev pub IsUnknown : Procs → ℕ → Type 0
IsUnknown procs p =
    ((procs p).syscall.type ≢ sys_recv)
    × ((procs p).syscall.type ≡ sys_send → (d : ℕ) → d < max_nprocess → is_dst procs p d ≡ false)

-- Of the processes in a system call one has made a call that the kernel does not accept.
pub record Refused (procs : Procs) : Type 0 where
  pub entry : ℕ
  pub in_table : entry < max_nprocess
  pub waits : (procs entry).status ≡ pending_syscall
  pub unknown : IsUnknown procs entry

try_syscall-IsUnknown : (k : Kernel) (p : ℕ) → proc_try_syscall p k ≡ none → IsUnknown k.proc_set p
unfolding proc_try_syscall
try_syscall-IsUnknown k p e = elim (Bool-cases ((k.proc_set p).syscall.type == sys_recv)) [
  | inl recv ↦ let bad : some (proc_try_recv p k) ≡ none = (rw recv at e) in cc
  | inr not_recv ↦ elim (Bool-cases ((k.proc_set p).syscall.type == sys_send)) [
    | inl send ↦
        let e' : proc_try_send p k ≡ none = (rw (not_recv, send) at e) in
        elim (proc_try_send_cases k p) [
          | inl (d, found, waits, sent) ↦ cc
          | inr (inl (d, found, idle, same)) ↦ cc
          | inr (inr (nobody, stopped)) ↦ (ne_of_== _ _ not_recv, λ x. nobody)
        ]
    | inr neither ↦ (ne_of_== _ _ not_recv, λ x. absurd (ne_of_== _ _ neither x))
  ]
]

-- A call that is not accepted was not accepted before either: no process has come to an end.
IsUnknown-before :
    (before after : Procs) (p : ℕ)
    → ((i : ℕ) → (after i).pid ≡ (before i).pid)
    → Moves before after
    → SameCalls before after
    → IsUnknown after p
    → IsUnknown before p
IsUnknown-before before after p pids moves calls (no_recv, nobody) = (
  λ recv. no_recv ((calls p).0 ∙ recv),
  λ send d lt. ground (arith, nobody ((calls p).0 ∙ send) d lt, pids d, moves d, calls p),
)

Refused-before :
    (before after : Procs)
    → ((i : ℕ) → (after i).pid ≡ (before i).pid)
    → Moves before after
    → SameCalls before after
    → Refused after
    → Refused before
Refused-before before after pids moves calls bad = record {
  entry = bad.entry;
  in_table = bad.in_table;
  waits = ground (arith, moves bad.entry, bad.waits);
  unknown = IsUnknown-before before after bad.entry pids moves calls bad.unknown;
}

-- Either the kernel has stopped, or the pass has done what it should.
abbrev Passed : Kernel → Option (ℕ × Kernel) → Type 0
Passed k o =
    ((o ≡ none) × Refused k.proc_set) ⊎ ((r : ℕ × Kernel) × (o ≡ some r) × Cleared k r.0 r.1)

pub pending_of_is_pending : (s : ProcStatus) → is_pending s ≡ true → s ≡ pending_syscall
pending_of_is_pending s h = ground arith

Cleared-Tried :
    (k : Kernel) (progress : ℕ) (m : Kernel) (p : ℕ) (k' : Kernel)
    → p < max_nprocess
    → Cleared k progress m
    → (m.proc_set p).status ≡ pending_syscall
    → Tried m p k'
    → Cleared k (if (k'.proc_set p).syscall.status == done then progress + 1 else progress) k'
Cleared-Tried k progress m p k' lt c waits t = record {
  pids = λ i. t.pids i ∙ c.pids i;
  moves = λ i. ground (arith, c.moves i, t.moves i);
  nobody = λ i zero_pid. t.nobody i (c.pids i ∙ zero_pid) ∙ c.nobody i zero_pid;
  contexts = λ i. ((t.contexts i).0 ∙ (c.contexts i).0, (t.contexts i).1 ∙ (c.contexts i).1);
  calls = λ i. ((t.calls i).0 ∙ (c.calls i).0, (t.calls i).1 ∙ (c.calls i).1);
  waiting = t.waiting;
  core = t.core ∙ c.core;
  cores = t.cores ∙ c.cores;
  served = elim (Bool-cases ((k'.proc_set p).syscall.status == done)) [
    | inl done_now ↦ inr (p, lt, ground (arith, c.moves p), t.done_runs (eq_of_== _ _ done_now))
    | inr not_done ↦ elim c.served [
      | inl none_yet ↦ inl (rw not_done none_yet)
      | inr (j, lj, before, after) ↦ inr (j, lj, before, ground (arith, t.moves j))
    ]
  ];
}

clear_body-some :
    (k : Kernel) (i progress : ℕ) (m : Kernel)
    → Cleared k progress m
    → Passed k (clear_body i (some (progress, m)))
unfolding clear_body
clear_body-some k i progress m c =
    let p = rotated m i in
    elim (Bool-cases (is_pending (m.proc_set p).status)) [
      | inl waits ↦ elim (Option-cases (proc_try_syscall p m)) [
        | inl e ↦ inl (
          rw (waits, e),
          Refused-before k.proc_set m.proc_set c.pids c.moves c.calls (record {
            entry = p;
            in_table = omega arith;
            waits = pending_of_is_pending _ waits;
            unknown = try_syscall-IsUnknown m p e;
          }),
        )
        | inr (k', e) ↦ inr (
          ((if (k'.proc_set p).syscall.status == done then progress + 1 else progress), k'),
          rw (waits, e),
          Cleared-Tried k progress m p k' (omega arith) c (pending_of_is_pending _ waits) (
              proc_try_syscall-Tried m p k' (omega arith) (pending_of_is_pending _ waits) c.waiting
                e),
        )
      ]
      | inr idle ↦ inr ((progress, m), rw idle, c)
    ]

clear_body-Passed :
    (k : Kernel) (i : ℕ) (o : Option (ℕ × Kernel)) → Passed k o → Passed k (clear_body i o)
unfolding clear_body
clear_body-Passed k i o (inl (e, bad)) = inl (rw e refl, bad)
clear_body-Passed k i o (inr ((progress, m), e, c)) = rw e (clear_body-some k i progress m c)

clear_pass-Passed : (k : Kernel) → IsWaiting k → Passed k (clear_pass k)
unfolding clear_pass
clear_pass-Passed k waiting =
    for_range_inv (λ i o. Passed k o) clear_body max_nprocess 1 (max_nprocess + 1)
      (λ i o lo hi h. clear_body-Passed k i o h) (some (0, k)) refl
      (inr (
        (0, k),
        refl,
        record {
          pids = λ i. refl;
          moves = λ i. inl refl;
          nobody = λ i e. refl;
          contexts = λ i. (refl, refl);
          calls = λ i. (refl, refl);
          waiting = waiting;
          core = refl;
          cores = refl;
          served = inl refl;
        },
      ))

-- What the whole loop has done.
pub record Settled (k k' : Kernel) : Type 0 where
  pub pids : (i : ℕ) → (k'.proc_set i).pid ≡ (k.proc_set i).pid
  pub moves : Moves k.proc_set k'.proc_set
  pub nobody : Nobody k.proc_set k'.proc_set
  pub contexts : SameContexts k.proc_set k'.proc_set
  pub calls : SameCalls k.proc_set k'.proc_set
  pub waiting : IsWaiting k'
  pub core : k'.core_in_kernel ≡ k.core_in_kernel
  pub cores : k'.core_to_proc_idx ≡ k.core_to_proc_idx

-- The loop ends with the table settled, or the kernel has stopped because a process has made a system
-- call that it does not accept; it never runs out of fuel.
pub data Ends (k : Kernel) : Outcome Kernel → Type 0 where
  settles : {k' : Kernel} → Settled k k' → Ends k (ended k')
  stops : Refused k.proc_set → Ends k fatal

Moves-trans : (a b c : Procs) → Moves a b → Moves b c → Moves a c
Moves-trans a b c p q i = ground (arith, p i, q i)

Ends-Cleared :
    (k : Kernel) (progress : ℕ) (m : Kernel) (r : Outcome Kernel)
    → Cleared k progress m
    → Ends m r
    → Ends k r
Ends-Cleared k progress m (ended k') c (settles s) = settles (record {
  pids = λ i. s.pids i ∙ c.pids i;
  moves = Moves-trans k.proc_set m.proc_set k'.proc_set c.moves s.moves;
  nobody = λ i zero_pid. s.nobody i (c.pids i ∙ zero_pid) ∙ c.nobody i zero_pid;
  contexts = λ i. ((s.contexts i).0 ∙ (c.contexts i).0, (s.contexts i).1 ∙ (c.contexts i).1);
  calls = λ i. ((s.calls i).0 ∙ (c.calls i).0, (s.calls i).1 ∙ (c.calls i).1);
  waiting = s.waiting;
  core = s.core ∙ c.core;
  cores = s.cores ∙ c.cores;
})
Ends-Cleared k progress m fatal c (stops bad) =
    stops (Refused-before k.proc_set m.proc_set c.pids c.moves c.calls bad)
Ends-Cleared k progress m out_of_fuel c r = elim r [ ]

Cleared-Settled : (k : Kernel) (progress : ℕ) (k' : Kernel) → Cleared k progress k' → Settled k k'
Cleared-Settled k progress k' c = record {
  pids = c.pids;
  moves = c.moves;
  nobody = c.nobody;
  contexts = c.contexts;
  calls = c.calls;
  waiting = c.waiting;
  core = c.core;
  cores = c.cores;
}

progress-pendings :
    (k : Kernel) (progress : ℕ) (m : Kernel)
    → Cleared k progress m
    → (progress == 0) ≡ false
    → pendings max_nprocess m.proc_set < pendings max_nprocess k.proc_set
progress-pendings k progress m c more = elim c.served [
  | inl none_yet ↦ absurd (ne_of_== progress 0 more none_yet)
  | inr (j, lj, before, after) ↦
      pendings_lt max_nprocess j k.proc_set m.proc_set c.moves lj before after
]

-- With fuel above the number of processes in a system call, the loop ends. It leaves the table of
-- system calls well formed with every pid, program counter and register, and every call's type and
-- receiver, statuses kept or changed to runnable. Or the kernel has stopped, and then one of the
-- processes that were in a system call had made one that is neither a send nor a receive, or a send
-- to a pid that no process below MAX_NPROCESS has.
pub clear_pending_syscalls-Ends :
    (fuel : ℕ) (k : Kernel)
    → IsWaiting k
    → pendings max_nprocess k.proc_set < fuel
    → Ends k (clear_pending_syscalls fuel k)
unfolding clear_pending_syscalls
clear_pending_syscalls-Ends zero k waiting enough = absurd (omega arith)
clear_pending_syscalls-Ends (suc fuel) k waiting enough = elim (clear_pass-Passed k waiting) [
  | inl (e, bad) ↦ rw (e, clear_pending_syscalls) (stops bad)
  | inr ((progress, m), e, c) ↦ elim (Bool-cases (progress == 0)) [
    | inl last ↦ rw (e, clear_pending_syscalls, last) (settles (Cleared-Settled k progress m c))
    | inr more ↦
        rw (e, clear_pending_syscalls, more)
          (Ends-Cleared k progress m (clear_pending_syscalls fuel m) c (
            clear_pending_syscalls-Ends fuel m c.waiting
              (omega (arith, progress-pendings k progress m c more))))
  ]
]
