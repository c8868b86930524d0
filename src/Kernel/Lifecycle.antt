-- ===== src/Kernel/Lifecycle.antt =====
-- The life of a process: `proc_alloc`, `proc_set_ready` and `proc_free` of grass/process.c.
use egos_upstream.Base.{
  ℕ, ◌≤◌, ◌<◌, ◌≡◌, refl, ◌≢◌, ◌⊎◌, inl, inr, Bool, true, false, not, ◌&&◌, none, some, arith, ltb,
  ◌==◌, if◌then◌else◌, Bool-cases, Option-cases, for_range, for_range_inv, find_from,
  find_from-none, find_from-some,
}
use egos_upstream.Kernel.State.{
  max_nprocess, gpid_all, is_user, ProcStatus, unused, loading, is_unused, mmu_free, Kernel, call,
  put,
}
use egos_upstream.Kernel.Process.{proc_alloc, proc_free, free_all_body, proc_set_status}
use egos_upstream.Kernel.Process.Table.{proc_set_status_lem}
use egos_upstream.Kernel.Scheduler.Yield.{IsValid}

-- The least entry from 1 on that is unused.
pub record IsLeastUnused (k : Kernel) (i : ℕ) : Type 0 where
  pub above : 1 ≤ i
  pub below : i ≤ max_nprocess
  pub free : (k.proc_set i).status ≡ unused
  pub least : (j : ℕ) → 1 ≤ j → j < i → (k.proc_set j).status ≢ unused

-- The kernel after entry `i` has been given to a new process.
abbrev pub allocated : ℕ → Kernel → Kernel
allocated i k = put i (record (k.proc_set i) { pid = i; status = loading }) k

unused_of_is_unused : (s : ProcStatus) → is_unused s ≡ true → s ≡ unused
unused_of_is_unused s h = ground arith

ne_unused_of_is_unused : (s : ProcStatus) → is_unused s ≡ false → s ≢ unused
ne_unused_of_is_unused s h = ground arith

-- `proc_alloc` gives the least unused entry from 1 to MAX_NPROCESS to a process of that pid, which
-- loads, and changes no other entry; when no such entry is unused it stops the kernel.
pub proc_alloc_total :
    (k : Kernel)
    → ((i : ℕ) × IsLeastUnused k i × (proc_alloc k ≡ some (i, allocated i k)))
      ⊎ ((proc_alloc k ≡ none)
          × ((j : ℕ) → 1 ≤ j → j ≤ max_nprocess → (k.proc_set j).status ≢ unused))
unfolding proc_alloc
proc_alloc_total k =
    let test : ℕ → Bool = λ i. is_unused (k.proc_set i).status in
    elim (Option-cases (find_from max_nprocess 1 test)) [
      | inl e ↦ inr (
        rw e,
        λ j lo hi.
            ne_unused_of_is_unused _ (find_from-none max_nprocess 1 test e j lo (omega arith)),
      )
      | inr (i, e) ↦
          let first = find_from-some max_nprocess 1 test i e in
          inl (
            i,
            record {
              above = first.above;
              below = omega arith;
              free = unused_of_is_unused _ first.hit;
              least = λ j lo hi. ne_unused_of_is_unused _ (first.earliest j lo hi);
            },
            rw e (ground arith),
          )
    ]

-- A new process in the least unused entry keeps a valid kernel valid.
pub allocated-IsValid :
    (k : Kernel) (i : ℕ) → IsValid k → IsLeastUnused k i → IsValid (allocated i k)
allocated-IsValid k i v h = record {
  waiting = record {
    sends = λ j e. ground (arith, v.waiting.sends j);
    served = λ j e. ground (arith, v.waiting.served j);
    named = λ j e. ground (arith, v.waiting.named j, h.above);
  };
  numbered = λ j le. ground (arith, v.numbered j le);
  in_table = v.in_table;
  alone = λ j le. ground (arith, v.alone j le);
}

last_entry :
    (k : Kernel)
    → IsValid k
    → (((allocated max_nprocess k).proc_set max_nprocess).status ≡ loading)
      × ((status : ProcStatus) (i : ℕ)
          → (proc_set_status max_nprocess status (allocated max_nprocess k)).proc_set i
            ≡ (allocated max_nprocess k).proc_set i)
last_entry k v = (
  refl,
  λ status i.
      ground
        (arith, proc_set_status_lem max_nprocess status (allocated max_nprocess k) i, v.numbered i),
)

-- The last entry of the table is never met by the loops of `proc_set_status`: a process that
-- `proc_alloc` puts there in a valid kernel is loading, and no status that is then set for its pid
-- changes any entry.
pub proc_set_status-last :
    (k k' : Kernel)
    → IsValid k
    → proc_alloc k ≡ some (max_nprocess, k')
    → ((k'.proc_set max_nprocess).status ≡ loading)
      × ((status : ProcStatus) (i : ℕ)
          → (proc_set_status max_nprocess status k').proc_set i ≡ k'.proc_set i)
proc_set_status-last k k' v e = elim (proc_alloc_total k) [
  | inl (i, h, e') ↦
      let at_last : i ≡ max_nprocess = cc in
      let same : allocated i k ≡ k' = cc in rw (← same, at_last) (last_entry k v)
  | inr (e', full) ↦ cc
]

free_all_lem :
    (k : Kernel) (n i : ℕ)
    → n ≤ max_nprocess
    → (for_range n 0 free_all_body k).proc_set i ≡ (
        if ltb i n && (is_user (k.proc_set i).pid && not (is_unused (k.proc_set i).status))
        then record (k.proc_set i) { status = unused }
        else k.proc_set i)
unfolding free_all_body
free_all_lem k n i le =
    for_range_inv
      (λ m (k' : Kernel).
        (i : ℕ)
        → k'.proc_set i ≡ (
            if ltb i m && (is_user (k.proc_set i).pid && not (is_unused (k.proc_set i).status))
            then record (k.proc_set i) { status = unused }
            else k.proc_set i))
      free_all_body n 0 n (λ m k' lo hi h j. ground (arith, h j, h m)) k (omega arith)
      (λ j. ground arith) i

-- `proc_free` makes unused the entries of its pid, or, for GPID_ALL, those of the user processes,
-- among the first MAX_NPROCESS entries; every other entry is as it was.
pub proc_free_lem :
    (pid : ℕ) (k : Kernel) (i : ℕ)
    → (proc_free pid k).proc_set i ≡ (
        if ltb i max_nprocess
          && (if pid == gpid_all
              then is_user (k.proc_set i).pid && not (is_unused (k.proc_set i).status)
              else ((k.proc_set i).pid == pid))
        then record (k.proc_set i) { status = unused }
        else k.proc_set i)
unfolding proc_free
proc_free_lem pid k i = elim (Bool-cases (pid == gpid_all)) [
  | inl all ↦ rw all (free_all_lem k max_nprocess i (omega arith))
  | inr one ↦ rw one (proc_set_status_lem pid unused (call (mmu_free pid) k) i)
]
