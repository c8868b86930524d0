-- ===== src/Kernel/Scheduler/RoundRobin.antt =====
-- Which process `round_robin` chooses.
use egos_upstream.Base.{
  ℕ, ◌+◌, ◌-◌, ◌%◌, ◌≤◌, ◌<◌, ◌≡◌, ◌⊎◌, inl, inr, Bool, true, false, arith, Option-cases, find_from,
  find_from-none, find_from-some,
}
use egos_upstream.Kernel.State.{max_nprocess, Kernel, curr_proc_idx}
use egos_upstream.Kernel.Scheduler.{rotated, may_run, round_robin}

-- Every entry is met on the way round.
pub rotated_back :
    (k : Kernel) (idx : ℕ)
    → curr_proc_idx k < max_nprocess
    → idx < max_nprocess
    → rotated k ((idx + 15 - curr_proc_idx k) % 16 + 1) ≡ idx
rotated_back k idx lt li = omega arith

-- The entry at distance `i` after the current one may run, and none before it on the way round may.
pub record IsNext (k : Kernel) (i : ℕ) : Type 0 where
  pub above : 1 ≤ i
  pub below : i ≤ max_nprocess
  pub ready : may_run (k.proc_set (rotated k i)).status ≡ true
  pub earliest : (j : ℕ) → 1 ≤ j → j < i → may_run (k.proc_set (rotated k j)).status ≡ false

-- From a current entry of the table, `round_robin` gives the first entry on the way round that is
-- ready or runnable, the current one last; it gives MAX_NPROCESS exactly when no entry below
-- MAX_NPROCESS is.
pub round_robin_lem :
    (k : Kernel)
    → curr_proc_idx k < max_nprocess
    → ((i : ℕ) × IsNext k i × (round_robin k ≡ rotated k i) × (round_robin k < max_nprocess))
      ⊎ ((round_robin k ≡ max_nprocess)
          × ((idx : ℕ) → idx < max_nprocess → may_run (k.proc_set idx).status ≡ false))
unfolding round_robin
round_robin_lem k lt =
    let test : ℕ → Bool = λ i. may_run (k.proc_set (rotated k i)).status in
    elim (Option-cases (find_from max_nprocess 1 test)) [
      | inl e ↦ inr (
        rw (e, round_robin),
        λ idx li. rw (rotated_back k idx lt li) at (
            find_from-none max_nprocess 1 test e ((idx + 15 - curr_proc_idx k) % 16 + 1)
              (omega arith) (omega arith)),
      )
      | inr (i, e) ↦
          let first = find_from-some max_nprocess 1 test i e in
          inl (
            i,
            record {
              above = first.above;
              below = omega arith;
              ready = first.hit;
              earliest = first.earliest;
            },
            rw (e, round_robin),
            rw (e, round_robin) (omega arith),
          )
    ]
