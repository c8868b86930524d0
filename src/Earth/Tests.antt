-- ===== src/Earth/Tests.antt =====
-- Concrete runs of the timer.
use egos_upstream.Base.{ℕ, ◌+◌, ◌-◌, ◌^◌, ◌≤◌, ◌<◌, ◌≡◌, ◌≢◌, ◌⊎◌, ◌%◌, none, some, arith}
use egos_upstream.Earth.Timer.{
  quantum, Compare, compare_value, perform_first, mtimecmp_writes, mtimecmp_set, mtime_get,
  mtime_get_total, mtimecmp_set_lem,
}
use egos_upstream.Earth.InitTimer.{Handler, handler, handler_lem}

-- A clock that carries into its high half between the first two accesses.
abbrev clock : ℕ → ℕ
clock i = i + (2 ^ 32 - 1)

mtime_get_total_example :
    (j : ℕ) × (n' : ℕ) × (mtime_get clock 2 0 ≡ some (clock j, n'))
    × (0 ≤ j)
    × (j < n')
    × (n' ≤ 0 + 6)
mtime_get_total_example = mtime_get_total clock 0 (λ i. omega arith) (omega arith)

abbrev compares : ℕ → Compare
compares core = record { low = 5; high = 1 }

mtimecmp_set_lem_example :
    ((n : ℕ) → 1 ≤ n → 7 ≤ compare_value (perform_first n (mtimecmp_writes 7) (compares 0)))
    × (compare_value (mtimecmp_set 7 0 compares 0) ≡ 7)
    × ((other : ℕ) → other ≢ 0 → mtimecmp_set 7 0 compares other ≡ compares other)
mtimecmp_set_lem_example = mtimecmp_set_lem 7 0 compares (omega arith)

-- The example's clock while bit 31 is clear.
abbrev ticks : ℕ → ℕ
ticks i = 100 + i

abbrev started : Handler
started = record { last_time = 50; mtimecmp = record { low = 0; high = 0 } }

handler_lem_example :
    ((2 ^ 31 ≤ ticks 0 % 2 ^ 32) × (handler ticks 0 started ≡ none))
    ⊎ ((ticks 0 % 2 ^ 32 < 2 ^ 31)
        × (h' : Handler) × (handler ticks 0 started ≡ some h')
        × (h'.last_time ≡ ticks 2)
        × (compare_value h'.mtimecmp ≡ ticks 4 + quantum))
handler_lem_example = handler_lem ticks 0 started (omega arith) (omega arith) (λ i lt. omega arith)
