-- ===== src/Earth/Timer.antt =====
-- The timer (earth/cpu_timer.c). The 64-bit registers mtime and mtimecmp are read and written a half at a
-- time.
use egos_upstream.Base.{
  ℕ, zero, suc, ◌+◌, ◌*◌, ◌/◌, ◌%◌, ◌^◌, ◌≤◌, ◌<◌, ◌≡◌, ◌≢◌, inl, inr, Option, none, some, List, [],
  ◌∷◌, arith, ◌==◌, if◌then◌else◌, Bool-cases, ◌>>=◌, update,
}

abbrev pub quantum : ℕ
quantum = 1000000

-- The halves of the mtimecmp register of a core.
pub record Compare : Type 0 where
  pub low : ℕ
  pub high : ℕ

abbrev pub compare_value : Compare → ℕ
compare_value c = c.high * 2 ^ 32 + c.low

-- Writes of a half.
pub data Write : Type 0 where
  write_low : ℕ → Write
  write_high : ℕ → Write

unfoldable pub perform : Write → Compare → Compare
perform (write_low v) c = record c { low = v }
perform (write_high v) c = record c { high = v }

-- The first `n` of some writes.
unfoldable pub perform_first : ℕ → List Write → Compare → Compare
perform_first zero ws c = c
perform_first (suc n) [] c = c
perform_first (suc n) (w ∷ ws) c = perform_first n ws (perform w c)

abbrev pub mtimecmp_writes : ℕ → List Write
mtimecmp_writes time =
    write_high 0xFFFFFFFF ∷ write_low (time % 2 ^ 32) ∷ write_high (time / 2 ^ 32 % 2 ^ 32) ∷ []

unfoldable pub mtimecmp_set : ℕ → ℕ → (ℕ → Compare) → ℕ → Compare
unfolding perform_first
mtimecmp_set time core_id s = update s core_id (perform_first 3 (mtimecmp_writes time) (s core_id))

-- `clock n` is mtime at the n-th access to one of its halves.
-- The time that the loop gives, from access `n` on, and the number of accesses then made.
unfoldable pub mtime_get : (ℕ → ℕ) → ℕ → ℕ → Option (ℕ × ℕ)
mtime_get clock zero n = none
mtime_get clock (suc fuel) n =
    let high = clock n / 2 ^ 32 in
    let low = clock (n + 1) % 2 ^ 32 in
    let again = mtime_get clock fuel (n + 3) in
    if clock (n + 2) / 2 ^ 32 == high then some (high * 2 ^ 32 + low, n + 3) else again

-- `timer_reset` of a core, from the access `n` on.
unfoldable pub timer_reset : (ℕ → ℕ) → ℕ → ℕ → ℕ → (ℕ → Compare) → Option (ℕ → Compare)
unfolding mtime_get mtimecmp_set
timer_reset clock fuel n core_id s =
    mtime_get clock fuel n >>= λ (now, n'). some (mtimecmp_set ((now + quantum) % 2 ^ 64) core_id s)

-- While the clock does not run backwards and six accesses take less than 2 ^ 32 ticks, two rounds of
-- the loop are enough, and the time that it gives is the value of the clock at one of its accesses:
-- never a low half of one value under the high half of another.
pub mtime_get_total :
    (clock : ℕ → ℕ) (n : ℕ)
    → ((i : ℕ) → clock i ≤ clock (i + 1))
    → clock (n + 5) < clock n + 2 ^ 32
    → (j : ℕ) × (n' : ℕ) × (mtime_get clock 2 n ≡ some (clock j, n'))
      × (n ≤ j)
      × (j < n')
      × (n' ≤ n + 6)
unfolding mtime_get
mtime_get_total clock n mono soon = elim (Bool-cases (clock (n + 2) / 2 ^ 32 == clock n / 2 ^ 32)) [
  | inl once ↦
      (n + 1, n + 3, ground (arith, mono n, mono (n + 1)), omega arith, omega arith, omega arith)
  | inr twice ↦ (
    n + 4,
    n + 6,
    ground (arith, mono n, mono (n + 1), mono (n + 2), mono (n + 3), mono (n + 4)),
    omega arith,
    omega arith,
    omega arith,
  )
]

-- After each of the three writes of `mtimecmp_set` the register of the core is at or above the new
-- time, so that no interrupt comes early between them, and after the last it is that time; the
-- registers of the other cores are as they were. This is for times below 0xFFFFFFFF * 2 ^ 32.
pub mtimecmp_set_lem :
    (time core_id : ℕ) (s : ℕ → Compare)
    → time < 0xFFFFFFFF * 2 ^ 32
    → ((n : ℕ) → 1 ≤ n → time ≤ compare_value (perform_first n (mtimecmp_writes time) (s core_id)))
      × (compare_value (mtimecmp_set time core_id s core_id) ≡ time)
      × ((other : ℕ) → other ≢ core_id → mtimecmp_set time core_id s other ≡ s other)
unfolding mtimecmp_set perform_first perform
mtimecmp_set_lem time core_id s below = (steps, ground arith, λ other ne. ground arith)
  where
    steps :
        (n : ℕ) → 1 ≤ n → time ≤ compare_value (perform_first n (mtimecmp_writes time) (s core_id))
    steps zero le = absurd (omega arith)
    steps (suc zero) le = ground arith
    steps (suc (suc zero)) le = ground arith
    steps (suc (suc (suc zero))) le = ground arith
    steps (suc (suc (suc (suc n)))) le = ground arith
