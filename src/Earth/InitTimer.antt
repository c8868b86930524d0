-- ===== src/Earth/InitTimer.antt =====
-- The timer example of grass/init.c, which reads mtime as two signed words and keeps the last time.
use egos_upstream.Base.{
  ℕ, ◌+◌, ◌*◌, ◌/◌, ◌%◌, ◌^◌, ◌≤◌, ◌<◌, ◌≡◌, ap, ◌∙◌, ◌⊎◌, inl, inr, Bool, Option, none, some, List,
  [], ◌∷◌, arith, ltb, if◌then◌else◌, Bool-cases,
}
use egos_upstream.Earth.Timer.{
  quantum, Compare, compare_value, Write, write_low, write_high, perform, perform_first,
}

-- A long long is its 64-bit pattern, below 2 ^ 64. The low word is an int, so that its sign fills the
-- high word that it is combined with. `clock n` is mtime at the n-th access to one of its halves.
unfoldable pub local_mtime_get : (ℕ → ℕ) → ℕ → ℕ
local_mtime_get clock n =
    let low = clock n % 2 ^ 32 in
    let high = clock (n + 1) / 2 ^ 32 % 2 ^ 32 in
    if ltb low (2 ^ 31) then high * 2 ^ 32 + low else 0xFFFFFFFF * 2 ^ 32 + low

-- `<` on long long.
abbrev pub less : ℕ → ℕ → Bool
less a b = ltb ((a + 2 ^ 63) % 2 ^ 64) ((b + 2 ^ 63) % 2 ^ 64)

abbrev pub mtimecmp_writes : ℕ → List Write
mtimecmp_writes time = write_low (time % 2 ^ 32) ∷ write_high (time / 2 ^ 32 % 2 ^ 32) ∷ []

unfoldable pub mtimecmp_set : ℕ → Compare → Compare
unfolding perform_first
mtimecmp_set time c = perform_first 2 (mtimecmp_writes time) c

-- What the handler keeps from one interrupt to the next.
pub record Handler : Type 0 where
  pub last_time : ℕ
  pub mtimecmp : Compare

-- `handler`, from access `n` on; FATAL is `none`.
unfoldable pub handler : (ℕ → ℕ) → ℕ → Handler → Option Handler
unfolding local_mtime_get mtimecmp_set
handler clock n h =
    if less (local_mtime_get clock n) h.last_time
    then none
    else some (record {
      last_time = local_mtime_get clock (n + 2);
      mtimecmp = mtimecmp_set ((local_mtime_get clock (n + 4) + quantum) % 2 ^ 64) h.mtimecmp;
    })

-- A read while bit 31 is clear and the high word stays gives the clock.
read_clear :
    (clock : ℕ → ℕ) (n : ℕ)
    → clock n % 2 ^ 32 < 2 ^ 31
    → clock n < 2 ^ 63
    → clock (n + 1) / 2 ^ 32 ≡ clock n / 2 ^ 32
    → local_mtime_get clock n ≡ clock n
unfolding local_mtime_get
read_clear clock n clear small same = ground arith

-- A read while bit 31 is set is negative.
read_set :
    (clock : ℕ → ℕ) (n : ℕ)
    → 2 ^ 31 ≤ clock n % 2 ^ 32
    → 0xFFFFFFFF * 2 ^ 32 ≤ local_mtime_get clock n
unfolding local_mtime_get
read_set clock n set = ground arith

read_set_lt : (clock : ℕ → ℕ) (n : ℕ) → local_mtime_get clock n < 2 ^ 64
unfolding local_mtime_get
read_set_lt clock n = ground arith

-- When the clock, below 2 ^ 63, has gone on from the last time and crosses no multiple of 2 ^ 31 in six
-- accesses, bit 31 of the clock decides what the handler does. If it is set, the handler stops the system,
-- although no time was lost. If it is clear, the handler keeps the clock of the third access as the last
-- time, and the next interrupt is a quantum after the clock of the fifth.
pub handler_lem :
    (clock : ℕ → ℕ) (n : ℕ) (h : Handler)
    → h.last_time ≤ clock n
    → clock n < 2 ^ 63
    → ((i : ℕ) → i < 6 → clock (n + i) / 2 ^ 31 ≡ clock n / 2 ^ 31)
    → ((2 ^ 31 ≤ clock n % 2 ^ 32) × (handler clock n h ≡ none))
      ⊎ ((clock n % 2 ^ 32 < 2 ^ 31)
          × (h' : Handler) × (handler clock n h ≡ some h')
          × (h'.last_time ≡ clock (n + 2))
          × (compare_value h'.mtimecmp ≡ clock (n + 4) + quantum))
unfolding handler mtimecmp_set perform_first perform
handler_lem clock n h passed small same = elim (Bool-cases (ltb (clock n % 2 ^ 32) (2 ^ 31))) [
  | inl clear ↦
      let first : local_mtime_get clock n ≡ clock n =
        read_clear clock n (ground arith) small (ground (arith, same 1 (omega arith))) in
      let second : local_mtime_get clock (n + 2) ≡ clock (n + 2) =
        read_clear clock (n + 2) (ground (arith, same 2 (omega arith)))
          (omega (arith, same 2 (omega arith)))
          (omega (arith, same 2 (omega arith), near 3 (n + 2 + 1) (omega arith) (omega arith))) in
      let third : local_mtime_get clock (n + 4) ≡ clock (n + 4) =
        read_clear clock (n + 4) (ground (arith, same 4 (omega arith)))
          (omega (arith, same 4 (omega arith)))
          (omega (arith, same 4 (omega arith), near 5 (n + 4 + 1) (omega arith) (omega arith))) in
      inr (
        ground arith,
        record {
          last_time = local_mtime_get clock (n + 2);
          mtimecmp = mtimecmp_set ((local_mtime_get clock (n + 4) + quantum) % 2 ^ 64) h.mtimecmp;
        },
        ground arith,
        second,
        rw third (ground (arith, same 4 (omega arith))),
      )
  | inr set ↦
      inl (ground arith, ground (arith, read_set clock n (ground arith), read_set_lt clock n))
]
  where
    near : (i j : ℕ) → i < 6 → j ≡ n + i → clock j / 2 ^ 31 ≡ clock n / 2 ^ 31
    near i j lt e = ap (λ x. clock x / 2 ^ 31) e ∙ same i lt
