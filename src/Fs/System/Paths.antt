-- ===== src/Fs/System/Paths.antt =====
-- Offsets, the levels that reach them, and the paths to them.
use egos_upstream.Base.{
  ℕ, zero, suc, ◌+◌, ◌-◌, ◌^◌, ◌≤◌, ◌<◌, ◌≡◌, refl, sym, ◌∙◌, ◌≢◌, ◌⊎◌, inl, inr, true, arith, ◌==◌,
  eq_of_==, ne_of_==, Bool-cases,
}
use egos_upstream.Fs.Layout.{log_shift_r, levels, slot}
use egos_upstream.Fs.Read.Lookup.{depth_cases}
use egos_upstream.Fs.Write.Walk.{Differs}
use egos_upstream.Fs.Write.Grow.{high_zero}
use egos_upstream.Fs.System.{Fits}

Fits-five :
    (x n : ℕ)
    → ((n ≡ 0) × (x < 1))
      ⊎ ((n ≡ 1) × (x < 128))
      ⊎ ((n ≡ 2) × (x < 16384))
      ⊎ ((n ≡ 3) × (x < 2097152))
      ⊎ ((n ≡ 4) × (x < 268435456))
      ⊎ (n ≡ 5)
    → Fits n x
unfolding slot log_shift_r
Fits-five x n h zero le lt = ground arith
Fits-five x n h (suc zero) le lt = ground arith
Fits-five x n h (suc (suc zero)) le lt = ground arith
Fits-five x n h (suc (suc (suc zero))) le lt = ground arith
Fits-five x n h (suc (suc (suc (suc zero)))) le lt = ground arith
Fits-five x n h (suc (suc (suc (suc (suc j))))) le lt = absurd (omega arith)

-- A tree with the levels of a file reaches each of its offsets.
pub Fits-levels : (nblocks x : ℕ) → x < nblocks → Fits (levels nblocks) x
unfolding levels
Fits-levels nblocks x lt =
    Fits-five x (levels nblocks) (unfold levels in ground (arith, depth_cases (nblocks - 1)))

pub levels-le-five : (nblocks : ℕ) → levels nblocks ≤ 5
unfolding levels
levels-le-five nblocks = ground (arith, depth_cases (nblocks - 1))

-- A larger file has as many levels or more.
pub levels_mono : (m n : ℕ) → m ≤ n → levels m ≤ levels n
unfolding levels
levels_mono m n le = ground (arith, depth_cases (m - 1), depth_cases (n - 1))

pub Fits-mono : (d e offset : ℕ) → d ≤ e → Fits d offset → Fits e offset
Fits-mono d e offset le fits j lo hi = fits j (omega arith) hi

pub high_zero-Fits :
    (n d e offset : ℕ) → e ≡ d + n → Fits e offset → high_zero d n offset ≡ true → Fits d offset
unfolding high_zero
high_zero-Fits zero d e offset at fits high j lo hi = fits j (omega arith) hi
high_zero-Fits (suc n) d e offset at fits high j lo hi = elim (Bool-cases (d == j)) [
  | inl here ↦ rw (← eq_of_== d j here) (ground arith)
  | inr other ↦
      high_zero-Fits n (suc d) e offset (omega arith) fits (ground arith) j
        (omega (arith, ne_of_== d j other)) hi
]

pub high_zero_of_Fits : (n d offset : ℕ) → d + n ≤ 5 → Fits d offset → high_zero d n offset ≡ true
unfolding high_zero
high_zero_of_Fits zero d offset le fits = refl
high_zero_of_Fits (suc n) d offset le fits =
    let rest =
      high_zero_of_Fits n (suc d) offset (omega arith)
        (Fits-mono d (suc d) offset (omega arith) fits) in
    let here = fits d (omega arith) (omega arith) in rw (rest, here) refl

Differs-five : (x y : ℕ) → x < 2 ^ 32 → y < 2 ^ 32 → x ≢ y → Differs 5 x y
unfolding slot log_shift_r
Differs-five x y lx ly ne = ground arith

Differs-lower : (k n x y : ℕ) → k + n ≡ 5 → Fits k x → Fits k y → Differs 5 x y → Differs k x y
Differs-lower k zero x y e fx fy parts = let e' : k ≡ 5 = omega arith in rw e' parts
Differs-lower k (suc n) x y e fx fy parts =
    let above =
      Differs-lower (suc k) n x y (omega arith) (Fits-mono k (suc k) x (omega arith) fx)
        (Fits-mono k (suc k) y (omega arith) fy) parts in
    elim above [
      | inl ne ↦
          absurd (ne (fx k (omega arith) (omega arith) ∙ sym (fy k (omega arith) (omega arith))))
      | inr below ↦ below
    ]

-- The paths to different offsets in one tree part.
pub ne-Differs :
    (nlevels x y : ℕ)
    → nlevels ≤ 5
    → Fits nlevels x
    → Fits nlevels y
    → x < 2 ^ 32
    → y < 2 ^ 32
    → x ≢ y
    → Differs nlevels x y
ne-Differs nlevels x y le fx fy lx ly ne =
    Differs-lower nlevels (5 - nlevels) x y (omega arith) fx fy (Differs-five x y lx ly ne)
