-- ===== src/User/Heap.antt =====
-- The heap of a program: _sbrk (library/libc/malloc.c), which malloc of the C library calls.
use egos_upstream.Base.{
  ℕ, ◌+◌, ◌%◌, ◌^◌, ◌≤◌, ◌<◌, ◌≡◌, ap, ◌∙◌, false, Option, none, some, List, [], ◌∷◌, arith, ltb,
  if◌then◌else◌, ◌>>=◌,
}

-- `brk` and the bound of the heap are addresses; a size is an int. A heap that would grow too large ends in
-- a memory exception: `none`. Otherwise the old and the new `brk`.
unfoldable pub sbrk : ℕ → ℕ → ℕ → Option (ℕ × ℕ)
sbrk heap_end size brk =
    let brk' = (brk + size) % 2 ^ 32 in if ltb heap_end brk' then none else some (brk, brk')

-- Calls with sizes that are not negative.
unfoldable pub sbrks : ℕ → List ℕ → ℕ → Option ℕ
unfolding sbrk
sbrks heap_end [] brk = some brk
sbrks heap_end (size ∷ sizes) brk =
    sbrk heap_end size brk >>= λ (old, brk'). sbrks heap_end sizes brk'

unfoldable pub sum : List ℕ → ℕ
sum [] = 0
sum (n ∷ ns) = n + sum ns

-- Calls for sizes that the heap has room for give stretches one behind another, inside the heap.
pub sbrks_total :
    (heap_end brk : ℕ) (sizes : List ℕ)
    → heap_end < 2 ^ 32
    → brk + sum sizes ≤ heap_end
    → sbrks heap_end sizes brk ≡ some (brk + sum sizes)
unfolding sbrks sbrk sum
sbrks_total heap_end brk [] small room = ap some (omega arith)
sbrks_total heap_end brk (size ∷ sizes) small room =
    let fits : (brk + size) % 2 ^ 32 ≡ brk + size = omega arith in
    let inside : ltb heap_end (brk + size) ≡ false = ground arith in
    rw (fits, inside)
      (sbrks_total heap_end (brk + size) sizes small (omega arith) ∙ ap some (omega arith))
