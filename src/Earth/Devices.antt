-- ===== src/Earth/Devices.antt =====
-- The disk (earth/dev_disk.c) and the terminal's device (earth/dev_tty.c).
use egos_upstream.Base.{
  ℕ, zero, suc, ◌+◌, ◌/◌, ◌%◌, ◌^◌, ◌≡◌, ap, inl, inr, Bool, true, not, Option, none, some, arith,
  ltb, ◌==◌, if◌then◌else◌, eq_of_==, ne_of_==, Bool-cases, IsFirst,
}

abbrev pub Sector : Type 0
Sector = ℕ → ℕ

-- enum disk_type
pub data DiskType : Type 0 where
  sd_card flash_rom : DiskType

-- `nblocks` blocks of the ROM, from block `block_no` on; the numbers of bytes are uint. FATAL is `none`.
unfoldable pub disk_read : DiskType → (ℕ → Sector) → ℕ → ℕ → (ℕ → Sector) → Option (ℕ → Sector)
disk_read flash_rom rom block_no nblocks dst =
    some (λ b. if ltb b (nblocks % 2 ^ 23) then rom (block_no % 2 ^ 23 + b) else dst b)
disk_read sd_card rom block_no nblocks dst = none

-- The ROM cannot be written.
unfoldable pub disk_write : DiskType → ℕ → ℕ → (ℕ → Sector) → Option (ℕ → Sector)
disk_write flash_rom block_no nblocks src = none
disk_write sd_card block_no nblocks src = none

-- disk_init
abbrev pub initial_type : DiskType
initial_type = flash_rom

-- The UART: the line status and the received word at the n-th access to one of its registers.
pub record Uart : Type 0 where
  pub line_status : ℕ → ℕ
  pub received : ℕ → ℕ

unfoldable pub uart_rx_empty : Uart → ℕ → Bool
uart_rx_empty u n = not (u.line_status n % 2 == 1)

-- The character, and the number of accesses then made.
unfoldable pub uart_getc : Uart → ℕ → ℕ → Option (ℕ × ℕ)
unfolding uart_rx_empty
uart_getc u zero n = none
uart_getc u (suc fuel) n =
    let again = uart_getc u fuel (n + 1) in
    if uart_rx_empty u n then again else some (u.received (n + 1) % 2 ^ 8, n + 2)

-- The wait until the transmitter is empty; then the word that is written, and the number of accesses made.
unfoldable pub uart_putc : Uart → ℕ → ℕ → ℕ → Option (ℕ × ℕ)
uart_putc u c zero n = none
uart_putc u c (suc fuel) n =
    let again = uart_putc u c fuel (n + 1) in
    if u.line_status n / 2 ^ 5 % 2 == 1 then some (c, n + 2) else again

-- Reading waits for the first access at which there is a character, and gives it: with fuel for the
-- accesses up to that one, the loop ends.
pub uart_getc_total :
    (u : Uart) (fuel n r : ℕ)
    → IsFirst fuel n (λ i. not (uart_rx_empty u i)) r
    → uart_getc u fuel n ≡ some (u.received (r + 1) % 2 ^ 8, r + 2)
unfolding uart_getc
uart_getc_total u zero n r first = absurd (omega (arith, first.above, first.below))
uart_getc_total u (suc fuel) n r first = elim (Bool-cases (uart_rx_empty u n)) [
  | inl empty ↦ rw empty (
      uart_getc_total u fuel (n + 1) r (record {
        above = elim (Bool-cases (n == r)) [
          | inl same ↦
              let full = first.hit in let e = eq_of_== n r same in absurd (clash n r e empty full)
          | inr other ↦ omega (arith, first.above, ne_of_== n r other)
        ];
        below = omega (arith, first.below);
        hit = first.hit;
        earliest = λ k lo lt. first.earliest k (omega arith) lt;
      }))
  | inr there ↦
      let same : n ≡ r = elim (Bool-cases (ltb n r)) [
        | inl before ↦
            let miss = first.earliest n (omega arith) (ground arith) in
            absurd (ground (arith, miss, there))
        | inr not_before ↦ ground (arith, first.above)
      ] in
      rw there (ap (λ i. some (u.received (i + 1) % 2 ^ 8, i + 2)) same)
]
  where
    clash : (i j : ℕ) → i ≡ j → uart_rx_empty u i ≡ true → not (uart_rx_empty u j) ≡ true → ⊥
    clash i j e full hit = let full' : uart_rx_empty u j ≡ true = (rw e at full) in ground arith
