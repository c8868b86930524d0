-- ===== src/Mem/Bitmap.antt =====
-- The page bitmap of earth/mem_alloc.c: bit i % 8 of byte i / 8 is 1 when page i is in use.
-- `bitmap` is an array of unsigned char, so a stored byte is cut to 8 bits; `~` is that of a 32-bit int.
use Prim.Native.Nat.{bit_and, bit_or}
use egos_upstream.Base.{
  ℕ, ◌-◌, ◌/◌, ◌%◌, ◌^◌, ◌<◌, ◌≡◌, refl, Bool, true, false, not, arith, ◌==◌, if◌then◌else◌, update,
  passes_below, passes_below_at,
}

abbrev pub Bitmap : Type 0
Bitmap = ℕ → ℕ

unfoldable pub bitmap_set : Bitmap → ℕ → Bitmap
bitmap_set m i = update m (i / 8) (bit_or (m (i / 8)) (2 ^ (i % 8)) % 2 ^ 8)

unfoldable pub bitmap_clear : Bitmap → ℕ → Bitmap
bitmap_clear m i = update m (i / 8) (bit_and (m (i / 8)) (2 ^ 32 - 1 - 2 ^ (i % 8)) % 2 ^ 8)

unfoldable pub bitmap_test : Bitmap → ℕ → ℕ
bitmap_test m i = bit_and (m (i / 8)) (2 ^ (i % 8))

-- Page i is in use.
unfoldable pub used : Bitmap → ℕ → Bool
used m i = not (bitmap_test m i == 0)

-- Every entry of the array is an unsigned char.
abbrev pub IsBytes : Bitmap → Type 0
IsBytes m = (k : ℕ) → m k < 2 ^ 8

bit : ℕ → ℕ → Bool
bit b k = not (bit_and b (2 ^ k) == 0)

bool_eq : Bool → Bool → Bool
bool_eq a b = if a then b else not b

eq_of_bool_eq : (a b : Bool) → bool_eq a b ≡ true → a ≡ b
unfolding bool_eq
eq_of_bool_eq a b h = ground arith

set_case : ℕ → ℕ → ℕ → Bool
set_case b k l = bool_eq (bit (bit_or b (2 ^ k) % 2 ^ 8) l) (if k == l then true else bit b l)

set_table :
    passes_below (λ b. passes_below (λ k. passes_below (λ l. set_case b k l) 8) 8) 256 ≡ true
unfolding passes_below set_case bit bool_eq
set_table = refl

set_at :
    (b k l : ℕ)
    → b < 256
    → k < 8
    → l < 8
    → bit (bit_or b (2 ^ k) % 2 ^ 8) l ≡ (if k == l then true else bit b l)
unfolding set_case
set_at b k l hb hk hl =
    let bytes =
      passes_below_at (λ b. passes_below (λ k. passes_below (set_case b k) 8) 8) 256 b set_table
        hb in
    let shifts = passes_below_at (λ k. passes_below (set_case b k) 8) 8 k bytes hk in
    eq_of_bool_eq _ _ (passes_below_at (set_case b k) 8 l shifts hl)

clear_case : ℕ → ℕ → ℕ → Bool
clear_case b k l =
    bool_eq (bit (bit_and b (2 ^ 32 - 1 - 2 ^ k) % 2 ^ 8) l) (if k == l then false else bit b l)

clear_table :
    passes_below (λ b. passes_below (λ k. passes_below (λ l. clear_case b k l) 8) 8) 256 ≡ true
unfolding passes_below clear_case bit bool_eq
clear_table = refl

clear_at :
    (b k l : ℕ)
    → b < 256
    → k < 8
    → l < 8
    → bit (bit_and b (2 ^ 32 - 1 - 2 ^ k) % 2 ^ 8) l ≡ (if k == l then false else bit b l)
unfolding clear_case
clear_at b k l hb hk hl =
    let bytes =
      passes_below_at (λ b. passes_below (λ k. passes_below (clear_case b k) 8) 8) 256 b clear_table
        hb in
    let shifts = passes_below_at (λ k. passes_below (clear_case b k) 8) 8 k bytes hk in
    eq_of_bool_eq _ _ (passes_below_at (clear_case b k) 8 l shifts hl)

used_lem : (m : Bitmap) (i : ℕ) → used m i ≡ bit (m (i / 8)) (i % 8)
unfolding used bitmap_test bit
used_lem m i = refl

-- On a bitmap of bytes, setting a bit makes its page used and leaves every other page as it was.
pub used-bitmap_set :
    (m : Bitmap) (i j : ℕ)
    → IsBytes m
    → used (bitmap_set m i) j ≡ (if i == j then true else used m j)
unfolding bitmap_set
used-bitmap_set m i j h = ground (
  arith,
  used_lem m j,
  used_lem (bitmap_set m i) j,
  set_at (m (i / 8)) (i % 8) (j % 8),
  h (i / 8),
)

-- On a bitmap of bytes, clearing a bit makes its page free and leaves every other page as it was.
pub used-bitmap_clear :
    (m : Bitmap) (i j : ℕ)
    → IsBytes m
    → used (bitmap_clear m i) j ≡ (if i == j then false else used m j)
unfolding bitmap_clear
used-bitmap_clear m i j h = ground (
  arith,
  used_lem m j,
  used_lem (bitmap_clear m i) j,
  clear_at (m (i / 8)) (i % 8) (j % 8),
  h (i / 8),
)

pub bitmap_set-IsBytes : (m : Bitmap) (i : ℕ) → IsBytes m → IsBytes (bitmap_set m i)
unfolding bitmap_set
bitmap_set-IsBytes m i h k = ground (arith, h k)

pub bitmap_clear-IsBytes : (m : Bitmap) (i : ℕ) → IsBytes m → IsBytes (bitmap_clear m i)
unfolding bitmap_clear
bitmap_clear-IsBytes m i h k = ground (arith, h k)
