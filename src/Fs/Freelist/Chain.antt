-- ===== src/Fs/Freelist/Chain.antt =====
-- What a free list holds: the blocks of its chain, and the blocks that their slots refer to.
use egos_upstream.Base.{
  ℕ, zero, suc, ◌+◌, ◌<◌, ◌≡◌, refl, sym, ◌≢◌, inl, inr, not, ◌&&◌, List, [], ◌∷◌, arith, ltb, ◌==◌,
  if◌then◌else◌, ne_of_==, Bool-cases, update, update_ne,
}
use egos_upstream.Fs.Store.{Block, Disk, refs_per_block}
use egos_upstream.Fs.Freelist.{last_ref}

-- The blocks `bs` are linked through their slots 0, from `head` on.
abbrev pub Chain : Disk → List ℕ → ℕ → Type 0
Chain disk [] head = head ≡ 0
Chain disk (b ∷ bs) head = (head ≡ b) × (b ≢ 0) × Chain disk bs (disk b 0)

-- Block `c` is none of `bs`.
abbrev pub Away : ℕ → List ℕ → Type 0
Away c [] = Unit
Away c (b ∷ bs) = (b ≢ c) × Away c bs

abbrev pub Distinct : List ℕ → Type 0
Distinct [] = Unit
Distinct (b ∷ bs) = Away b bs × Distinct bs

-- How many of the slots from 1 to n - 1 refer to `y`.
unfoldable pub slots : ℕ → Block → ℕ → ℕ
slots zero refs y = 0
slots (suc n) refs y = slots n refs y + (if ltb 0 n && (refs n == y) then 1 else 0)

-- How often `y` is on the free list.
unfoldable pub occurrences : Disk → List ℕ → ℕ → ℕ
occurrences disk [] y = 0
occurrences disk (b ∷ bs) y =
    (if b == y then 1 else 0) + slots refs_per_block (disk b) y + occurrences disk bs y

pub slots-update :
    (n : ℕ) (refs : Block) (i y : ℕ)
    → y ≢ 0
    → slots n (update refs i 0) y + (if ltb 0 i && (ltb i n && (refs i == y)) then 1 else 0)
      ≡ slots n refs y
unfolding slots
slots-update zero refs i y ne = ground arith
slots-update (suc n) refs i y ne = ground (arith, slots-update n refs i y ne)

-- A change of a block that is not in the chain is not noticed.
pub Chain-update :
    (disk : Disk) (bs : List ℕ) (head c : ℕ) (v : Block)
    → Away c bs
    → Chain disk bs head
    → Chain (update disk c v) bs head
Chain-update disk [] head c v away h = h
Chain-update disk (b ∷ bs) head c v away h = (
  h.0,
  h.1,
  rw (update_ne disk v (λ e. away.0 (sym e))) (Chain-update disk bs (disk b 0) c v away.1 h.2),
)

pub occurrences-update :
    (disk : Disk) (bs : List ℕ) (c : ℕ) (v : Block) (y : ℕ)
    → Away c bs
    → occurrences (update disk c v) bs y ≡ occurrences disk bs y
unfolding occurrences
occurrences-update disk [] c v y away = refl
occurrences-update disk (b ∷ bs) c v y away =
    rw (update_ne disk v (λ e. away.0 (sym e)), occurrences-update disk bs c v y away.1)

-- The slot that `last_ref` finds is in use, if it is not 0; if it is 0, no slot but slot 0 is.
pub last_ref-lt : (n : ℕ) (refs : Block) → 0 < n → last_ref n refs < n
unfolding last_ref
last_ref-lt zero refs h = absurd (omega arith)
last_ref-lt (suc zero) refs h = ground arith
last_ref-lt (suc (suc n)) refs h = ground (arith, last_ref-lt (suc n) refs (omega arith))

pub ref-last_ref-ne-zero : (n : ℕ) (refs : Block) → last_ref n refs ≢ 0 → refs (last_ref n refs) ≢ 0
unfolding last_ref
ref-last_ref-ne-zero zero refs h = absurd (h refl)
ref-last_ref-ne-zero (suc n) refs h = elim (Bool-cases (refs n == 0)) [
  | inl empty ↦ rw empty (ref-last_ref-ne-zero n refs (rw empty at h))
  | inr found ↦ rw found (ne_of_== (refs n) 0 found)
]

pub slots_empty : (n : ℕ) (refs : Block) (y : ℕ) → y ≢ 0 → last_ref n refs ≡ 0 → slots n refs y ≡ 0
unfolding last_ref slots
slots_empty zero refs y ne h = refl
slots_empty (suc n) refs y ne h = ground (arith, slots_empty n refs y ne)

pub Chain-Away : (disk : Disk) (bs : List ℕ) (head : ℕ) → Chain disk bs head → Away 0 bs
Chain-Away disk [] head h = tt
Chain-Away disk (b ∷ bs) head h = (h.1, Chain-Away disk bs (disk b 0) h.2)

-- How many of the slots from 1 to n - 1 are in use.
unfoldable pub in_use : ℕ → Block → ℕ
in_use zero refs = 0
in_use (suc n) refs = in_use n refs + (if ltb 0 n && not (refs n == 0) then 1 else 0)

-- How many blocks are free: those of the chain, and those that their slots refer to.
unfoldable pub free_blocks : Disk → List ℕ → ℕ
free_blocks disk [] = 0
free_blocks disk (b ∷ bs) = 1 + in_use refs_per_block (disk b) + free_blocks disk bs

pub in_use-update :
    (n : ℕ) (refs : Block) (i : ℕ)
    → in_use n (update refs i 0) + (if ltb 0 i && (ltb i n && not (refs i == 0)) then 1 else 0)
      ≡ in_use n refs
unfolding in_use
in_use-update zero refs i = ground arith
in_use-update (suc n) refs i = ground (arith, in_use-update n refs i)

pub in_use_empty : (n : ℕ) (refs : Block) → last_ref n refs ≡ 0 → in_use n refs ≡ 0
unfolding last_ref in_use
in_use_empty zero refs h = refl
in_use_empty (suc n) refs h = ground (arith, in_use_empty n refs)

pub free_blocks-update :
    (disk : Disk) (bs : List ℕ) (c : ℕ) (v : Block)
    → Away c bs
    → free_blocks (update disk c v) bs ≡ free_blocks disk bs
unfolding free_blocks
free_blocks-update disk [] c v away = refl
free_blocks-update disk (b ∷ bs) c v away =
    rw (update_ne disk v (λ e. away.0 (sym e)), free_blocks-update disk bs c v away.1)

-- A block that is nowhere on the free list is none of its own blocks.
pub Away-occurrences : (disk : Disk) (bs : List ℕ) (c : ℕ) → occurrences disk bs c ≡ 0 → Away c bs
unfolding occurrences
Away-occurrences disk [] c h = tt
Away-occurrences disk (b ∷ bs) c h = (ground arith, Away-occurrences disk bs c (omega arith))
