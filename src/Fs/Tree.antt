-- ===== src/Fs/Tree.antt =====
-- The trees of blocks that hold files: which blocks a tree is made of, and what does not change it.
use egos_upstream.Base.{
  ℕ, zero, suc, ◌+◌, ◌≤◌, ◌<◌, ◌≡◌, refl, sym, ◌≢◌, inl, inr, arith, ◌==◌, if◌then◌else◌, eq_of_==,
  ==_false, ne_of_==, Bool-cases,
}
use egos_upstream.Fs.Store.{Disk, refs_per_block, null_block}
use egos_upstream.Fs.Layout.{slot}
use egos_upstream.Fs.Read.Lookup.{lookup_block}

unfoldable pub sum_to : ℕ → (ℕ → ℕ) → ℕ
sum_to zero f = 0
sum_to (suc n) f = sum_to n f + f n

pub sum_to-le : (n : ℕ) (f : ℕ → ℕ) (i : ℕ) → i < n → f i ≤ sum_to n f
unfolding sum_to
sum_to-le zero f i lt = absurd (omega arith)
sum_to-le (suc n) f i lt = elim (Bool-cases (i == n)) [
  | inl last ↦ rw (eq_of_== i n last) (omega arith)
  | inr before ↦ omega (arith, sum_to-le n f i (omega (arith, ne_of_== i n before)))
]

pub sum_to-ext : (n : ℕ) (f g : ℕ → ℕ) → ((i : ℕ) → i < n → f i ≡ g i) → sum_to n f ≡ sum_to n g
unfolding sum_to
sum_to-ext zero f g same = refl
sum_to-ext (suc n) f g same =
    omega (arith, sum_to-ext n f g (λ i lt. same i (omega arith)), same n (omega arith))

-- Two sums that differ in one summand.
pub sum_to-change :
    (n : ℕ) (f g : ℕ → ℕ) (i : ℕ)
    → i < n
    → ((j : ℕ) → j < n → j ≢ i → g j ≡ f j)
    → sum_to n g + f i ≡ sum_to n f + g i
unfolding sum_to
sum_to-change zero f g i lt same = absurd (omega arith)
sum_to-change (suc n) f g i lt same = elim (Bool-cases (i == n)) [
  | inl last ↦
      let at : i ≡ n = eq_of_== i n last in
      let rest = sum_to-ext n g f (λ j lj. same j (omega arith) (omega arith)) in
      rw at (omega (arith, rest))
  | inr before ↦
      let ne : i ≢ n = ne_of_== i n before in
      omega (
        arith,
        sum_to-change n f g i (omega arith) (λ j lj jne. same j (omega arith) jne),
        same n (omega arith) (λ e. ne (sym e)),
      )
]

-- Two summands are no more than the sum.
pub sum_to-two : (n : ℕ) (f : ℕ → ℕ) (i j : ℕ) → i < n → j < n → j ≢ i → f i + f j ≤ sum_to n f
sum_to-two n f i j li lj ne =
    let g : ℕ → ℕ = λ k. if k == i then 0 else f k in
    let changed = sum_to-change n f g i li (λ k lk k_ne. rw (==_false k i k_ne) refl) in
    let other = sum_to-le n g j lj in
    let at_i : g i ≡ 0 = ground arith in
    let at_j : g j ≡ f j = rw (==_false j i ne) refl in omega arith

pub sum_to_zero : (n : ℕ) (f : ℕ → ℕ) → ((i : ℕ) → i < n → f i ≡ 0) → sum_to n f ≡ 0
unfolding sum_to
sum_to_zero zero f same = refl
sum_to_zero (suc n) f same =
    omega (arith, sum_to_zero n f (λ i lt. same i (omega arith)), same n (omega arith))

-- How often block `y` is in the tree of `nlevels` levels with root `b`.
unfoldable pub tree_blocks : Disk → ℕ → ℕ → ℕ → ℕ
tree_blocks disk zero b y = if b == 0 then 0 else (if b == y then 1 else 0)
tree_blocks disk (suc nlevels) b y =
    let below = sum_to refs_per_block (λ i. tree_blocks disk nlevels (disk b i) y) in
    if b == 0 then 0 else (if b == y then 1 else 0) + below

pub tree_blocks_hole : (disk : Disk) (nlevels y : ℕ) → tree_blocks disk nlevels 0 y ≡ 0
unfolding tree_blocks
tree_blocks_hole disk zero y = refl
tree_blocks_hole disk (suc nlevels) y = refl

pub lookup_block_hole :
    (disk : Disk) (nlevels offset : ℕ) → lookup_block disk nlevels offset 0 ≡ null_block
unfolding lookup_block
lookup_block_hole disk zero offset = refl
lookup_block_hole disk (suc nlevels) offset = refl

-- The root is in its tree, and so are the blocks of the trees below it.
pub tree_blocks_root : (disk : Disk) (nlevels b : ℕ) → b ≢ 0 → 1 ≤ tree_blocks disk nlevels b b
unfolding tree_blocks
tree_blocks_root disk zero b ne = ground arith
tree_blocks_root disk (suc nlevels) b ne = ground arith

pub tree_blocks_sum :
    (disk : Disk) (nlevels b y : ℕ)
    → b ≢ 0
    → tree_blocks disk (suc nlevels) b y
      ≡ (if b == y then 1 else 0)
        + sum_to refs_per_block (λ i. tree_blocks disk nlevels (disk b i) y)
unfolding tree_blocks
tree_blocks_sum disk nlevels b y ne = rw (==_false b 0 ne) refl

pub tree_blocks_child :
    (disk : Disk) (nlevels b i y : ℕ)
    → b ≢ 0
    → i < refs_per_block
    → tree_blocks disk nlevels (disk b i) y + (if b == y then 1 else 0)
      ≤ tree_blocks disk (suc nlevels) b y
tree_blocks_child disk nlevels b i y ne lt = omega (
  arith,
  tree_blocks_sum disk nlevels b y ne,
  sum_to-le refs_per_block (λ i. tree_blocks disk nlevels (disk b i) y) i lt,
)

-- Disk `disk'` agrees with `disk` on the blocks of a tree.
abbrev pub Agrees : Disk → Disk → ℕ → ℕ → Type 0
Agrees disk disk' nlevels b = (c : ℕ) → c ≢ 0 → 1 ≤ tree_blocks disk nlevels b c → disk' c ≡ disk c

Agrees-child :
    (disk disk' : Disk) (nlevels b i : ℕ)
    → b ≢ 0
    → i < refs_per_block
    → Agrees disk disk' (suc nlevels) b
    → Agrees disk disk' nlevels (disk b i)
Agrees-child disk disk' nlevels b i ne lt same c c_ne there =
    same c c_ne (omega (arith, tree_blocks_child disk nlevels b i c ne lt))

pub slot_lt : (offset n : ℕ) → slot offset n < refs_per_block
unfolding slot
slot_lt offset n = omega arith

-- Such a disk has the same tree, and the same blocks are found in it.
pub tree_blocks-Agrees :
    (disk disk' : Disk) (nlevels b y : ℕ)
    → Agrees disk disk' nlevels b
    → tree_blocks disk' nlevels b y ≡ tree_blocks disk nlevels b y
unfolding tree_blocks
tree_blocks-Agrees disk disk' zero b y same = refl
tree_blocks-Agrees disk disk' (suc nlevels) b y same = elim (Bool-cases (b == 0)) [
  | inl hole ↦ rw hole refl
  | inr there ↦
      let ne = ne_of_== b 0 there in
      let at_root : disk' b ≡ disk b = same b ne (tree_blocks_root disk (suc nlevels) b ne) in
      let below =
        sum_to-ext refs_per_block (λ i. tree_blocks disk' nlevels (disk b i) y)
          (λ i. tree_blocks disk nlevels (disk b i) y)
          (λ i lt.
            tree_blocks-Agrees disk disk' nlevels (disk b i) y
              (Agrees-child disk disk' nlevels b i ne lt same)) in
      rw (there, at_root) (omega (arith, below))
]

pub lookup_block-Agrees :
    (disk disk' : Disk) (nlevels offset b : ℕ)
    → Agrees disk disk' nlevels b
    → lookup_block disk' nlevels offset b ≡ lookup_block disk nlevels offset b
unfolding lookup_block
lookup_block-Agrees disk disk' zero offset b same = elim (Bool-cases (b == 0)) [
  | inl hole ↦ rw hole refl
  | inr there ↦
      rw there (same b (ne_of_== b 0 there) (tree_blocks_root disk zero b (ne_of_== b 0 there)))
]
lookup_block-Agrees disk disk' (suc nlevels) offset b same = elim (Bool-cases (b == 0)) [
  | inl hole ↦ rw hole refl
  | inr there ↦
      let ne = ne_of_== b 0 there in
      let at_root : disk' b ≡ disk b = same b ne (tree_blocks_root disk (suc nlevels) b ne) in
      rw (there, at_root)
        (lookup_block-Agrees disk disk' nlevels offset (disk b (slot offset nlevels)) (
          Agrees-child disk disk' nlevels b (slot offset nlevels) ne (slot_lt offset nlevels) same))
]
