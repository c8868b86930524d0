-- ===== src/Fs/Read/Lookup.antt =====
-- What a read finds: the depth of a file's tree, and the walk as a function of the disk.
use egos_upstream.Base.{
  ℕ, zero, suc, ◌+◌, ◌-◌, ◌*◌, ◌/◌, ◌%◌, ◌^◌, ◌≤◌, ◌<◌, ◌≡◌, refl, ◌⊎◌, inl, inr, ◌&&◌, Option,
  none, some, arith, ltb, ◌==◌, if◌then◌else◌,
}
use egos_upstream.Fs.Store.{
  Block, Disk, null_block, InodeStore, Out, ret, failed, Reliable, Readable, readable,
  read_or_fail-Readable,
}
use egos_upstream.Fs.Layout.{
  inodes_per_block, n_inodeblocks, root_word, nblocks_word, log_shift_r, levels_from, levels_of,
  levels, slot, find_log_rpb, log_rpb,
}
use egos_upstream.Fs.Read.{treedisk_get_snapshot, read_walk, treedisk_read}

-- `n` base-128 digits hold `x`, and no fewer do.
abbrev pub IsDepth : ℕ → ℕ → Type 0
IsDepth x n = (n ≤ 5) × (x < 128 ^ n) × ((n ≡ 0) ⊎ (128 ^ (n - 1) ≤ x))

pub depth_cases :
    (x : ℕ)
    → ((levels_of x ≡ 0) × (x < 1))
      ⊎ ((levels_of x ≡ 1) × (1 ≤ x) × (x < 128))
      ⊎ ((levels_of x ≡ 2) × (128 ≤ x) × (x < 16384))
      ⊎ ((levels_of x ≡ 3) × (16384 ≤ x) × (x < 2097152))
      ⊎ ((levels_of x ≡ 4) × (2097152 ≤ x) × (x < 268435456))
      ⊎ ((levels_of x ≡ 5) × (268435456 ≤ x))
unfolding levels_of levels_from log_shift_r
depth_cases x = ground arith

-- The levels of a 32-bit offset are the least number of base-128 digits that hold it, at most five.
pub levels_of-IsDepth : (x : ℕ) → x < 2 ^ 32 → IsDepth x (levels_of x)
levels_of-IsDepth x h = elim (depth_cases x) [
  | inl (e, hi) ↦ rw e (omega arith, omega arith, inl refl)
  | inr (inl (e, lo, hi)) ↦ rw e (omega arith, omega arith, inr (omega arith))
  | inr (inr (inl (e, lo, hi))) ↦ rw e (omega arith, omega arith, inr (omega arith))
  | inr (inr (inr (inl (e, lo, hi)))) ↦ rw e (omega arith, omega arith, inr (omega arith))
  | inr (inr (inr (inr (inl (e, lo, hi))))) ↦ rw e (omega arith, omega arith, inr (omega arith))
  | inr (inr (inr (inr (inr (e, lo))))) ↦ rw e (omega arith, omega arith, inr (omega arith))
]

-- `treedisk_init` computes the logarithm that the walks use.
find_log_rpb_lem : find_log_rpb 32 0 ≡ log_rpb
unfolding find_log_rpb
find_log_rpb_lem = refl

-- The block at `offset` of the tree with root `b`, `nlevels` levels high.
unfoldable pub lookup_block : Disk → ℕ → ℕ → ℕ → Block
lookup_block disk zero offset b = if b == 0 then null_block else disk b
lookup_block disk (suc nlevels) offset b =
    let next = lookup_block disk nlevels offset (disk b (slot offset nlevels)) in
    if b == 0 then null_block else next

-- The inode `inode_no`, on the disk.
abbrev pub inode_block : Disk → ℕ → Block
inode_block disk inode_no = disk (1 + inode_no / inodes_per_block)

-- The result of a read, from the disk alone.
unfoldable pub file_block : Disk → ℕ → ℕ → Option Block
file_block disk inode_no offset =
    let nblocks = inode_block disk inode_no (nblocks_word inode_no) in
    let root = inode_block disk inode_no (root_word inode_no) in
    if ltb inode_no (n_inodeblocks (disk 0) * inodes_per_block % 2 ^ 32) && ltb offset nblocks
    then some (lookup_block disk (levels nblocks) offset root)
    else none

-- How a read comes back with a result, or with -1 where there is none.
abbrev pub answer : {S : Type 0} → Option Block → S → Out S Block
answer none s = failed s
answer (some b) s = ret b s

module _ {S : Type 0} (below : InodeStore S) (ino : ℕ) (ok : Readable below ino) where
  read_walk-lookup_block :
      (nlevels offset b : ℕ) (s : S)
      → read_walk below ino nlevels offset b s ≡ ret (lookup_block (ok.view s) nlevels offset b) s
  unfolding read_walk lookup_block
  read_walk-lookup_block zero offset b s = ground (arith, read_or_fail-Readable below ino ok s b)
  read_walk-lookup_block (suc nlevels) offset b s = ground (
    arith,
    read_or_fail-Readable below ino ok s b,
    read_walk-lookup_block nlevels offset (ok.view s b (slot offset nlevels)) s,
  )

  pub snapshot-Readable :
      (inode_no : ℕ) (s : S)
      → treedisk_get_snapshot below ino inode_no s ≡ (
          if ltb inode_no (n_inodeblocks (ok.view s 0) * inodes_per_block % 2 ^ 32)
          then ret
              (record {
                superblock = ok.view s 0;
                inodeblock = inode_block (ok.view s) inode_no;
                inode_blockno = 1 + inode_no / inodes_per_block;
              })
              s
          else failed s)
  unfolding treedisk_get_snapshot
  snapshot-Readable inode_no s = ground (
    arith,
    read_or_fail-Readable below ino ok s 0,
    read_or_fail-Readable below ino ok s (1 + inode_no / inodes_per_block),
  )

  -- A read of a store that can be read.
  pub treedisk_read-Readable :
      (inode_no offset : ℕ) (s : S)
      → treedisk_read below ino inode_no offset s
        ≡ answer (file_block (ok.view s) inode_no offset) s
  unfolding treedisk_read file_block
  treedisk_read-Readable inode_no offset s =
      let inodes = inode_block (ok.view s) inode_no in
      ground (
        arith,
        snapshot-Readable inode_no s,
        read_walk-lookup_block (levels (inodes (nblocks_word inode_no))) offset
            (inodes (root_word inode_no)) s,
      )

module _ {S : Type 0} (below : InodeStore S) (ino : ℕ) (ok : Reliable below ino) where
  pub snapshot_lem :
      (inode_no : ℕ) (s : S)
      → treedisk_get_snapshot below ino inode_no s ≡ (
          if ltb inode_no (n_inodeblocks (ok.view s 0) * inodes_per_block % 2 ^ 32)
          then ret
              (record {
                superblock = ok.view s 0;
                inodeblock = inode_block (ok.view s) inode_no;
                inode_blockno = 1 + inode_no / inodes_per_block;
              })
              s
          else failed s)
  snapshot_lem inode_no s = snapshot-Readable below ino (readable ok) inode_no s

  -- On a reliable store `treedisk_read` changes nothing and never panics. It returns the block that
  -- the inode's tree holds at the offset, or -1 exactly when the inode number is not below the number
  -- of inodes or the offset is not below the file's size.
  pub treedisk_read-file_block :
      (inode_no offset : ℕ) (s : S)
      → treedisk_read below ino inode_no offset s
        ≡ answer (file_block (ok.view s) inode_no offset) s
  treedisk_read-file_block inode_no offset s =
      treedisk_read-Readable below ino (readable ok) inode_no offset s
