-- ===== src/Fs/System.antt =====
-- A treedisk file system as a whole: its inodes, and what makes a disk a well-formed one.
pub mod Paths
use egos_upstream.Base.{
  ℕ, ◌+◌, ◌*◌, ◌^◌, ◌≤◌, ◌<◌, ◌≡◌, ◌≢◌, ◌&&◌, Option, none, some, List, ltb, ◌==◌, if◌then◌else◌,
}
use egos_upstream.Fs.Store.{Block, Disk, null_block}
use egos_upstream.Fs.Layout.{
  inodes_per_block, n_inodeblocks, free_list, root_word, nblocks_word, levels, slot,
}
use egos_upstream.Fs.Freelist.Chain.{Chain, Distinct, occurrences}
use egos_upstream.Fs.Read.Lookup.{lookup_block, inode_block}
use egos_upstream.Fs.Tree.{sum_to, tree_blocks}

abbrev pub inode_root : Disk → ℕ → ℕ
inode_root disk inode_no = inode_block disk inode_no (root_word inode_no)

abbrev pub inode_size : Disk → ℕ → ℕ
inode_size disk inode_no = inode_block disk inode_no (nblocks_word inode_no)

-- How often a block is in the tree of a file, and in those of the first `n` files.
unfoldable pub file_blocks : Disk → ℕ → ℕ → ℕ
file_blocks disk inode_no y =
    tree_blocks disk (levels (inode_size disk inode_no)) (inode_root disk inode_no) y

unfoldable pub all_files : Disk → ℕ → ℕ → ℕ
all_files disk n y = sum_to n (λ inode_no. file_blocks disk inode_no y)

-- The number of inodes.
abbrev pub inodes : Disk → ℕ
inodes disk = n_inodeblocks (disk 0) * inodes_per_block

-- A tree of `d` levels reaches the offset.
abbrev pub Fits : ℕ → ℕ → Type 0
Fits d offset = (j : ℕ) → d ≤ j → j < 5 → slot offset j ≡ 0

-- No block is used twice by the files and the free list, neither uses the superblock or an inode block,
-- and a file's tree holds nothing past the file's size.
pub record IsFs (disk : Disk) (bs : List ℕ) : Type 0 where
  pub chain : Chain disk bs (free_list (disk 0))
  pub distinct : Distinct bs
  pub unique : (y : ℕ) → y ≢ 0 → all_files disk (inodes disk) y + occurrences disk bs y ≤ 1
  pub reserved :
      (y : ℕ)
      → y ≢ 0
      → y ≤ n_inodeblocks (disk 0)
      → all_files disk (inodes disk) y + occurrences disk bs y ≡ 0
  pub sparse :
      (inode_no offset : ℕ)
      → inode_no < inodes disk
      → offset < 2 ^ 32
      → Fits (levels (inode_size disk inode_no)) offset
      → inode_size disk inode_no ≤ offset
      → lookup_block disk (levels (inode_size disk inode_no)) offset (inode_root disk inode_no)
        ≡ null_block
  pub sizes : (inode_no : ℕ) → inode_no < inodes disk → inode_size disk inode_no < 2 ^ 32
  pub small : inodes disk < 2 ^ 32

-- The contents of a file system, and what a write should make of them: the file holds the block at the
-- offset, and null blocks before it where it held nothing.
abbrev pub Files : Type 0
Files = ℕ → ℕ → Option Block

unfoldable pub or_null : Option Block → Block
or_null none = null_block
or_null (some block) = block

unfoldable pub file_write : Files → ℕ → ℕ → Block → Files
file_write files inode_no offset block i x =
    if (i == inode_no) && (x == offset)
    then some block
    else if (i == inode_no) && ltb x offset
    then some (or_null (files i x))
    else files i x
