-- ===== src/Fs/Layout.antt =====
-- The layout of a treedisk file system (library/file/file1.h), and its trees' depth.
use egos_upstream.Base.{ℕ, zero, suc, ◌+◌, ◌-◌, ◌*◌, ◌/◌, ◌%◌, ◌^◌, leb, ◌==◌, if◌then◌else◌}
use egos_upstream.Fs.Store.{Block, refs_per_block}

abbrev pub inodes_per_block : ℕ
inodes_per_block = 64

-- superblock.n_inodeblocks and superblock.free_list
abbrev pub n_inodeblocks : Block → ℕ
n_inodeblocks b = b 0

abbrev pub free_list : Block → ℕ
free_list b = b 1

-- The words of an inode block that hold `root` and `nblocks` of an inode.
abbrev pub root_word : ℕ → ℕ
root_word inode_no = 2 * (inode_no % inodes_per_block)

abbrev pub nblocks_word : ℕ → ℕ
nblocks_word inode_no = 2 * (inode_no % inodes_per_block) + 1

-- Shifting out all 32 bits gives 0.
unfoldable pub log_shift_r : ℕ → ℕ → ℕ
log_shift_r x nbits = if leb 32 nbits then 0 else x / 2 ^ nbits

-- do log_rpb++ while (((REFS_PER_BLOCK - 1) >> log_rpb) != 0)
unfoldable pub find_log_rpb : ℕ → ℕ → ℕ
find_log_rpb zero log_rpb = log_rpb
find_log_rpb (suc fuel) log_rpb =
    let again = find_log_rpb fuel (log_rpb + 1) in
    if (refs_per_block - 1) / 2 ^ (log_rpb + 1) == 0 then log_rpb + 1 else again

abbrev pub log_rpb : ℕ
log_rpb = 7

-- while (log_shift_r(x, nlevels * log_rpb) != 0) nlevels++
unfoldable pub levels_from : ℕ → ℕ → ℕ → ℕ
unfolding log_shift_r
levels_from zero x nlevels = nlevels
levels_from (suc fuel) x nlevels =
    let deeper = levels_from fuel x (nlevels + 1) in
    if log_shift_r x (nlevels * log_rpb) == 0 then nlevels else deeper

-- The levels of indirect blocks that reach offset `x`. Five levels of seven bits are 35 bits, so six
-- tests are enough.
unfoldable pub levels_of : ℕ → ℕ
unfolding levels_from
levels_of x = levels_from 6 x 0

-- The levels of a file of `nblocks` blocks.
unfoldable pub levels : ℕ → ℕ
unfolding levels_of
levels nblocks = if nblocks == 0 then 0 else levels_of (nblocks - 1)

-- The slot of an indirect block at `nlevels` levels above the data.
unfoldable pub slot : ℕ → ℕ → ℕ
unfolding log_shift_r
slot offset nlevels = log_shift_r offset (nlevels * log_rpb) % refs_per_block
