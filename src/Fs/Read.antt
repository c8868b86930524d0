-- ===== src/Fs/Read.antt =====
-- `treedisk_get_snapshot`, `treedisk_getsize` and `treedisk_read` (library/file/file1.c).
pub mod Lookup
use egos_upstream.Base.{ℕ, zero, suc, ◌+◌, ◌*◌, ◌/◌, ◌%◌, ◌^◌, ltb, ◌==◌, if◌then◌else◌}
use egos_upstream.Fs.Store.{
  Block, null_block, InodeStore, M, pure, fail, panic, ◌>>=◌, read_or_fail,
}
use egos_upstream.Fs.Layout.{inodes_per_block, n_inodeblocks, root_word, nblocks_word, levels, slot}
use egos_upstream.Fs.Freelist.{Snapshot}

module _ {S : Type 0} (below : InodeStore S) (ino : ℕ) where
  -- The inode number is compared with a product of uints.
  unfoldable pub treedisk_get_snapshot : ℕ → M S Snapshot
  treedisk_get_snapshot inode_no = do
    superblock ← read_or_fail below ino 0
    let inode_blockno = 1 + inode_no / inodes_per_block
    if ltb inode_no (n_inodeblocks superblock * inodes_per_block % 2 ^ 32)
        then (do
          inodeblock ← read_or_fail below ino inode_blockno
          pure (record {
            superblock = superblock;
            inodeblock = inodeblock;
            inode_blockno = inode_blockno;
          }))
        else fail

  unfoldable pub treedisk_getsize : ℕ → M S ℕ
  treedisk_getsize inode_no = do
    snapshot ← treedisk_get_snapshot inode_no
    pure (snapshot.inodeblock (nblocks_word inode_no))

  -- Setting a size is not implemented.
  unfoldable pub treedisk_setsize : ℕ → ℕ → M S ℕ
  treedisk_setsize inode_no nblocks = panic

  -- The walk from the root: a reference 0 is a hole, which reads as null bytes at any level.
  unfoldable pub read_walk : ℕ → ℕ → ℕ → M S Block
  read_walk zero offset b = if b == 0 then pure null_block else read_or_fail below ino b
  read_walk (suc nlevels) offset b =
      let next = (do
        tib ← read_or_fail below ino b
        read_walk nlevels offset (tib (slot offset nlevels))) in
      if b == 0 then pure null_block else next

  unfoldable pub treedisk_read : ℕ → ℕ → M S Block
  treedisk_read inode_no offset = do
    snapshot ← treedisk_get_snapshot inode_no
    let nblocks = snapshot.inodeblock (nblocks_word inode_no)
    if ltb offset nblocks
        then read_walk (levels nblocks) offset (snapshot.inodeblock (root_word inode_no))
        else fail
