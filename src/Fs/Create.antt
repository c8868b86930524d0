-- ===== src/Fs/Create.antt =====
-- `treedisk_create` (library/file/file1.c), and `mydisk_create` (library/file/file0.c).
pub mod Refine
use egos_upstream.Base.{
  none, some, ℕ, zero, suc, ◌+◌, ◌-◌, ◌/◌, ◌%◌, ◌^◌, ltb, ◌==◌, if◌then◌else◌, update,
}
use egos_upstream.Fs.Store.{
  Block, null_block, InodeStore, failed, panicked, M, pure, ◌>>=◌, ◌>>◌, read_or_fail,
  write_or_fail,
}
use egos_upstream.Fs.Layout.{inodes_per_block, n_inodeblocks}
use egos_upstream.Fs.Freelist.{setup_freelist}

module _ {S : Type 0} (below : InodeStore S) (ino : ℕ) where
  -- for (uint i = 1; i <= n_inodeblocks; i++): `n` inode blocks from `i` on, all null
  unfoldable pub clear_inodes : ℕ → ℕ → M S (Unit {0})
  clear_inodes zero i = pure tt
  clear_inodes (suc n) i = do write_or_fail below ino i null_block; clear_inodes n (i + 1)

  -- The superblock, the free list and the inode blocks of a new file system. The rounds of
  -- `setup_freelist` are at most as many as the blocks; `junk` is what stands in its array at first.
  unfoldable pub initialise : Block → ℕ → ℕ → M S (Unit {0})
  initialise junk n nblocks = do
    head ← setup_freelist below ino nblocks junk 0 (n + 1) nblocks
    write_or_fail below ino 0 (update (update null_block 0 n) 1 head)
    clear_inodes n 1

  -- A superblock that counts no inode blocks is not initialised.
  unfoldable pub treedisk_create : Block → ℕ → M S (Unit {0})
  treedisk_create junk ninodes s =
      let n = (ninodes + inodes_per_block - 1) % 2 ^ 32 / inodes_per_block in
      let create : ℕ → M S (Unit {0}) = (λ nblocks. do
        superblock ← read_or_fail below ino 0
        if n_inodeblocks superblock == 0 then initialise junk n nblocks else pure tt) in
      elim (below.getsize s ino) [
        | none ↦ panicked s
        | some nblocks ↦ if ltb nblocks (n + 2) then failed s else create nblocks s
      ]

unfoldable pub mydisk_create : {S : Type 0} → InodeStore S → ℕ → ℕ → M S (Unit {0})
mydisk_create below below_ino ninodes = pure tt
