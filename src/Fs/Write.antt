-- ===== src/Fs/Write.antt =====
-- `treedisk_write` (library/file/file1.c).
pub mod Walk
pub mod Grow
pub mod Prepare
pub mod Refine
pub mod Result
use egos_upstream.Base.{
  ℕ, zero, suc, ◌+◌, ◌-◌, ◌%◌, ◌^◌, Bool, true, false, ◌||◌, ltb, leb, ◌==◌, if◌then◌else◌, update,
}
use egos_upstream.Fs.Store.{
  Block, null_block, InodeStore, M, pure, ◌>>=◌, ◌>>◌, read_or_panic, write_or_panic,
}
use egos_upstream.Fs.Layout.{root_word, nblocks_word, levels_of, levels, slot}
use egos_upstream.Fs.Freelist.{Snapshot, treedisk_alloc_block}
use egos_upstream.Fs.Read.{treedisk_get_snapshot}

-- snapshot->inode->root = b
abbrev pub set_root : ℕ → ℕ → Snapshot → Snapshot
set_root inode_no b snapshot = record snapshot {
  inodeblock = update snapshot.inodeblock (root_word inode_no) b;
}

-- The growth of `nblocks` by a write at `offset`: the snapshot, whether it is dirty, and the levels
-- that the file needs. The test that follows in the source is made on the new size.
unfoldable pub grow_size : ℕ → ℕ → Snapshot → Snapshot × Bool × ℕ
grow_size inode_no offset snapshot =
    let nblocks = snapshot.inodeblock (nblocks_word inode_no) in
    if leb nblocks offset
    then (
      record snapshot {
        inodeblock = update snapshot.inodeblock (nblocks_word inode_no) ((offset + 1) % 2 ^ 32);
      },
      true,
      levels_of offset,
    )
    else (snapshot, false, levels nblocks)

module _ {S : Type 0} (below : InodeStore S) (ino : ℕ) where
  -- while (nlevels_after > nlevels): a new indirect block above the root, `n` times.
  unfoldable pub grow_levels : ℕ → ℕ → Snapshot → M S Snapshot
  grow_levels zero inode_no snapshot = pure snapshot
  grow_levels (suc n) inode_no snapshot = do
    (indir, snapshot') ← treedisk_alloc_block below ino snapshot
    let tib = update null_block 0 (snapshot'.inodeblock (root_word inode_no))
    write_or_panic below ino indir tib
    grow_levels n inode_no (set_root inode_no indir snapshot')

  -- The walk down the tree. `parent` is the block at `parent_off` whose word `index` refers to the next
  -- block; a block that is missing is allocated and entered there.
  unfoldable pub write_walk : ℕ → ℕ → ℕ → Block → ℕ → Snapshot → M S ℕ
  write_walk zero offset parent_off parent index snapshot =
      if parent index == 0
      then (do
        (b, snapshot') ← treedisk_alloc_block below ino snapshot
        write_or_panic below ino parent_off (update parent index b)
        pure b)
      else pure (parent index)
  write_walk (suc nlevels) offset parent_off parent index snapshot =
      let into_new = (do
        (b, snapshot') ← treedisk_alloc_block below ino snapshot
        write_or_panic below ino parent_off (update parent index b)
        write_walk nlevels offset b null_block (slot offset nlevels) snapshot') in
      let into_old = (do
        tib ← read_or_panic below ino (parent index)
        write_walk nlevels offset (parent index) tib (slot offset nlevels) snapshot) in
      if parent index == 0 then into_new else into_old

  unfoldable pub treedisk_write : ℕ → ℕ → Block → M S (Unit {0})
  treedisk_write inode_no offset block = do
    snapshot ← treedisk_get_snapshot below ino inode_no
    let nlevels = levels (snapshot.inodeblock (nblocks_word inode_no))
    let (sized, resized, nlevels_after) = grow_size inode_no offset snapshot
    let is_empty = sized.inodeblock (nblocks_word inode_no) == 0
    let growth = if is_empty then 0 else nlevels_after - nlevels
    grown ← grow_levels growth inode_no sized
    (if resized || ltb 0 growth
        then write_or_panic below ino grown.inode_blockno grown.inodeblock
        else pure tt)
    b ←
        write_walk (if is_empty then nlevels_after else nlevels + growth) offset grown.inode_blockno
          grown.inodeblock (root_word inode_no) grown
    write_or_panic below ino b block
