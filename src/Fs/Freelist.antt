-- ===== src/Fs/Freelist.antt =====
-- The free list of treedisk: `treedisk_alloc_block` and `setup_freelist` (library/file/file1.c).
pub mod Chain
pub mod Alloc
pub mod Setup
use egos_upstream.Base.{ℕ, zero, suc, ◌+◌, ◌-◌, ltb, ◌==◌, if◌then◌else◌, update, for_range}
use egos_upstream.Fs.Store.{
  Block, refs_per_block, InodeStore, M, pure, panic, ◌>>=◌, ◌>>◌, read_or_panic, write_or_panic,
}
use egos_upstream.Fs.Layout.{free_list}

-- for (i = REFS_PER_BLOCK; --i > 0;) if (refs[i] != 0) break; from `i` slots: the last slot in use,
-- or 0.
unfoldable pub last_ref : ℕ → Block → ℕ
last_ref zero refs = 0
last_ref (suc i) refs = let below = last_ref i refs in if refs i == 0 then below else i

-- struct treedisk_snapshot. The inode is the words of `inodeblock` at `root_word` and `nblocks_word`.
pub record Snapshot : Type 0 where
  pub superblock : Block
  pub inodeblock : Block
  pub inode_blockno : ℕ

-- The body of the loops that fill a free list block: `next_free` and the slots so far. From the round
-- in which the blocks run out, the second loop fills in 0.
unfoldable pub fill_body : ℕ → ℕ → ℕ × Block → ℕ × Block
fill_body nblocks i (next_free, refs) =
    if ltb next_free nblocks
    then (next_free + 1, update refs i next_free)
    else (next_free, update refs i 0)

module _ {S : Type 0} (below : InodeStore S) (ino : ℕ) where
  -- The block comes out of the last slot in use of the first free list block, or is that block.
  unfoldable pub treedisk_alloc_block : Snapshot → M S (ℕ × Snapshot)
  treedisk_alloc_block snapshot =
      let b = free_list snapshot.superblock in
      if b == 0 then panic else do
        refs ← read_or_panic below ino b
        let i = last_ref refs_per_block refs
        let superblock = update snapshot.superblock 1 (refs 0)
        if i == 0
            then (do
              write_or_panic below ino 0 superblock
              pure (b, record snapshot { superblock = superblock }))
            else (do write_or_panic below ino b (update refs i 0); pure (refs i, snapshot))

  -- One round of the loop takes one free list block and fills it. The slots of the round before are
  -- still in `freelist_data`, and are all written over.
  unfoldable pub setup_freelist : ℕ → Block → ℕ → ℕ → ℕ → M S ℕ
  setup_freelist zero freelist_data freelist_block next_free nblocks = pure freelist_block
  setup_freelist (suc fuel) freelist_data freelist_block next_free nblocks =
      let (next_free', refs) =
        for_range (refs_per_block - 1) 1 (fill_body nblocks)
          (next_free + 1, update freelist_data 0 freelist_block) in
      let rest = setup_freelist fuel refs next_free next_free' nblocks in
      if ltb next_free nblocks
      then (do write_or_panic below ino next_free refs; rest)
      else pure freelist_block
