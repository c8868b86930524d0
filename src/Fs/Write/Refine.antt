-- ===== src/Fs/Write/Refine.antt =====
-- `treedisk_write` does to the files what a write should do.
use egos_upstream.Base.{arith, ℕ, ◌+◌, ◌/◌, ◌^◌, ◌≤◌, ◌<◌, ◌≡◌, ◌∙◌, fun_ext, List}
use egos_upstream.Fs.Store.{Block, InodeStore, ret, Reliable}
use egos_upstream.Fs.Layout.{inodes_per_block, n_inodeblocks, root_word, levels}
use egos_upstream.Fs.Freelist.Chain.{free_blocks}
use egos_upstream.Fs.Read.Lookup.{file_block}
use egos_upstream.Fs.Write.{treedisk_write}
use egos_upstream.Fs.Write.Walk.Run.{write_at_total}
use egos_upstream.Fs.Write.Prepare.Run.{size_with, prepare_total}
use egos_upstream.Fs.Write.Result.{inode_blocks, written-IsFs, file_block-write}
use egos_upstream.Fs.System.Paths.{levels-le-five}
use egos_upstream.Fs.System.{inode_size, inodes, IsFs, file_write}

module _ {S : Type 0} (below : InodeStore S) (ino : ℕ) (ok : Reliable below ino) where
  -- On a reliable store that holds a well-formed file system with at least 11 free blocks, a
  -- `treedisk_write` to an inode that exists, at an offset below 2^32 - 1, returns. The file system is
  -- well formed again with as many inode blocks, and at most 11 free blocks less. The file reads as the block at the offset, as null
  -- blocks from its old end up to there, and elsewhere as before; all other files read as before.
  pub treedisk_write-file_write :
      (s : S) (bs : List ℕ) (inode_no offset : ℕ) (block : Block)
      → IsFs (ok.view s) bs
      → inode_no < inodes (ok.view s)
      → offset + 1 < 2 ^ 32
      → 11 ≤ free_blocks (ok.view s) bs
      → (s' : S) × (bs' : List ℕ) × (treedisk_write below ino inode_no offset block s ≡ ret tt s')
        × IsFs (ok.view s') bs'
        × (n_inodeblocks (ok.view s' 0) ≡ n_inodeblocks (ok.view s 0))
        × (free_blocks (ok.view s) bs ≤ free_blocks (ok.view s') bs' + 11)
        × (file_block (ok.view s') ≡ file_write (file_block (ok.view s)) inode_no offset block)
  treedisk_write-file_write s bs inode_no offset block fs lt bound enough =
      let size = size_with (inode_size (ok.view s) inode_no) offset in
      let (snapshot, s2, bs2, e, p) =
        prepare_total below ino ok s bs fs inode_no lt offset block bound enough in
      let (s3, bs3, e', w) =
        write_at_total below ino ok (levels size) offset (1 + inode_no / inodes_per_block)
          snapshot.inodeblock (root_word inode_no) snapshot block bs2 s2 p.ready in
      (
        s3,
        bs3,
        e ∙ e',
        written-IsFs (ok.view s) bs fs inode_no lt offset bound block (ok.view s2) bs2 snapshot p
            (ok.view s3) bs3 w,
        inode_blocks (ok.view s) bs fs inode_no lt offset bound block (ok.view s2) bs2 snapshot p
            (ok.view s3) bs3 w,
        omega (arith, p.spent, w.spent, levels-le-five size),
        fun_ext (λ i. fun_ext (λ x.
            file_block-write (ok.view s) bs fs inode_no lt offset bound block (ok.view s2) bs2
              snapshot p (ok.view s3) bs3 w i x)),
      )
