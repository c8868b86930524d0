-- ===== src/Fs/Init/Refine.antt =====
-- A treedisk as an inode store: what its reads give after a write.
use egos_upstream.Base.{
  ℕ, ◌+◌, ◌^◌, ◌≤◌, ◌<◌, ◌≡◌, refl, sym, ap, ◌∙◌, fun_ext, inl, inr, some, List, Option-cases,
}
use egos_upstream.Fs.Store.{Block, InodeStore, ret, Reliable, Readable, readable}
use egos_upstream.Fs.Freelist.Chain.{free_blocks}
use egos_upstream.Fs.Read.Lookup.{file_block, treedisk_read-Readable}
use egos_upstream.Fs.Write.{treedisk_write}
use egos_upstream.Fs.Write.Refine.{treedisk_write-file_write}
use egos_upstream.Fs.System.{inodes, IsFs, file_write}
use egos_upstream.Fs.Init.{read_result, write_result, treedisk_init}

module _ {S : Type 0} (below : InodeStore S) (ino : ℕ) (ok : Readable below ino) where
  pub read_init-Readable :
      (s : S) (i x : ℕ) → (treedisk_init below ino).read s i x ≡ file_block (ok.view s) i x
  unfolding treedisk_init read_result
  read_init-Readable s i x =
      ap read_result (treedisk_read-Readable below ino ok i x s)
      ∙ elim (Option-cases (file_block (ok.view s) i x)) [
        | inl e ↦ rw e refl
        | inr (b, e) ↦ rw e refl
      ]

module _ {S : Type 0} (below : InodeStore S) (ino : ℕ) (ok : Reliable below ino) where
  pub read_init :
      (s : S) (i x : ℕ) → (treedisk_init below ino).read s i x ≡ file_block (ok.view s) i x
  read_init s i x = read_init-Readable below ino (readable ok) s i x

  pub write_init :
      (s : S) (inode_no offset : ℕ) (block : Block) (s' : S)
      → treedisk_write below ino inode_no offset block s ≡ ret tt s'
      → (treedisk_init below ino).write s inode_no offset block ≡ some s'
  unfolding treedisk_init write_result
  write_init s inode_no offset block s' e = ap write_result e

  -- On a reliable store that holds a well-formed file system with at least 11 free blocks, a write
  -- through the store that `treedisk_init` makes, to an inode that exists and at an offset below
  -- 2^32 - 1, succeeds. Reads through that store then give the files as they read before, with the
  -- block at the offset and null blocks up to there where the file had none.
  pub treedisk_init-file_write :
      (s : S) (bs : List ℕ) (inode_no offset : ℕ) (block : Block)
      → IsFs (ok.view s) bs
      → inode_no < inodes (ok.view s)
      → offset + 1 < 2 ^ 32
      → 11 ≤ free_blocks (ok.view s) bs
      → let store = treedisk_init below ino in
        (s' : S) × (store.write s inode_no offset block ≡ some s')
        × (store.read s' ≡ file_write (store.read s) inode_no offset block)
  treedisk_init-file_write s bs inode_no offset block fs lt bound enough =
      let (s', bs', e, fs', same, spent, files) =
        treedisk_write-file_write below ino ok s bs inode_no offset block fs lt bound enough in
      let reads : (t : S) → (treedisk_init below ino).read t ≡ file_block (ok.view t) =
        λ t. fun_ext (λ i. fun_ext (λ x. read_init t i x)) in
      (
        s',
        write_init s inode_no offset block s' e,
        reads s' ∙ files ∙ sym (ap (λ files. file_write files inode_no offset block) (reads s)),
      )
