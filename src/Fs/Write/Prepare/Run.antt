-- ===== src/Fs/Write/Prepare/Run.antt =====
-- `treedisk_write` up to the walk.
use egos_upstream.Base.{
  ℕ, ◌+◌, ◌-◌, ◌/◌, ◌%◌, ◌^◌, ◌≤◌, ◌<◌, ◌≡◌, refl, sym, ◌∙◌, inl, inr, true, false, List, arith,
  leb, ◌==◌, if◌then◌else◌, Bool-cases, update_self,
}
use egos_upstream.Fs.Store.{Block, Disk, InodeStore, ret, Reliable, write_or_panic_lem}
use egos_upstream.Fs.Layout.{inodes_per_block, root_word, nblocks_word, levels}
use egos_upstream.Fs.Freelist.{Snapshot}
use egos_upstream.Fs.Freelist.Chain.{free_blocks}
use egos_upstream.Fs.Read.{treedisk_get_snapshot}
use egos_upstream.Fs.Read.Lookup.{inode_block, snapshot_lem}
use egos_upstream.Fs.Write.{grow_size, grow_levels, treedisk_write}
use egos_upstream.Fs.Write.Walk.Run.{write_at}
use egos_upstream.Fs.Write.Grow.Run.{grow_levels_total}
use egos_upstream.Fs.Write.Prepare.{
  Prepared, before, sized, old_Prepared, sized-IsGrowing, new_Prepared,
}
use egos_upstream.Fs.System.{inode_size, inodes, IsFs}
use egos_upstream.Fs.System.Paths.{levels_mono}

-- The size of a file of `nblocks` blocks after a write at the offset.
abbrev pub size_with : ℕ → ℕ → ℕ
size_with nblocks offset = if leb nblocks offset then offset + 1 else nblocks

module _ {S : Type 0} (below : InodeStore S) (ino : ℕ) (ok : Reliable below ino) (s : S)
    (bs : List ℕ) (fs : IsFs (ok.view s) bs) (inode_no : ℕ)
    (lt : inode_no < inodes (ok.view s)) where
  abbrev disk : Disk
  disk = ok.view s

  abbrev old_size : ℕ
  old_size = inode_size disk inode_no

  at_snapshot : treedisk_get_snapshot below ino inode_no s ≡ ret (before disk bs fs inode_no lt) s
  at_snapshot = snapshot_lem below ino ok inode_no s ∙ ground (arith, fs.small)

  write_old :
      (offset : ℕ) (block : Block)
      → offset < old_size
      → treedisk_write below ino inode_no offset block s
        ≡ write_at below ino ok
            (levels old_size)
            offset
            (1 + inode_no / inodes_per_block)
            (inode_block disk inode_no)
            (root_word inode_no)
            (before disk bs fs inode_no lt)
            block
            s
  unfolding treedisk_write write_at grow_size grow_levels
  write_old offset block h = ground (arith, at_snapshot)

  module _ (offset : ℕ) (past : old_size ≤ offset) (bound : offset + 1 < 2 ^ 32) where
    abbrev larger : Snapshot
    larger = sized disk bs fs inode_no lt offset past bound

    grow_size_past :
        grow_size inode_no offset (before disk bs fs inode_no lt)
        ≡ (larger, true, levels (offset + 1))
    unfolding grow_size levels
    grow_size_past =
        let same : (offset + 1) % 2 ^ 32 ≡ offset + 1 = omega arith in
        let back : offset + 1 - 1 ≡ offset = omega arith in
        let some_left : (offset + 1 == 0) ≡ false = ground arith in
        let test : leb old_size offset ≡ true = ground arith in
        rw (test, same, some_left, back) refl

    not_empty : (larger.inodeblock (nblocks_word inode_no) == 0) ≡ false
    not_empty =
        rw (update_self (inode_block disk inode_no) (nblocks_word inode_no) (offset + 1))
          (ground arith)

    climb : levels old_size + (levels (offset + 1) - levels old_size) ≡ levels (offset + 1)
    climb = omega (arith, levels_mono old_size (offset + 1) (omega arith))

    write_new :
        (block : Block) (snapshot1 : Snapshot) (s1 : S)
        → grow_levels below ino (levels (offset + 1) - levels old_size) inode_no larger s
          ≡ ret snapshot1 s1
        → snapshot1.inode_blockno ≡ 1 + inode_no / inodes_per_block
        → treedisk_write below ino inode_no offset block s
          ≡ write_at below ino ok
              (levels (offset + 1))
              offset
              (1 + inode_no / inodes_per_block)
              snapshot1.inodeblock
              (root_word inode_no)
              snapshot1
              block
              (ok.after s1 (1 + inode_no / inodes_per_block) snapshot1.inodeblock)
    unfolding treedisk_write write_at
    write_new block snapshot1 s1 e same = ground (
      arith,
      at_snapshot,
      grow_size_past,
      not_empty,
      climb,
      write_or_panic_lem below ino ok s1 (1 + inode_no / inodes_per_block) snapshot1.inodeblock,
    )

  pub prepare_total :
      (offset : ℕ) (block : Block)
      → offset + 1 < 2 ^ 32
      → 11 ≤ free_blocks disk bs
      → (snapshot' : Snapshot) × (s' : S) × (bs' : List ℕ) × (treedisk_write below ino inode_no
            offset block s
          ≡ write_at below ino ok
              (levels (size_with old_size offset))
              offset
              (1 + inode_no / inodes_per_block)
              snapshot'.inodeblock
              (root_word inode_no)
              snapshot'
              block
              s')
        × Prepared disk bs inode_no
            (levels (size_with old_size offset))
            (size_with old_size offset)
            (ok.view s')
            bs'
            snapshot'
  prepare_total offset block bound enough = elim (Bool-cases (leb old_size offset)) [
    | inl past ↦
        let le : old_size ≤ offset = ground arith in
        let (snapshot1, s1, bs1, e, g) =
          grow_levels_total below ino ok (levels (offset + 1) - levels old_size) (levels old_size)
            (levels (offset + 1)) inode_no (larger offset le bound) bs s
            (sym (climb offset le bound))
            (sized-IsGrowing disk bs fs inode_no lt offset le bound enough) in
        rw past (
          snapshot1,
          ok.after s1 (1 + inode_no / inodes_per_block) snapshot1.inodeblock,
          bs1,
          write_new offset le bound block snapshot1 s1 e g.inode_no_same,
          rw (ok.written s1 (1 + inode_no / inodes_per_block) snapshot1.inodeblock) (
              new_Prepared disk bs fs inode_no lt offset le bound (ok.view s1) bs1 snapshot1 enough
                g),
        )
    | inr within ↦ rw within (
      before disk bs fs inode_no lt,
      s,
      bs,
      write_old offset block (ground arith),
      old_Prepared disk bs fs inode_no lt (omega arith),
    )
  ]
