-- ===== src/Fs/Create/Refine.antt =====
-- `treedisk_create` on a store without errors: the file system that it makes is well formed and empty.
use egos_upstream.Base.{
  ℕ, zero, suc, ◌+◌, ◌-◌, ◌*◌, ◌/◌, ◌%◌, ◌^◌, ◌≤◌, ◌<◌, ◌≡◌, refl, ap, ◌∙◌, fun_ext, ◌≢◌, ◌⊎◌, inl,
  inr, true, false, ◌&&◌, none, some, List, [], arith, ltb, leb, ◌==◌, if◌then◌else◌, eq_of_==,
  ne_of_==, Bool-cases, update, update_self,
}
use egos_upstream.Fs.Store.{
  Block, Disk, null_block, InodeStore, ret, failed, >>-ret, Reliable, read_or_fail_lem,
  write_or_fail, write_or_fail_lem,
}
use egos_upstream.Fs.Layout.{
  inodes_per_block, n_inodeblocks, free_list, root_word, nblocks_word, levels,
}
use egos_upstream.Fs.Freelist.{setup_freelist}
use egos_upstream.Fs.Freelist.Chain.{occurrences, free_blocks}
use egos_upstream.Fs.Freelist.Setup.{HoldsRange, HoldsRange-update, setup_freelist-HoldsRange}
use egos_upstream.Fs.Read.Lookup.{inode_block, file_block}
use egos_upstream.Fs.Tree.{sum_to_zero, tree_blocks_hole, lookup_block_hole}
use egos_upstream.Fs.System.{file_blocks, all_files, inodes, IsFs, Files}
use egos_upstream.Fs.Create.{clear_inodes, initialise, treedisk_create}

-- No inode has a file.
abbrev pub no_files : Files
no_files inode_no offset = none

-- Inode blocks that are null, and a list of all the blocks after them.
record IsBlank (n nblocks : ℕ) (disk : Disk) (bs : List ℕ) : Type 0 where
  count : n_inodeblocks (disk 0) ≡ n
  clear : (c : ℕ) → 1 ≤ c → c ≤ n → disk c ≡ null_block
  free : HoldsRange (n + 1) nblocks disk bs (free_list (disk 0))

module _ (n nblocks : ℕ) (disk : Disk) (bs : List ℕ) (blank : IsBlank n nblocks disk bs)
    (small : n * inodes_per_block < 2 ^ 32) where
  null_inode : (i k : ℕ) → i < n * inodes_per_block → inode_block disk i k ≡ 0
  null_inode i k lt =
      ap (λ (b : Block). b k) (blank.clear (1 + i / inodes_per_block) (omega arith) (omega arith))

  no_blocks : (y : ℕ) → all_files disk (inodes disk) y ≡ 0
  unfolding all_files file_blocks
  no_blocks y = rw blank.count (
      sum_to_zero (n * inodes_per_block) _ (λ i lt.
        rw (null_inode i (nblocks_word i) lt, null_inode i (root_word i) lt)
          (tree_blocks_hole disk (levels 0) y)))

  blank-IsFs : IsFs disk bs
  blank-IsFs = record {
    chain = blank.free.chain;
    distinct = blank.free.distinct;
    unique = λ y ne. ground (arith, no_blocks y, blank.free.counts y ne);
    reserved = λ y ne le. ground (arith, no_blocks y, blank.free.counts y ne, blank.count);
    sparse = λ i x lt bound.
        let lt' : i < n * inodes_per_block = omega (arith, blank.count) in
        rw (null_inode i (nblocks_word i) lt', null_inode i (root_word i) lt')
          (λ fits le. lookup_block_hole disk (levels 0) x);
    sizes = λ i lt. rw (null_inode i (nblocks_word i) (omega (arith, blank.count))) (omega arith);
    small = omega (arith, blank.count);
  }

  blank_files : file_block disk ≡ no_files
  unfolding file_block
  blank_files = fun_ext (λ i. fun_ext (λ x. elim (Bool-cases (ltb i (n * inodes_per_block))) [
    | inl there ↦ rw (null_inode i (nblocks_word i) (ground arith)) (ground arith)
    | inr past ↦
        let wrapped : n * inodes_per_block % 2 ^ 32 ≡ n * inodes_per_block = omega arith in
        rw (blank.count, wrapped, past) refl
  ]))

-- The inode blocks that hold `ninodes` inodes.
abbrev pub inode_blocks_for : ℕ → ℕ
inode_blocks_for ninodes = (ninodes + inodes_per_block - 1) / inodes_per_block

module _ {S : Type 0} (below : InodeStore S) (ino : ℕ) (ok : Reliable below ino) where
  clear_inodes_total :
      (n i lo upto head : ℕ) (bs : List ℕ) (s : S)
      → i + n ≤ lo
      → HoldsRange lo upto (ok.view s) bs head
      → (s' : S) × (clear_inodes below ino n i s ≡ ret tt s')
        × HoldsRange lo upto (ok.view s') bs head
        × ((c : ℕ) → ok.view s' c ≡ (if leb i c && ltb c (i + n) then null_block else ok.view s c))
  unfolding clear_inodes
  clear_inodes_total zero i lo upto head bs s le h = (s, refl, h, λ c. ground arith)
  clear_inodes_total (suc n) i lo upto head bs s le h =
      let s1 = ok.after s i null_block in
      let h1 : HoldsRange lo upto (ok.view s1) bs head =
        rw (ok.written s i null_block)
          (HoldsRange-update lo upto head i (ok.view s) bs null_block (omega arith) h) in
      let (s', e, h', same) = clear_inodes_total n (i + 1) lo upto head bs s1 (omega arith) h1 in
      (
        s',
        >>-ret (write_or_fail below ino i null_block) (clear_inodes below ino n (i + 1)) s
              (write_or_fail_lem below ino ok s i null_block)
            ∙ e,
        h',
        λ c. same c ∙ rw (ok.written s i null_block) (ground arith),
      )

  nothing-HoldsRange : (lo : ℕ) (disk : Disk) → HoldsRange lo lo disk [] 0
  unfolding occurrences free_blocks
  nothing-HoldsRange lo disk = record {
    chain = refl;
    distinct = tt;
    below = tt;
    counts = λ y ne. ground arith;
    total = omega arith;
  }

  abbrev superblock : ℕ → ℕ → Block
  superblock n head = update (update null_block 0 n) 1 head

  initialise_steps :
      (junk : Block) (n nblocks head : ℕ) (s s1 s2 : S)
      → setup_freelist below ino nblocks junk 0 (n + 1) nblocks s ≡ ret head s1
      → clear_inodes below ino n 1 (ok.after s1 0 (superblock n head)) ≡ ret tt s2
      → initialise below ino junk n nblocks s ≡ ret tt s2
  unfolding initialise
  initialise_steps junk n nblocks head s s1 s2 e e' =
      ground (arith, write_or_fail_lem below ino ok s1 0 (superblock n head))

  initialise_total :
      (junk : Block) (n nblocks : ℕ) (s : S)
      → n + 2 ≤ nblocks
      → (s' : S) × (bs' : List ℕ) × (initialise below ino junk n nblocks s ≡ ret tt s')
        × IsBlank n nblocks (ok.view s') bs'
  initialise_total junk n nblocks s room =
      let (head, s1, bs, e, h, same) =
        setup_freelist-HoldsRange below ino ok (n + 1) nblocks junk 0 (n + 1) nblocks s []
          (omega arith) (omega arith) (omega arith) (omega arith)
          (nothing-HoldsRange (n + 1) (ok.view s)) in
      let super = superblock n head in
      let h1 : HoldsRange (n + 1) nblocks (ok.view (ok.after s1 0 super)) bs head =
        rw (ok.written s1 0 super)
          (HoldsRange-update (n + 1) nblocks head 0 (ok.view s1) bs super (omega arith) h) in
      let (s2, e', h2, cleared) =
        clear_inodes_total n 1 (n + 1) nblocks head bs (ok.after s1 0 super) (omega arith) h1 in
      let at_zero : ok.view s2 0 ≡ super =
        cleared 0 ∙ rw (ok.written s1 0 super) (update_self (ok.view s1) 0 super) in
      (
        s2,
        bs,
        initialise_steps junk n nblocks head s s1 s2 e e',
        record {
          count = rw at_zero refl;
          clear = λ c lo hi. cleared c ∙ ground arith;
          free = rw at_zero h2;
        },
      )

  module _ (junk : Block) (ninodes nblocks : ℕ) (s : S) (size : below.getsize s ino ≡ some nblocks)
      (bound : ninodes + inodes_per_block ≤ 2 ^ 32) where
    whole : (ninodes + inodes_per_block - 1) % 2 ^ 32 / inodes_per_block ≡ inode_blocks_for ninodes
    whole = omega arith

    create_few :
        ltb nblocks (inode_blocks_for ninodes + 2) ≡ true
        → treedisk_create below ino junk ninodes s ≡ failed s
    unfolding treedisk_create
    create_few few = rw (treedisk_create, size, whole, few) refl

    create_enough :
        ltb nblocks (inode_blocks_for ninodes + 2) ≡ false
        → treedisk_create below ino junk ninodes s ≡ (
            if n_inodeblocks (ok.view s 0) == 0
            then initialise below ino junk (inode_blocks_for ninodes) nblocks s
            else ret tt s)
    unfolding treedisk_create
    create_enough enough =
        rw (treedisk_create, size, whole, enough)
          (ground (arith, read_or_fail_lem below ino ok s 0))

  -- On a reliable store with a size, and with `ninodes` at least 64 below 2^32, `treedisk_create` fails
  -- with the store unchanged exactly when the store has not two blocks more than the inodes need. Else
  -- it returns: with the store unchanged if the superblock counts inode blocks, and otherwise with a
  -- well-formed file system that has the inode blocks that the inodes need and no files, and of which
  -- all blocks are free but the superblock and the inode blocks.
  pub treedisk_create_total :
      (junk : Block) (ninodes nblocks : ℕ) (s : S)
      → below.getsize s ino ≡ some nblocks
      → ninodes + inodes_per_block ≤ 2 ^ 32
      → let n = inode_blocks_for ninodes in
        ((nblocks < n + 2) × (treedisk_create below ino junk ninodes s ≡ failed s))
        ⊎ ((n + 2 ≤ nblocks)
            × (n_inodeblocks (ok.view s 0) ≢ 0)
            × (treedisk_create below ino junk ninodes s ≡ ret tt s))
        ⊎ ((n + 2 ≤ nblocks)
            × (n_inodeblocks (ok.view s 0) ≡ 0)
            × (s' : S) × (bs' : List ℕ) × (treedisk_create below ino junk ninodes s ≡ ret tt s')
            × IsFs (ok.view s') bs'
            × (n_inodeblocks (ok.view s' 0) ≡ n)
            × (free_blocks (ok.view s') bs' + (n + 1) ≡ nblocks)
            × (file_block (ok.view s') ≡ no_files))
  treedisk_create_total junk ninodes nblocks s size bound =
      let n = inode_blocks_for ninodes in
      elim (Bool-cases (ltb nblocks (n + 2))) [
        | inl few ↦ inl (ground arith, create_few junk ninodes nblocks s size bound few)
        | inr enough ↦ elim (Bool-cases (n_inodeblocks (ok.view s 0) == 0)) [
          | inr old ↦ inr (
              inl (
                ground arith,
                ne_of_== _ 0 old,
                create_enough junk ninodes nblocks s size bound enough ∙ rw old refl,
              ))
          | inl new ↦
              let (s', bs', e, blank) = initialise_total junk n nblocks s (ground arith) in
              inr (
                inr (
                  ground arith,
                  eq_of_== _ 0 new,
                  s',
                  bs',
                  create_enough junk ninodes nblocks s size bound enough ∙ rw new refl ∙ e,
                  blank-IsFs n nblocks (ok.view s') bs' blank (omega arith),
                  blank.count,
                  blank.free.total,
                  blank_files n nblocks (ok.view s') bs' blank (omega arith),
                ))
        ]
      ]
