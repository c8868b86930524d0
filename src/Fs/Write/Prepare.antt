-- ===== src/Fs/Write/Prepare.antt =====
-- What `treedisk_write` does before the walk: it reads the inode, and makes the file larger if the
-- offset is past its end.
pub mod Run
use egos_upstream.Base.{
  ℕ, ◌+◌, ◌-◌, ◌/◌, ◌^◌, ◌≤◌, ◌<◌, ◌≡◌, refl, sym, ap, ◌∙◌, ◌≢◌, inl, inr, List, arith, ◌==◌,
  if◌then◌else◌, eq_of_==, ne_of_==, Bool-cases, update, update_self, update_ne,
}
use egos_upstream.Fs.Store.{Disk, null_block}
use egos_upstream.Fs.Layout.{
  inodes_per_block, n_inodeblocks, free_list, root_word, nblocks_word, levels,
}
use egos_upstream.Fs.Freelist.{Snapshot}
use egos_upstream.Fs.Freelist.Chain.{
  Away, Chain-update, occurrences, occurrences-update, free_blocks, free_blocks-update,
  Away-occurrences,
}
use egos_upstream.Fs.Freelist.Alloc.{IsFreelist}
use egos_upstream.Fs.Read.Lookup.{lookup_block, inode_block}
use egos_upstream.Fs.Tree.{sum_to-le, tree_blocks, Agrees, tree_blocks-Agrees, lookup_block-Agrees}
use egos_upstream.Fs.Write.Walk.{IsReady}
use egos_upstream.Fs.Write.Grow.{high_zero, IsGrowing, Grown}
use egos_upstream.Fs.System.{inode_root, inode_size, file_blocks, all_files, inodes, Fits, IsFs}
use egos_upstream.Fs.System.Paths.{
  Fits-levels, levels-le-five, levels_mono, high_zero-Fits, high_zero_of_Fits,
}

-- The file has `nblocks` blocks in a tree of `nlevels` levels that holds what it held before.
pub record Prepared (disk : Disk) (bs : List ℕ) (inode_no nlevels nblocks : ℕ) (disk' : Disk)
    (bs' : List ℕ) (snapshot' : Snapshot) : Type 0 where
  pub ready :
      IsReady disk' bs' snapshot' nlevels
        (1 + inode_no / inodes_per_block)
        snapshot'.inodeblock
        (root_word inode_no)
  pub words :
      (k : ℕ)
      → k ≢ root_word inode_no
      → k ≢ nblocks_word inode_no
      → snapshot'.inodeblock k ≡ inode_block disk inode_no k
  pub size : snapshot'.inodeblock (nblocks_word inode_no) ≡ nblocks
  pub counts :
      (y : ℕ)
      → y ≢ 0
      → tree_blocks disk' nlevels (snapshot'.inodeblock (root_word inode_no)) y
          + occurrences disk' bs' y
        ≡ file_blocks disk inode_no y + occurrences disk bs y
  pub inode_blocks : n_inodeblocks (disk' 0) ≡ n_inodeblocks (disk 0)
  pub kept :
      (x : ℕ)
      → x < inode_size disk inode_no
      → lookup_block disk' nlevels x (snapshot'.inodeblock (root_word inode_no))
        ≡ lookup_block disk (levels (inode_size disk inode_no)) x (inode_root disk inode_no)
  pub empty :
      (x : ℕ)
      → x < 2 ^ 32
      → Fits nlevels x
      → inode_size disk inode_no ≤ x
      → lookup_block disk' nlevels x (snapshot'.inodeblock (root_word inode_no)) ≡ null_block
  pub spent : free_blocks disk bs ≤ free_blocks disk' bs' + 5
  pub frame :
      (c : ℕ)
      → c ≢ 0
      → c ≢ 1 + inode_no / inodes_per_block
      → occurrences disk bs c ≡ 0
      → disk' c ≡ disk c

module _ (disk : Disk) (bs : List ℕ) (fs : IsFs disk bs) (inode_no : ℕ)
    (lt : inode_no < inodes disk) where
  abbrev pub home : ℕ
  home = 1 + inode_no / inodes_per_block

  abbrev pub before : Snapshot
  before = record {
    superblock = disk 0;
    inodeblock = inode_block disk inode_no;
    inode_blockno = home;
  }

  file_once : (y : ℕ) → y ≢ 0 → file_blocks disk inode_no y + occurrences disk bs y ≤ 1
  unfolding all_files
  file_once y ne =
      omega (arith, fs.unique y ne, sum_to-le (inodes disk) (λ i. file_blocks disk i y) inode_no lt)

  pub file_home : file_blocks disk inode_no home + occurrences disk bs home ≡ 0
  unfolding all_files
  file_home = omega (
    arith,
    fs.reserved home (omega arith) (omega arith),
    sum_to-le (inodes disk) (λ i. file_blocks disk i home) inode_no lt,
  )

  -- An offset that the file has.
  pub old_Prepared :
      6 ≤ free_blocks disk bs
      → Prepared disk bs inode_no
          (levels (inode_size disk inode_no))
          (inode_size disk inode_no)
          disk
          bs
          before
  unfolding file_blocks
  old_Prepared enough = record {
    ready = record {
      free = record { chain = fs.chain; distinct = fs.distinct };
      synced = refl;
      unique = file_once;
      p_ne = omega arith;
      p_taken = omega (arith, file_home);
      p_above = omega (arith, file_home);
      loaded = λ h. refl;
      enough = omega (arith, levels-le-five (inode_size disk inode_no));
    };
    words = λ k r n. refl;
    size = refl;
    counts = λ y ne. refl;
    inode_blocks = refl;
    kept = λ x h. refl;
    empty = λ x bound fits le. fs.sparse inode_no x lt bound fits le;
    spent = omega arith;
    frame = λ c ne h out. refl;
  }

  -- An offset past its end.
  module _ (offset : ℕ) (past : inode_size disk inode_no ≤ offset)
      (bound : offset + 1 < 2 ^ 32) where
    abbrev pub sized : Snapshot
    sized = record before {
      inodeblock = update (inode_block disk inode_no) (nblocks_word inode_no) (offset + 1);
    }

    abbrev low : ℕ
    low = levels (inode_size disk inode_no)

    abbrev high : ℕ
    high = levels (offset + 1)

    climb : low + (high - low) ≡ high
    climb = omega (arith, levels_mono (inode_size disk inode_no) (offset + 1) (omega arith))

    same_root : sized.inodeblock (root_word inode_no) ≡ inode_root disk inode_no
    same_root = update_ne (inode_block disk inode_no) (offset + 1) (omega arith)

    pub sized-IsGrowing :
        11 ≤ free_blocks disk bs
        → IsGrowing disk bs sized low (high - low) (sized.inodeblock (root_word inode_no))
    unfolding file_blocks
    sized-IsGrowing enough = rw same_root (record {
      free = record { chain = fs.chain; distinct = fs.distinct };
      synced = refl;
      unique = file_once;
      enough = omega (arith, levels-le-five (offset + 1));
    })

    -- After the growth the inode block is written.
    module _ (disk1 : Disk) (bs1 : List ℕ) (snapshot1 : Snapshot)
        (enough : 11 ≤ free_blocks disk bs)
        (g : Grown inode_no disk bs sized low (high - low) high disk1 bs1 snapshot1) where
      abbrev root : ℕ
      root = snapshot1.inodeblock (root_word inode_no)

      abbrev pub disk2 : Disk
      disk2 = update disk1 home snapshot1.inodeblock

      grown_counts :
          (y : ℕ)
          → y ≢ 0
          → tree_blocks disk1 high root y + occurrences disk1 bs1 y
            ≡ file_blocks disk inode_no y + occurrences disk bs y
      unfolding file_blocks
      grown_counts y ne = g.counts y ne ∙ rw same_root refl

      grown_home : tree_blocks disk1 high root home + occurrences disk1 bs1 home ≡ 0
      grown_home = grown_counts home (omega arith) ∙ file_home

      home-Away : Away home bs1
      home-Away = Away-occurrences disk1 bs1 home (omega (arith, grown_home))

      same_tree : Agrees disk1 disk2 high root
      same_tree c ne there = elim (Bool-cases (home == c)) [
        | inl here ↦
            let e = eq_of_== home c here in
            let there' : 1 ≤ tree_blocks disk1 high root home = rw e there in
            absurd (omega (arith, grown_home))
        | inr other ↦ update_ne disk1 snapshot1.inodeblock (ne_of_== home c other)
      ]

      same_free : (y : ℕ) → occurrences disk2 bs1 y ≡ occurrences disk1 bs1 y
      same_free y = occurrences-update disk1 bs1 home snapshot1.inodeblock y home-Away

      written_counts :
          (y : ℕ)
          → y ≢ 0
          → tree_blocks disk2 high root y + occurrences disk2 bs1 y
            ≡ file_blocks disk inode_no y + occurrences disk bs y
      written_counts y ne = omega (
        arith,
        grown_counts y ne,
        same_free y,
        tree_blocks-Agrees disk1 disk2 high root y same_tree,
      )

      written_home : tree_blocks disk2 high root home + occurrences disk2 bs1 home ≡ 0
      written_home = written_counts home (omega arith) ∙ file_home

      written_found :
          (x : ℕ)
          → lookup_block disk2 high x root ≡ (
              if high_zero low (high - low) x
              then lookup_block disk low x (inode_root disk inode_no)
              else null_block)
      written_found x =
          lookup_block-Agrees disk1 disk2 high x root same_tree ∙ g.found x ∙ rw same_root refl

      at_super : disk2 0 ≡ snapshot1.superblock
      at_super = update_ne disk1 snapshot1.inodeblock (omega arith) ∙ g.synced

      written_free : IsFreelist disk2 snapshot1 bs1
      written_free = record {
        chain =
            Chain-update disk1 bs1 (free_list snapshot1.superblock) home snapshot1.inodeblock
              home-Away g.free.chain;
        distinct = g.free.distinct;
      }

      pub new_Prepared : Prepared disk bs inode_no high (offset + 1) disk2 bs1 snapshot1
      new_Prepared = record {
        ready = record {
          free = written_free;
          synced = at_super;
          unique = λ y ne. omega (arith, written_counts y ne, file_once y ne);
          p_ne = omega arith;
          p_taken = omega (arith, written_home);
          p_above = omega (arith, written_home);
          loaded = λ h. update_self disk1 home snapshot1.inodeblock;
          enough = omega (
            arith,
            g.fewer,
            levels-le-five (offset + 1),
            free_blocks-update disk1 bs1 home snapshot1.inodeblock home-Away,
          );
        };
        words = λ k r n.
            g.words k r ∙ update_ne (inode_block disk inode_no) (offset + 1) (λ e. n (sym e));
        size =
            g.words (nblocks_word inode_no) (omega arith)
            ∙ update_self (inode_block disk inode_no) (nblocks_word inode_no) (offset + 1);
        counts = written_counts;
        inode_blocks = ap n_inodeblocks at_super ∙ g.inode_blocks;
        kept = λ x h.
            written_found x
            ∙ rw
                (high_zero_of_Fits (high - low) low x
                  (omega (arith, climb, levels-le-five (offset + 1)))
                  (Fits-levels (inode_size disk inode_no) x h))
                refl;
        empty = λ x x_bound fits le.
            written_found x ∙ elim (Bool-cases (high_zero low (high - low) x)) [
              | inl reach ↦ rw reach (
                  fs.sparse inode_no x lt x_bound
                    (high_zero-Fits (high - low) low high x (sym climb) fits reach) le)
              | inr out ↦ rw out refl
            ];
        spent = omega (
          arith,
          g.fewer,
          levels-le-five (offset + 1),
          free_blocks-update disk1 bs1 home snapshot1.inodeblock home-Away,
        );
        frame =
            λ c ne h out. update_ne disk1 snapshot1.inodeblock (λ e. h (sym e)) ∙ g.frame c ne out;
      }
