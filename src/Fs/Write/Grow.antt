-- ===== src/Fs/Write/Grow.antt =====
-- The growth of a tree by levels above its root (`treedisk_write`).
pub mod Run
use egos_upstream.Base.{
  ℕ, zero, suc, ◌+◌, ◌≤◌, ◌≡◌, refl, sym, ◌∙◌, ◌≢◌, inl, inr, Bool, true, ◌&&◌, List, arith, ◌==◌,
  if◌then◌else◌, eq_of_==, ==_false, ne_of_==, Bool-cases, update, update_self, update_ne,
}
use egos_upstream.Fs.Store.{Disk, refs_per_block, null_block}
use egos_upstream.Fs.Layout.{n_inodeblocks, free_list, root_word, slot}
use egos_upstream.Fs.Freelist.{Snapshot}
use egos_upstream.Fs.Freelist.Chain.{
  Away, occurrences, Chain-update, occurrences-update, free_blocks, free_blocks-update,
  Away-occurrences,
}
use egos_upstream.Fs.Freelist.Alloc.{IsFreelist, Allocated}
use egos_upstream.Fs.Read.Lookup.{lookup_block}
use egos_upstream.Fs.Tree.{
  sum_to-change, sum_to_zero, tree_blocks, tree_blocks_hole, lookup_block_hole, tree_blocks_sum,
  Agrees, tree_blocks-Agrees, lookup_block-Agrees,
}

-- The path to the offset goes through slot 0 at the `n` levels from `d` on.
unfoldable pub high_zero : ℕ → ℕ → ℕ → Bool
high_zero d zero offset = true
high_zero d (suc n) offset = high_zero (suc d) n offset && (slot offset d == 0)

-- Before the growth of the tree of `d` levels with root `r`, and of the `n` levels that follow.
pub record IsGrowing (disk : Disk) (bs : List ℕ) (snapshot : Snapshot) (d n r : ℕ) : Type 0 where
  pub free : IsFreelist disk snapshot bs
  pub synced : disk 0 ≡ snapshot.superblock
  pub unique : (y : ℕ) → y ≢ 0 → tree_blocks disk d r y + occurrences disk bs y ≤ 1
  pub enough : n ≤ free_blocks disk bs

-- From a tree of `d` levels to one of `top`, which is `d + n`.
pub record Grown (inode_no : ℕ) (disk : Disk) (bs : List ℕ) (snapshot : Snapshot) (d n top : ℕ)
    (disk' : Disk) (bs' : List ℕ) (snapshot' : Snapshot) : Type 0 where
  pub free : IsFreelist disk' snapshot' bs'
  pub synced : disk' 0 ≡ snapshot'.superblock
  pub inode_blocks : n_inodeblocks snapshot'.superblock ≡ n_inodeblocks snapshot.superblock
  pub inode_no_same : snapshot'.inode_blockno ≡ snapshot.inode_blockno
  pub words : (k : ℕ) → k ≢ root_word inode_no → snapshot'.inodeblock k ≡ snapshot.inodeblock k
  pub counts :
      (y : ℕ)
      → y ≢ 0
      → tree_blocks disk' top (snapshot'.inodeblock (root_word inode_no)) y
          + occurrences disk' bs' y
        ≡ tree_blocks disk d (snapshot.inodeblock (root_word inode_no)) y + occurrences disk bs y
  pub found :
      (offset : ℕ)
      → lookup_block disk' top offset (snapshot'.inodeblock (root_word inode_no)) ≡ (
          if high_zero d n offset
          then lookup_block disk d offset (snapshot.inodeblock (root_word inode_no))
          else null_block)
  pub frame : (c : ℕ) → c ≢ 0 → occurrences disk bs c ≡ 0 → disk' c ≡ disk c
  pub fewer : free_blocks disk' bs' + n ≡ free_blocks disk bs

-- One new level: block `b` has been allocated and refers to the root.
module _ (disk : Disk) (bs : List ℕ) (snapshot : Snapshot) (d n r : ℕ)
    (growing : IsGrowing disk bs snapshot d (suc n) r) (b : ℕ) (disk1 : Disk) (bs1 : List ℕ)
    (snapshot1 : Snapshot) (a : Allocated disk bs snapshot b disk1 bs1 snapshot1) where
  abbrev pub raised : Disk
  raised = update disk1 b (update null_block 0 r)

  now_taken : occurrences disk1 bs1 b ≡ 0
  now_taken = ground (arith, a.taken b a.ne_zero, growing.unique b a.ne_zero)

  away : Away b bs1
  away = Away-occurrences disk1 bs1 b now_taken

  pub raised-frame : (c : ℕ) → c ≢ 0 → occurrences disk bs c ≡ 0 → raised c ≡ disk c
  raised-frame c ne out =
      update_ne disk1 (update null_block 0 r) (not_taken)
      ∙ a.others c ne (Away-occurrences disk bs c out)
    where
      not_taken : b ≢ c
      not_taken e =
          let out' : occurrences disk bs b ≡ 0 = rw e out in
          absurd (ground (arith, a.taken b a.ne_zero))

  root_Agrees : Agrees disk raised d r
  root_Agrees c ne there = raised-frame c ne (omega (arith, growing.unique c ne))

  pub raised-occurrences : (y : ℕ) → occurrences raised bs1 y ≡ occurrences disk1 bs1 y
  raised-occurrences y = occurrences-update disk1 bs1 b (update null_block 0 r) y away

  at_b : raised b ≡ update null_block 0 r
  at_b = update_self disk1 b (update null_block 0 r)

  pub raised-counts :
      (y : ℕ)
      → y ≢ 0
      → tree_blocks raised (suc d) b y + occurrences raised bs1 y
        ≡ tree_blocks disk d r y + occurrences disk bs y
  raised-counts y ne =
      let g : ℕ → ℕ = λ j. tree_blocks raised d (raised b j) y in
      let changed =
        sum_to-change refs_per_block (λ j. 0) g 0 (omega arith)
          (λ j lj j_ne.
            rw (at_b, update_ne null_block r (λ e. j_ne (sym e))) (tree_blocks_hole raised d y)) in
      let first : g 0 ≡ tree_blocks disk d r y =
        rw (at_b, update_self null_block 0 r) (tree_blocks-Agrees disk raised d r y root_Agrees) in
      omega (
        arith,
        changed,
        first,
        sum_to_zero refs_per_block (λ j. 0) (λ j lj. refl),
        tree_blocks_sum raised d b y a.ne_zero,
        raised-occurrences y,
        a.taken y ne,
      )

  pub raised-found :
      (offset : ℕ)
      → lookup_block raised (suc d) offset b
        ≡ (if slot offset d == 0 then lookup_block disk d offset r else null_block)
  unfolding lookup_block
  raised-found offset =
      rw (==_false b 0 a.ne_zero, at_b)
        (elim (Bool-cases (slot offset d == 0)) [
          | inl low ↦
              rw (eq_of_== _ 0 low, update_self null_block 0 r)
                (lookup_block-Agrees disk raised d offset r root_Agrees)
          | inr high ↦
              rw (high, update_ne null_block r (λ e. ne_of_== _ 0 high (sym e)))
                (lookup_block_hole raised d offset)
        ])

  pub raised-IsGrowing : IsGrowing raised bs1 snapshot1 (suc d) n b
  raised-IsGrowing = record {
    free = record {
      chain =
          Chain-update disk1 bs1 (free_list snapshot1.superblock) b (update null_block 0 r) away
            a.valid.chain;
      distinct = a.valid.distinct;
    };
    synced = update_ne disk1 (update null_block 0 r) a.ne_zero ∙ a.synced growing.synced;
    unique = λ y ne. omega (arith, raised-counts y ne, growing.unique y ne);
    enough = omega (
      arith,
      a.fewer,
      growing.enough,
      free_blocks-update disk1 bs1 b (update null_block 0 r) away,
    );
  }

  pub raised-fewer : free_blocks raised bs1 + 1 ≡ free_blocks disk bs
  raised-fewer = omega (arith, a.fewer, free_blocks-update disk1 bs1 b (update null_block 0 r) away)
