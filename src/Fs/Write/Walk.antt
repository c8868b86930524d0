-- ===== src/Fs/Write/Walk.antt =====
-- What the walk of `treedisk_write` down a tree needs, and what it has done with the block written.
pub mod New
pub mod Run
use egos_upstream.Base.{
  ℕ, zero, suc, ◌+◌, ◌≤◌, ◌<◌, ◌≡◌, refl, sym, ap, ◌∙◌, ◌≢◌, ◌⊎◌, inl, inr, List, arith, ◌==◌,
  if◌then◌else◌, eq_of_==, ==_self, ==_false, ne_of_==, Bool-cases,
}
use egos_upstream.Fs.Store.{Block, Disk, refs_per_block}
use egos_upstream.Fs.Layout.{n_inodeblocks, free_list, slot}
use egos_upstream.Fs.Freelist.{Snapshot}
use egos_upstream.Fs.Freelist.Chain.{Chain, Distinct, occurrences, free_blocks}
use egos_upstream.Fs.Freelist.Alloc.{IsFreelist}
use egos_upstream.Fs.Read.Lookup.{lookup_block}
use egos_upstream.Fs.Tree.{
  sum_to-two, sum_to-change, tree_blocks, tree_blocks_root, tree_blocks_sum, tree_blocks_child,
  Agrees, slot_lt, tree_blocks-Agrees, lookup_block-Agrees,
}

-- The paths to two offsets part within the lowest `nlevels` levels.
abbrev pub Differs : ℕ → ℕ → ℕ → Type 0
Differs zero offset offset' = ⊥
Differs (suc nlevels) offset offset' =
    (slot offset nlevels ≢ slot offset' nlevels) ⊎ Differs nlevels offset offset'

-- Before the step to word `i` of block `p`, which is `parent` in memory: no block is used twice by the
-- tree from there on and the free list, and neither uses `p`.
pub record IsReady (disk : Disk) (bs : List ℕ) (snapshot : Snapshot) (nlevels p : ℕ)
    (parent : Block) (i : ℕ) : Type 0 where
  pub free : IsFreelist disk snapshot bs
  pub synced : disk 0 ≡ snapshot.superblock
  pub unique : (y : ℕ) → y ≢ 0 → tree_blocks disk nlevels (parent i) y + occurrences disk bs y ≤ 1
  pub p_ne : p ≢ 0
  pub p_taken : occurrences disk bs p ≡ 0
  pub p_above : tree_blocks disk nlevels (parent i) p ≡ 0
  pub loaded : parent i ≢ 0 → disk p ≡ parent
  pub enough : nlevels + 1 ≤ free_blocks disk bs

-- After it: the tree holds the block at the offset, and what it held elsewhere.
pub record Walked (disk : Disk) (bs : List ℕ) (nlevels offset p : ℕ) (parent : Block) (i : ℕ)
    (block : Block) (disk' : Disk) (bs' : List ℕ) : Type 0 where
  pub chain : Chain disk' bs' (free_list (disk' 0))
  pub distinct : Distinct bs'
  pub inode_blocks : n_inodeblocks (disk' 0) ≡ n_inodeblocks (disk 0)
  pub child : ℕ
  pub linked : (k : ℕ) → disk' p k ≡ (if i == k then child else parent k)
  pub found : lookup_block disk' nlevels offset child ≡ block
  pub others :
      (offset' : ℕ)
      → Differs nlevels offset offset'
      → lookup_block disk' nlevels offset' child ≡ lookup_block disk nlevels offset' (parent i)
  pub counts :
      (y : ℕ)
      → y ≢ 0
      → tree_blocks disk' nlevels child y + occurrences disk' bs' y
        ≡ tree_blocks disk nlevels (parent i) y + occurrences disk bs y
  pub spent : free_blocks disk bs ≤ free_blocks disk' bs' + (nlevels + 1)
  pub frame :
      (c : ℕ)
      → c ≢ 0
      → c ≢ p
      → occurrences disk bs c ≡ 0
      → tree_blocks disk nlevels (parent i) c ≡ 0
      → disk' c ≡ disk c

-- The step into a block that is there.
module _ (disk : Disk) (bs : List ℕ) (snapshot : Snapshot) (nlevels offset p : ℕ) (parent : Block)
    (i : ℕ) (block : Block) (ready : IsReady disk bs snapshot (suc nlevels) p parent i)
    (there : parent i ≢ 0) where
  old_child :
      (j y : ℕ)
      → j < refs_per_block
      → tree_blocks disk nlevels (disk (parent i) j) y + (if parent i == y then 1 else 0)
        ≤ tree_blocks disk (suc nlevels) (parent i) y
  old_child j y lt = tree_blocks_child disk nlevels (parent i) j y there lt

  pub into_old-IsReady :
      IsReady disk bs snapshot nlevels (parent i) (disk (parent i)) (slot offset nlevels)
  into_old-IsReady =
      let idx = slot offset nlevels in
      let lt = slot_lt offset nlevels in
      let self = tree_blocks_root disk (suc nlevels) (parent i) there in
      record {
        free = ready.free;
        synced = ready.synced;
        unique = λ y ne. omega (arith, ready.unique y ne, old_child idx y lt);
        p_ne = there;
        p_taken = omega (arith, ready.unique (parent i) there, self);
        p_above = ground (arith, ready.unique (parent i) there, old_child idx (parent i) lt);
        loaded = λ h. refl;
        enough = omega (arith, ready.enough);
      }

  -- The trees beside the path.
  beside :
      (disk' : Disk) (bs' : List ℕ)
      → Walked disk bs nlevels offset
          (parent i)
          (disk (parent i))
          (slot offset nlevels)
          block
          disk'
          bs'
      → (j : ℕ) → j < refs_per_block
      → j ≢ slot offset nlevels
      → Agrees disk disk' nlevels (disk (parent i) j)
  beside disk' bs' w j lt ne c c_ne in_tree =
      let idx = slot offset nlevels in
      let pair =
        sum_to-two refs_per_block (λ k. tree_blocks disk nlevels (disk (parent i) k) c) idx j
          (slot_lt offset nlevels) lt ne in
      let whole = tree_blocks_sum disk nlevels (parent i) c there in
      let once = ready.unique c c_ne in w.frame c c_ne (ground arith) (omega arith) (omega arith)

  apart : (c : ℕ) → tree_blocks disk (suc nlevels) (parent i) c ≡ 0 → c ≢ parent i
  apart c out e =
      let self = tree_blocks_root disk (suc nlevels) (parent i) there in
      let out' : tree_blocks disk (suc nlevels) (parent i) (parent i) ≡ 0 = rw e at out in
      absurd (omega arith)

  module _ (disk' : Disk) (bs' : List ℕ)
      (w : Walked disk bs nlevels offset
        (parent i)
        (disk (parent i))
        (slot offset nlevels)
        block
        disk'
        bs') where
    on_path : (j : ℕ) → slot offset nlevels ≡ j → disk' (parent i) j ≡ w.child
    on_path j at = w.linked j ∙ rw at (rw (==_self j) refl)

    off_path : (j : ℕ) → j ≢ slot offset nlevels → disk' (parent i) j ≡ disk (parent i) j
    off_path j ne = w.linked j ∙ rw (==_false (slot offset nlevels) j (λ e. ne (sym e))) refl

    same_parent : disk' p ≡ parent
    same_parent =
        w.frame p ready.p_ne (apart p ready.p_above) ready.p_taken
          (omega (arith, old_child (slot offset nlevels) p (slot_lt offset nlevels), ready.p_above))
        ∙ ready.loaded there

    lookup_step :
        (d : Disk) (offset' : ℕ)
        → lookup_block d (suc nlevels) offset' (parent i)
          ≡ lookup_block d nlevels offset' (d (parent i) (slot offset' nlevels))
    unfolding lookup_block
    lookup_step d offset' = rw (==_false (parent i) 0 there) refl

    old_others :
        (offset' : ℕ)
        → Differs (suc nlevels) offset offset'
        → lookup_block disk' (suc nlevels) offset' (parent i)
          ≡ lookup_block disk (suc nlevels) offset' (parent i)
    old_others offset' parts = elim (Bool-cases (slot offset' nlevels == slot offset nlevels)) [
      | inl same ↦
          let e = eq_of_== _ _ same in
          let parts' : Differs nlevels offset offset' = elim parts [
            | inl ne ↦ absurd (ne (sym e))
            | inr later ↦ later
          ] in
          let below : lookup_block disk' nlevels offset' (disk' (parent i) (slot offset' nlevels))
              ≡ lookup_block disk nlevels offset' (disk (parent i) (slot offset' nlevels)) =
            rw (on_path (slot offset' nlevels) (sym e), e) (w.others offset' parts') in
          lookup_step disk' offset' ∙ below ∙ sym (lookup_step disk offset')
      | inr other ↦
          let ne = ne_of_== _ _ other in
          let below : lookup_block disk' nlevels offset' (disk' (parent i) (slot offset' nlevels))
              ≡ lookup_block disk nlevels offset' (disk (parent i) (slot offset' nlevels)) =
            rw (off_path (slot offset' nlevels) ne) (
              lookup_block-Agrees disk disk' nlevels offset'
                (disk (parent i) (slot offset' nlevels))
                (beside disk' bs' w (slot offset' nlevels) (slot_lt offset' nlevels) ne)) in
          lookup_step disk' offset' ∙ below ∙ sym (lookup_step disk offset')
    ]

    old_counts :
        (y : ℕ)
        → tree_blocks disk' (suc nlevels) (parent i) y
            + tree_blocks disk nlevels (disk (parent i) (slot offset nlevels)) y
          ≡ tree_blocks disk (suc nlevels) (parent i) y + tree_blocks disk' nlevels w.child y
    old_counts y =
        let idx = slot offset nlevels in
        let f : ℕ → ℕ = λ j. tree_blocks disk nlevels (disk (parent i) j) y in
        let g : ℕ → ℕ = λ j. tree_blocks disk' nlevels (disk' (parent i) j) y in
        let changed = sum_to-change refs_per_block f g idx (slot_lt offset nlevels) (λ j lj ne.
          rw (off_path j ne) (
            tree_blocks-Agrees disk disk' nlevels (disk (parent i) j) y
              (beside disk' bs' w j lj ne))) in
        let at_idx : g idx ≡ tree_blocks disk' nlevels w.child y = rw (on_path idx refl) refl in
        omega (
          arith,
          changed,
          at_idx,
          tree_blocks_sum disk' nlevels (parent i) y there,
          tree_blocks_sum disk nlevels (parent i) y there,
        )

    pub into_old-Walked : Walked disk bs (suc nlevels) offset p parent i block disk' bs'
    into_old-Walked = record {
      chain = w.chain;
      distinct = w.distinct;
      inode_blocks = w.inode_blocks;
      child = parent i;
      linked = λ k. ap (λ (b : Block). b k) same_parent ∙ elim (Bool-cases (i == k)) [
        | inl here ↦ rw (here, eq_of_== i k here) refl
        | inr other ↦ rw other refl
      ];
      found = lookup_step disk' offset ∙ rw (on_path (slot offset nlevels) refl) w.found;
      others = old_others;
      counts = λ y ne. omega (arith, old_counts y, w.counts y ne);
      spent = omega (arith, w.spent);
      frame = λ c c_ne c_p taken out.
          w.frame c c_ne (apart c out) taken
            (omega (arith, old_child (slot offset nlevels) c (slot_lt offset nlevels)));
    }
