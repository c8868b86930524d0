-- ===== src/Fs/Write/Walk/New.antt =====
-- The step of the walk into a block that is missing, and the last step.
use egos_upstream.Base.{
  ℕ, suc, ◌+◌, ◌≤◌, ◌≡◌, refl, sym, ap, ◌∙◌, ◌≢◌, inl, inr, List, arith, ◌==◌, if◌then◌else◌,
  eq_of_==, ==_self, ==_false, ne_of_==, Bool-cases, update, update_self, update_ne,
}
use egos_upstream.Fs.Store.{Block, Disk, refs_per_block, null_block}
use egos_upstream.Fs.Layout.{n_inodeblocks, free_list, slot}
use egos_upstream.Fs.Freelist.{Snapshot}
use egos_upstream.Fs.Freelist.Chain.{
  Away, occurrences, Chain-update, occurrences-update, free_blocks-update, Away-occurrences,
}
use egos_upstream.Fs.Freelist.Alloc.{IsFreelist, Allocated}
use egos_upstream.Fs.Read.Lookup.{lookup_block}
use egos_upstream.Fs.Tree.{
  sum_to-change, sum_to_zero, tree_blocks, tree_blocks_hole, lookup_block_hole, tree_blocks_sum,
  slot_lt,
}
use egos_upstream.Fs.Write.Walk.{Differs, IsReady, Walked}

-- Block `b` has been allocated, and entered in the parent on the disk.
module _ (disk : Disk) (bs : List ℕ) (snapshot : Snapshot) (nlevels offset p : ℕ) (parent : Block)
    (i : ℕ) (block : Block) (ready : IsReady disk bs snapshot nlevels p parent i)
    (hole : parent i ≡ 0) (b : ℕ) (disk1 : Disk) (bs1 : List ℕ) (snapshot1 : Snapshot)
    (a : Allocated disk bs snapshot b disk1 bs1 snapshot1) where
  abbrev pub entered : Disk
  entered = update disk1 p (update parent i b)

  was_free : occurrences disk bs b ≡ 1
  was_free = ground (arith, a.taken b a.ne_zero, ready.unique b a.ne_zero)

  not_parent : b ≢ p
  not_parent e =
      let free' : occurrences disk bs p ≡ 1 = rw e at was_free in
      absurd (omega (arith, ready.p_taken))

  now_taken : occurrences disk1 bs1 b ≡ 0
  now_taken = ground (arith, a.taken b a.ne_zero, was_free)

  parent_Away : Away p bs1
  parent_Away = Away-occurrences disk1 bs1 p (ground (arith, a.taken p ready.p_ne, ready.p_taken))

  entered-occurrences : (y : ℕ) → occurrences entered bs1 y ≡ occurrences disk1 bs1 y
  entered-occurrences y = occurrences-update disk1 bs1 p (update parent i b) y parent_Away

  entered-IsFreelist : IsFreelist entered snapshot1 bs1
  entered-IsFreelist = record {
    chain =
        Chain-update disk1 bs1 (free_list snapshot1.superblock) p (update parent i b) parent_Away
          a.valid.chain;
    distinct = a.valid.distinct;
  }

  entered-synced : entered 0 ≡ snapshot1.superblock
  entered-synced = update_ne disk1 (update parent i b) ready.p_ne ∙ a.synced ready.synced

  entered-inode_blocks : n_inodeblocks (entered 0) ≡ n_inodeblocks (disk 0)
  entered-inode_blocks = rw (entered-synced, ready.synced) a.inode_blocks

  not_taken : (c : ℕ) → occurrences disk bs c ≡ 0 → c ≢ b
  not_taken c out e =
      let out' : occurrences disk bs b ≡ 0 = rw e at out in absurd (omega (arith, was_free))

  still_out : (c : ℕ) → c ≢ 0 → occurrences disk bs c ≡ 0 → occurrences disk1 bs1 c ≡ 0
  still_out c ne out = ground (arith, a.taken c ne)

  entered-frame : (c : ℕ) → c ≢ 0 → c ≢ p → occurrences disk bs c ≡ 0 → entered c ≡ disk c
  entered-frame c ne c_p out =
      update_ne disk1 (update parent i b) (λ e. c_p (sym e))
      ∙ a.others c ne (Away-occurrences disk bs c out)

  entered-parent : (k : ℕ) → entered p k ≡ (if i == k then b else parent k)
  entered-parent k = rw (update_self disk1 p (update parent i b)) (ground arith)

  hole_counts : (d : Disk) (m y : ℕ) → tree_blocks d m (parent i) y ≡ 0
  hole_counts d m y = rw hole (tree_blocks_hole d m y)

  -- The new block is the root of a tree of which nothing is there.
  pub into_new-IsReady :
      (m idx : ℕ) → m + 1 ≤ nlevels → IsReady entered bs1 snapshot1 m b null_block idx
  into_new-IsReady m idx le = record {
    free = entered-IsFreelist;
    synced = entered-synced;
    unique = λ y ne. ground (
      arith,
      tree_blocks_hole entered m y,
      entered-occurrences y,
      a.taken y ne,
      ready.unique y ne,
    );
    p_ne = a.ne_zero;
    p_taken = entered-occurrences b ∙ now_taken;
    p_above = tree_blocks_hole entered m b;
    loaded = λ h. absurd (h refl);
    enough = omega (
      arith,
      a.fewer,
      ready.enough,
      free_blocks-update disk1 bs1 p (update parent i b) parent_Away,
    );
  }

  -- Or it is a data block, and is written.
  pub last_new-Walked : Walked disk bs 0 offset p parent i block (update entered b block) bs1
  unfolding tree_blocks lookup_block
  last_new-Walked =
      let away = Away-occurrences disk1 bs1 b now_taken in
      let away' = Away-occurrences entered bs1 b (entered-occurrences b ∙ now_taken) in
      let super : update entered b block 0 ≡ entered 0 = update_ne entered block a.ne_zero in
      record {
        chain =
            rw (super, entered-synced)
              (Chain-update entered bs1 (free_list snapshot1.superblock) b block away'
                entered-IsFreelist.chain);
        distinct = a.valid.distinct;
        inode_blocks = rw super entered-inode_blocks;
        child = b;
        linked = λ k. rw (update_ne entered block not_parent) (entered-parent k);
        found = rw (==_false b 0 a.ne_zero) (update_self entered b block);
        others = λ offset' parts. elim parts [ ];
        counts = λ y ne.
            rw (==_false b 0 a.ne_zero, hole)
              (omega (
                arith,
                occurrences-update entered bs1 b block y away',
                entered-occurrences y,
                a.taken y ne,
              ));
        spent = omega (
          arith,
          a.fewer,
          free_blocks-update disk1 bs1 p (update parent i b) parent_Away,
          free_blocks-update entered bs1 b block away',
        );
        frame = λ c ne c_p out tree_out.
            update_ne entered block (λ e. not_taken c out (sym e)) ∙ entered-frame c ne c_p out;
      }

module _ (disk : Disk) (bs : List ℕ) (snapshot : Snapshot) (m offset p : ℕ) (parent : Block) (i : ℕ)
    (block : Block) (ready : IsReady disk bs snapshot (suc m) p parent i) (hole : parent i ≡ 0)
    (b : ℕ) (disk1 : Disk) (bs1 : List ℕ) (snapshot1 : Snapshot)
    (a : Allocated disk bs snapshot b disk1 bs1 snapshot1) (disk' : Disk) (bs' : List ℕ)
    (w : Walked
      (update disk1 p (update parent i b))
      bs1
      m
      offset
      b
      null_block
      (slot offset m)
      block
      disk'
      bs') where
  abbrev between : Disk
  between = update disk1 p (update parent i b)

  new_on_path : (j : ℕ) → slot offset m ≡ j → disk' b j ≡ w.child
  new_on_path j at = w.linked j ∙ rw at (rw (==_self j) refl)

  new_off_path : (j : ℕ) → j ≢ slot offset m → disk' b j ≡ 0
  new_off_path j ne = w.linked j ∙ rw (==_false (slot offset m) j (λ e. ne (sym e))) refl

  new_step :
      (offset' : ℕ)
      → lookup_block disk' (suc m) offset' b
        ≡ lookup_block disk' m offset' (disk' b (slot offset' m))
  unfolding lookup_block
  new_step offset' = rw (==_false b 0 a.ne_zero) refl

  new_others :
      (offset' : ℕ)
      → Differs (suc m) offset offset'
      → lookup_block disk' (suc m) offset' b ≡ null_block
  new_others offset' parts = elim (Bool-cases (slot offset' m == slot offset m)) [
    | inl same ↦
        let e = eq_of_== _ _ same in
        let parts' : Differs m offset offset' = elim parts [
          | inl ne ↦ absurd (ne (sym e))
          | inr later ↦ later
        ] in
        let below : lookup_block disk' m offset' (disk' b (slot offset' m)) ≡ null_block =
          rw (new_on_path (slot offset' m) (sym e))
            (w.others offset' parts' ∙ lookup_block_hole between m offset') in
        new_step offset' ∙ below
    | inr other ↦
        let below : lookup_block disk' m offset' (disk' b (slot offset' m)) ≡ null_block =
          rw (new_off_path (slot offset' m) (ne_of_== _ _ other))
            (lookup_block_hole disk' m offset') in
        new_step offset' ∙ below
  ]

  new_counts :
      (y : ℕ)
      → tree_blocks disk' (suc m) b y ≡ (if b == y then 1 else 0) + tree_blocks disk' m w.child y
  new_counts y =
      let idx = slot offset m in
      let g : ℕ → ℕ = λ j. tree_blocks disk' m (disk' b j) y in
      let changed =
        sum_to-change refs_per_block (λ j. 0) g idx (slot_lt offset m)
          (λ j lj ne. rw (new_off_path j ne) (tree_blocks_hole disk' m y)) in
      let at_idx : g idx ≡ tree_blocks disk' m w.child y = rw (new_on_path idx refl) refl in
      omega (
        arith,
        changed,
        at_idx,
        sum_to_zero refs_per_block (λ j. 0) (λ j lj. refl),
        tree_blocks_sum disk' m b y a.ne_zero,
      )

  pub into_new-Walked : Walked disk bs (suc m) offset p parent i block disk' bs'
  into_new-Walked =
      let occ =
        entered-occurrences disk bs snapshot (suc m) offset p parent i block ready hole b disk1 bs1
          snapshot1 a in
      let apart =
        not_parent disk bs snapshot (suc m) offset p parent i block ready hole b disk1 bs1 snapshot1
          a in
      let out =
        still_out disk bs snapshot (suc m) offset p parent i block ready hole b disk1 bs1 snapshot1
          a in
      let frame =
        entered-frame disk bs snapshot (suc m) offset p parent i block ready hole b disk1 bs1
          snapshot1 a in
      let other =
        not_taken disk bs snapshot (suc m) offset p parent i block ready hole b disk1 bs1 snapshot1
          a in
      record {
        chain = w.chain;
        distinct = w.distinct;
        inode_blocks =
            w.inode_blocks
            ∙ entered-inode_blocks disk bs snapshot (suc m) offset p parent i block ready hole b
                disk1 bs1 snapshot1 a;
        child = b;
        linked = λ k.
            ap (λ (v : Block). v k)
              (w.frame p ready.p_ne (λ e. apart (sym e)) (occ p ∙ out p ready.p_ne ready.p_taken)
                (tree_blocks_hole between m p))
            ∙ entered-parent disk bs snapshot (suc m) offset p parent i block ready hole b disk1 bs1
                snapshot1 a k;
        found =
            let below : lookup_block disk' m offset (disk' b (slot offset m)) ≡ block =
              rw (new_on_path (slot offset m) refl) w.found in
            new_step offset ∙ below;
        others = λ offset' parts.
            new_others offset' parts ∙ rw hole (sym (lookup_block_hole disk (suc m) offset'));
        counts = λ y ne. rw hole (
            omega (
              arith,
              new_counts y,
              w.counts y ne,
              tree_blocks_hole between m y,
              tree_blocks_hole disk (suc m) y,
              occ y,
              a.taken y ne,
            ));
        spent = omega (
          arith,
          w.spent,
          a.fewer,
          free_blocks-update disk1 bs1 p (update parent i b) (
              parent_Away disk bs snapshot (suc m) offset p parent i block ready hole b disk1 bs1
                snapshot1 a),
        );
        frame = λ c ne c_p taken tree_out.
            w.frame c ne (other c taken) (occ c ∙ out c ne taken) (tree_blocks_hole between m c)
            ∙ frame c ne c_p taken;
      }

-- The last step where the data block is there.
pub last_old-Walked :
    (disk : Disk) (bs : List ℕ) (snapshot : Snapshot) (offset p : ℕ) (parent : Block) (i : ℕ)
    (block : Block)
    → IsReady disk bs snapshot 0 p parent i
    → parent i ≢ 0
    → Walked disk bs 0 offset p parent i block (update disk (parent i) block) bs
unfolding tree_blocks lookup_block
last_old-Walked disk bs snapshot offset p parent i block ready there =
    let r = parent i in
    let once = ready.unique r there in
    let taken : occurrences disk bs r ≡ 0 = ground arith in
    let away = Away-occurrences disk bs r taken in
    let apart : r ≢ p = (λ e. ground (arith, ready.p_above)) in
    let super : update disk r block 0 ≡ disk 0 = update_ne disk block there in
    record {
      chain =
          rw (super, ready.synced)
            (Chain-update disk bs (free_list snapshot.superblock) r block away ready.free.chain);
      distinct = ready.free.distinct;
      inode_blocks = rw super refl;
      child = r;
      linked = λ k. rw (update_ne disk block apart, ready.loaded there) (ground arith);
      found = rw (==_false r 0 there) (update_self disk r block);
      others = λ offset' parts. elim parts [ ];
      counts = λ y ne. omega (arith, occurrences-update disk bs r block y away);
      spent = omega (arith, free_blocks-update disk bs r block away);
      frame = λ c ne c_p out tree_out. update_ne disk block (λ e. ground arith);
    }
