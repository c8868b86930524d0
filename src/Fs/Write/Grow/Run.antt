-- ===== src/Fs/Write/Grow/Run.antt =====
-- `grow_levels` puts levels above a root, and changes nothing of what the tree holds.
use egos_upstream.Base.{
  ℕ, zero, suc, ◌+◌, ◌≡◌, refl, sym, ap, ◌∙◌, Bool, true, false, ◌&&◌, List, arith, ◌==◌,
  if◌then◌else◌, update, update_self, update_ne,
}
use mathlib.Core.Path.{subst}
use egos_upstream.Fs.Store.{Block, Disk, null_block, InodeStore, ret, Reliable, write_or_panic_lem}
use egos_upstream.Fs.Layout.{root_word, slot}
use egos_upstream.Fs.Freelist.{Snapshot, treedisk_alloc_block}
use egos_upstream.Fs.Freelist.Alloc.{Allocated}
use egos_upstream.Fs.Read.Lookup.{lookup_block}
use egos_upstream.Fs.Write.{set_root, grow_levels}
use egos_upstream.Fs.Write.Walk.Run.{alloc_some}
use egos_upstream.Fs.Write.Grow.{
  high_zero, IsGrowing, Grown, raised-frame, raised-occurrences, raised-counts, raised-found,
  raised-IsGrowing, raised-fewer,
}

Grown-refl :
    (inode_no : ℕ) (disk : Disk) (bs : List ℕ) (snapshot : Snapshot) (d : ℕ)
    → IsGrowing disk bs snapshot d 0 (snapshot.inodeblock (root_word inode_no))
    → Grown inode_no disk bs snapshot d 0 d disk bs snapshot
unfolding high_zero
Grown-refl inode_no disk bs snapshot d growing = record {
  free = growing.free;
  synced = growing.synced;
  inode_blocks = refl;
  inode_no_same = refl;
  words = λ k ne. refl;
  counts = λ y ne. refl;
  found = λ offset. refl;
  frame = λ c ne out. refl;
  fewer = omega arith;
}

-- The first level, and the others after it.
module _ (inode_no : ℕ) (disk : Disk) (bs : List ℕ) (snapshot : Snapshot) (d n top : ℕ)
    (growing : IsGrowing disk bs snapshot d (suc n) (snapshot.inodeblock (root_word inode_no)))
    (b : ℕ) (disk1 : Disk) (bs1 : List ℕ) (snapshot1 : Snapshot)
    (a : Allocated disk bs snapshot b disk1 bs1 snapshot1) where
  abbrev root : ℕ
  root = snapshot.inodeblock (root_word inode_no)

  abbrev between : Disk
  between = update disk1 b (update null_block 0 root)

  new_root : (set_root inode_no b snapshot1).inodeblock (root_word inode_no) ≡ b
  new_root = update_self snapshot1.inodeblock (root_word inode_no) b

  first-IsGrowing :
      IsGrowing between bs1
        (set_root inode_no b snapshot1)
        (suc d)
        n
        ((set_root inode_no b snapshot1).inodeblock (root_word inode_no))
  first-IsGrowing =
      let g = raised-IsGrowing disk bs snapshot d n root growing b disk1 bs1 snapshot1 a in
      rw new_root (record {
        free = record { chain = g.free.chain; distinct = g.free.distinct };
        synced = g.synced;
        unique = g.unique;
        enough = g.enough;
      })

  first-Grown :
      (disk' : Disk) (bs' : List ℕ) (snapshot' : Snapshot)
      → Grown inode_no between bs1 (set_root inode_no b snapshot1) (suc d) n top disk' bs' snapshot'
      → Grown inode_no disk bs snapshot d (suc n) top disk' bs' snapshot'
  unfolding high_zero
  first-Grown disk' bs' snapshot' g =
      let frame = raised-frame disk bs snapshot d n root growing b disk1 bs1 snapshot1 a in
      let occ = raised-occurrences disk bs snapshot d n root growing b disk1 bs1 snapshot1 a in
      record {
        free = g.free;
        synced = g.synced;
        inode_blocks = g.inode_blocks ∙ a.inode_blocks;
        inode_no_same = g.inode_no_same ∙ a.inode_no;
        words = λ k ne.
            g.words k ne
            ∙ update_ne snapshot1.inodeblock b (λ e. ne (sym e))
            ∙ ap (λ (v : Block). v k) a.inodes;
        counts = λ y ne.
            g.counts y ne
            ∙ rw new_root
                (raised-counts disk bs snapshot d n root growing b disk1 bs1 snapshot1 a y ne);
        found = λ offset.
            g.found offset
            ∙ rw
                (
                  new_root,
                  raised-found disk bs snapshot d n root growing b disk1 bs1 snapshot1 a offset,
                )
                (both (high_zero (suc d) n offset) (slot offset d == 0)
                  (lookup_block disk d offset root));
        frame = λ c ne out. g.frame c ne (occ c ∙ ground (arith, a.taken c ne)) ∙ frame c ne out;
        fewer = omega (
          arith,
          g.fewer,
          raised-fewer disk bs snapshot d n root growing b disk1 bs1 snapshot1 a,
        );
      }
    where
      both :
          (p q : Bool) (block : Block)
          → (if p then (if q then block else null_block) else null_block)
            ≡ (if p && q then block else null_block)
      both true q block = refl
      both false q block = refl

module _ {S : Type 0} (below : InodeStore S) (ino : ℕ) (ok : Reliable below ino) where
  grow_step :
      (n inode_no : ℕ) (snapshot : Snapshot) (s : S) (b : ℕ) (snapshot1 : Snapshot) (s1 : S)
      → treedisk_alloc_block below ino snapshot s ≡ ret (b, snapshot1) s1
      → snapshot1.inodeblock ≡ snapshot.inodeblock
      → grow_levels below ino (suc n) inode_no snapshot s
        ≡ grow_levels below ino n inode_no
            (set_root inode_no b snapshot1)
            (ok.after s1 b (update null_block 0 (snapshot.inodeblock (root_word inode_no))))
  unfolding grow_levels
  grow_step n inode_no snapshot s b snapshot1 s1 e same =
      step
      ∙ ap
          (λ (v : Block).
            grow_levels below ino n inode_no (set_root inode_no b snapshot1)
              (ok.after s1 b (update null_block 0 (v (root_word inode_no)))))
          same
    where
      step :
          grow_levels below ino (suc n) inode_no snapshot s
          ≡ grow_levels below ino n inode_no
              (set_root inode_no b snapshot1)
              (ok.after s1 b (update null_block 0 (snapshot1.inodeblock (root_word inode_no))))
      step = ground (
        arith,
        write_or_panic_lem below ino ok s1 b
            (update null_block 0 (snapshot1.inodeblock (root_word inode_no))),
      )

  pub grow_levels_total :
      (n d top inode_no : ℕ) (snapshot : Snapshot) (bs : List ℕ) (s : S)
      → top ≡ d + n
      → IsGrowing (ok.view s) bs snapshot d n (snapshot.inodeblock (root_word inode_no))
      → (snapshot' : Snapshot) × (s' : S) × (bs' : List ℕ) × (grow_levels below ino n inode_no
            snapshot s
          ≡ ret snapshot' s')
        × Grown inode_no (ok.view s) bs snapshot d n top (ok.view s') bs' snapshot'
  grow_levels_total zero d top inode_no snapshot bs s e growing =
      let at : d ≡ top = omega arith in
      (
        snapshot,
        s,
        bs,
        unfold grow_levels in refl,
        subst (λ t. Grown inode_no (ok.view s) bs snapshot d 0 t (ok.view s) bs snapshot) at
            (Grown-refl inode_no (ok.view s) bs snapshot d growing),
      )
  grow_levels_total (suc n) d top inode_no snapshot bs s e growing =
      let root' = snapshot.inodeblock (root_word inode_no) in
      let (b, snapshot1, s1, bs1, alloc, a) =
        alloc_some below ino ok s snapshot bs growing.free (omega (arith, growing.enough)) in
      let s2 = ok.after s1 b (update null_block 0 root') in
      let growing1 : IsGrowing (ok.view s2) bs1 (set_root inode_no b snapshot1) (suc d) n
          ((set_root inode_no b snapshot1).inodeblock (root_word inode_no)) =
        rw (ok.written s1 b (update null_block 0 root')) (
          first-IsGrowing inode_no (ok.view s) bs snapshot d n top growing b (ok.view s1) bs1
            snapshot1 a) in
      let (snapshot', s', bs', e', g) =
        grow_levels_total n (suc d) top inode_no (set_root inode_no b snapshot1) bs1 s2
          (omega arith) growing1 in
      (
        snapshot',
        s',
        bs',
        grow_step n inode_no snapshot s b snapshot1 s1 alloc a.inodes ∙ e',
        first-Grown inode_no (ok.view s) bs snapshot d n top growing b (ok.view s1) bs1 snapshot1 a
            (ok.view s') bs' snapshot' (rw (ok.written s1 b (update null_block 0 root')) at g),
      )
