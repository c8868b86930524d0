-- ===== src/Fs/Freelist/Alloc.antt =====
-- `treedisk_alloc_block` takes one block off the free list.
use egos_upstream.Base.{
  ◌∙◌, ℕ, ◌+◌, ◌≡◌, refl, sym, ◌≢◌, ◌⊎◌, inl, inr, List, [], ◌∷◌, arith, ◌==◌, if◌then◌else◌,
  eq_of_==, ne_of_==, Bool-cases, update, update_self, update_ne,
}
use egos_upstream.Fs.Store.{
  Disk, refs_per_block, InodeStore, ret, panicked, Reliable, read_or_panic_lem, write_or_panic_lem,
}
use egos_upstream.Fs.Layout.{n_inodeblocks, free_list}
use egos_upstream.Fs.Freelist.{Snapshot, last_ref, treedisk_alloc_block}
use egos_upstream.Fs.Freelist.Chain.{
  Chain, Away, Distinct, occurrences, slots-update, Chain-update, occurrences-update, Chain-Away,
  last_ref-lt, ref-last_ref-ne-zero, slots_empty, free_blocks, free_blocks-update, in_use-update,
  in_use_empty,
}

-- The free list of a snapshot, on the disk `disk`.
pub record IsFreelist (disk : Disk) (snapshot : Snapshot) (bs : List ℕ) : Type 0 where
  pub chain : Chain disk bs (free_list snapshot.superblock)
  pub distinct : Distinct bs

-- What an allocation of block `x` has changed.
pub record Allocated (disk : Disk) (bs : List ℕ) (snapshot : Snapshot) (x : ℕ) (disk' : Disk)
    (bs' : List ℕ) (snapshot' : Snapshot) : Type 0 where
  pub valid : IsFreelist disk' snapshot' bs'
  pub ne_zero : x ≢ 0
  pub taken :
      (y : ℕ) → y ≢ 0 → occurrences disk' bs' y + (if x == y then 1 else 0) ≡ occurrences disk bs y
  pub others : (c : ℕ) → c ≢ 0 → Away c bs → disk' c ≡ disk c
  pub inodes : snapshot'.inodeblock ≡ snapshot.inodeblock
  pub inode_no : snapshot'.inode_blockno ≡ snapshot.inode_blockno
  pub fewer : free_blocks disk' bs' + 1 ≡ free_blocks disk bs
  pub synced : disk 0 ≡ snapshot.superblock → disk' 0 ≡ snapshot'.superblock
  pub inode_blocks : n_inodeblocks snapshot'.superblock ≡ n_inodeblocks snapshot.superblock

module _ {S : Type 0} (below : InodeStore S) (ino : ℕ) (ok : Reliable below ino) where
  alloc_list_block :
      (s : S) (snapshot : Snapshot) (b : ℕ) (rest : List ℕ)
      → IsFreelist (ok.view s) snapshot (b ∷ rest)
      → last_ref refs_per_block (ok.view s b) ≡ 0
      → let superblock = update snapshot.superblock 1 (ok.view s b 0) in
        let snapshot' = record snapshot { superblock = superblock } in
        (treedisk_alloc_block below ino snapshot s ≡ ret (b, snapshot') (ok.after s 0 superblock))
        × Allocated
            (ok.view s)
            (b ∷ rest)
            snapshot
            b
            (ok.view (ok.after s 0 superblock))
            rest
            snapshot'
  unfolding treedisk_alloc_block occurrences free_blocks
  alloc_list_block s snapshot b rest free empty =
      let disk = ok.view s in
      let superblock = update snapshot.superblock 1 (disk b 0) in
      let ne = free.chain.1 in
      let away = Chain-Away disk rest (disk b 0) free.chain.2 in
      (
        ground (
          arith,
          read_or_panic_lem below ino ok s b,
          write_or_panic_lem below ino ok s 0 superblock,
        ),
        rw (ok.written s 0 superblock) (record {
          valid = record {
            chain = Chain-update disk rest (disk b 0) 0 superblock away free.chain.2;
            distinct = free.distinct.1;
          };
          ne_zero = ne;
          taken = λ y y_ne. omega (
            arith,
            occurrences-update disk rest 0 superblock y away,
            slots_empty refs_per_block (disk b) y y_ne empty,
          );
          others = λ c c_ne out. update_ne disk superblock (λ e. c_ne (sym e));
          inodes = refl;
          inode_no = refl;
          fewer = omega (
            arith,
            free_blocks-update disk rest 0 superblock away,
            in_use_empty refs_per_block (disk b) empty,
          );
          synced = λ same. update_self disk 0 superblock;
          inode_blocks = refl;
        }),
      )

  alloc_listed :
      (s : S) (snapshot : Snapshot) (b : ℕ) (rest : List ℕ)
      → IsFreelist (ok.view s) snapshot (b ∷ rest)
      → last_ref refs_per_block (ok.view s b) ≢ 0
      → let refs = ok.view s b in
        let i = last_ref refs_per_block refs in
        let s' = ok.after s b (update refs i 0) in
        (treedisk_alloc_block below ino snapshot s ≡ ret (refs i, snapshot) s')
        × Allocated (ok.view s) (b ∷ rest) snapshot (refs i) (ok.view s') (b ∷ rest) snapshot
  unfolding treedisk_alloc_block occurrences free_blocks
  alloc_listed s snapshot b rest free found =
      let disk = ok.view s in
      let refs = disk b in
      let i = last_ref refs_per_block refs in
      let refs' = update refs i 0 in
      (
        ground
            (arith, read_or_panic_lem below ino ok s b, write_or_panic_lem below ino ok s b refs'),
        rw (ok.written s b refs') (record {
          valid = record {
            chain = (
              free.chain.0,
              free.chain.1,
              rw (update_self disk b refs', update_ne refs 0 found)
                  (Chain-update disk rest (refs 0) b refs' free.distinct.0 free.chain.2),
            );
            distinct = free.distinct;
          };
          ne_zero = ref-last_ref-ne-zero refs_per_block refs found;
          taken = λ y y_ne. rw (update_self disk b refs') (
              ground (
                arith,
                occurrences-update disk rest b refs' y free.distinct.0,
                slots-update refs_per_block refs i y y_ne,
                last_ref-lt refs_per_block refs (omega arith),
              ));
          others = λ c c_ne out. update_ne disk refs' out.0;
          inodes = refl;
          inode_no = refl;
          fewer = rw (update_self disk b refs') (
              ground (
                arith,
                free_blocks-update disk rest b refs' free.distinct.0,
                in_use-update refs_per_block refs i,
                last_ref-lt refs_per_block refs (omega arith),
                ref-last_ref-ne-zero refs_per_block refs found,
              ));
          synced = λ same. update_ne disk refs' free.chain.1 ∙ same;
          inode_blocks = refl;
        }),
      )

  alloc_empty :
      (s : S) (snapshot : Snapshot)
      → free_list snapshot.superblock ≡ 0
      → treedisk_alloc_block below ino snapshot s ≡ panicked s
  unfolding treedisk_alloc_block
  alloc_empty s snapshot e = ground arith

  -- On a reliable store, an allocation from a list that is empty is a panic that changes nothing.
  -- From any other list it returns a block, not 0, that stood on the list once more than it does after;
  -- every other block stands there as often as before, the list stays well formed, and no block but the
  -- superblock and the list's own is written.
  pub treedisk_alloc_block_total :
      (s : S) (snapshot : Snapshot) (bs : List ℕ)
      → IsFreelist (ok.view s) snapshot bs
      → ((bs ≡ []) × (treedisk_alloc_block below ino snapshot s ≡ panicked s))
        ⊎ ((x : ℕ) × (snapshot' : Snapshot) × (s' : S) × (bs' : List ℕ) × (treedisk_alloc_block
                below ino snapshot s
              ≡ ret (x, snapshot') s')
            × Allocated (ok.view s) bs snapshot x (ok.view s') bs' snapshot')
  treedisk_alloc_block_total s snapshot [] free = inl (refl, alloc_empty s snapshot free.chain)
  treedisk_alloc_block_total s snapshot (b ∷ rest) free =
      elim (Bool-cases (last_ref refs_per_block (ok.view s b) == 0)) [
        | inl empty ↦
            let (e, a) = alloc_list_block s snapshot b rest free (eq_of_== _ 0 empty) in
            inr (b, _, _, rest, e, a)
        | inr found ↦
            let (e, a) = alloc_listed s snapshot b rest free (ne_of_== _ 0 found) in
            inr (_, snapshot, _, b ∷ rest, e, a)
      ]
