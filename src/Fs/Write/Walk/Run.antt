-- ===== src/Fs/Write/Walk/Run.antt =====
-- The walk of `treedisk_write`, and the write of the data block at its end, do what they should.
use egos_upstream.Base.{
  ℕ, zero, suc, ◌≤◌, ◌≡◌, refl, ◌∙◌, ◌≢◌, inl, inr, List, [], ◌∷◌, arith, ◌==◌, eq_of_==, ==_false,
  ne_of_==, Bool-cases, update,
}
use egos_upstream.Fs.Store.{
  Block, InodeStore, ret, M, ◌>>=◌, Reliable, write_or_panic, read_or_panic_lem, write_or_panic_lem,
  null_block,
}
use egos_upstream.Fs.Layout.{slot}
use egos_upstream.Fs.Freelist.{Snapshot, treedisk_alloc_block}
use egos_upstream.Fs.Freelist.Chain.{free_blocks}
use egos_upstream.Fs.Freelist.Alloc.{IsFreelist, Allocated, treedisk_alloc_block_total}
use egos_upstream.Fs.Write.{write_walk}
use egos_upstream.Fs.Write.Walk.{IsReady, Walked, into_old-IsReady, into_old-Walked}
use egos_upstream.Fs.Write.Walk.New.{
  into_new-IsReady, into_new-Walked, last_new-Walked, last_old-Walked,
}

module _ {S : Type 0} (below : InodeStore S) (ino : ℕ) (ok : Reliable below ino) where
  -- An allocation with a block left.
  pub alloc_some :
      (s : S) (snapshot : Snapshot) (bs : List ℕ)
      → IsFreelist (ok.view s) snapshot bs
      → 1 ≤ free_blocks (ok.view s) bs
      → (x : ℕ) × (snapshot' : Snapshot) × (s' : S) × (bs' : List ℕ) × (treedisk_alloc_block below
            ino snapshot s
          ≡ ret (x, snapshot') s')
        × Allocated (ok.view s) bs snapshot x (ok.view s') bs' snapshot'
  unfolding free_blocks
  alloc_some s snapshot [] free enough = absurd (omega arith)
  alloc_some s snapshot (b ∷ bs) free enough =
      elim (treedisk_alloc_block_total below ino ok s snapshot (b ∷ bs) free) [
        | inl (e, full) ↦ cc
        | inr found ↦ found
      ]

  -- The walk and the write of the block that it gives.
  unfoldable pub write_at : ℕ → ℕ → ℕ → Block → ℕ → Snapshot → Block → M S (Unit {0})
  write_at nlevels offset p parent i snapshot block =
      write_walk below ino nlevels offset p parent i snapshot >>= λ b.
      write_or_panic below ino b block

  write_at_old :
      (nlevels offset p : ℕ) (parent : Block) (i : ℕ) (snapshot : Snapshot) (block : Block) (s : S)
      → parent i ≢ 0
      → write_at (suc nlevels) offset p parent i snapshot block s
        ≡ write_at nlevels offset
            (parent i)
            (ok.view s (parent i))
            (slot offset nlevels)
            snapshot
            block
            s
  unfolding write_at write_walk
  write_at_old nlevels offset p parent i snapshot block s there =
      ground (arith, read_or_panic_lem below ino ok s (parent i))

  write_at_last_old :
      (offset p : ℕ) (parent : Block) (i : ℕ) (snapshot : Snapshot) (block : Block) (s : S)
      → parent i ≢ 0
      → write_at 0 offset p parent i snapshot block s ≡ ret tt (ok.after s (parent i) block)
  unfolding write_at write_walk
  write_at_last_old offset p parent i snapshot block s there =
      rw (==_false (parent i) 0 there, write_or_panic_lem below ino ok s (parent i) block) refl

  module _ (offset p : ℕ) (parent : Block) (i : ℕ) (snapshot : Snapshot) (block : Block) (s : S)
      (hole : parent i ≡ 0) (b : ℕ) (snapshot1 : Snapshot) (s1 : S)
      (e : treedisk_alloc_block below ino snapshot s ≡ ret (b, snapshot1) s1) where
    abbrev linked : S
    linked = ok.after s1 p (update parent i b)

    write_at_new :
        (nlevels : ℕ)
        → write_at (suc nlevels) offset p parent i snapshot block s
          ≡ write_at nlevels offset b null_block (slot offset nlevels) snapshot1 block linked
    unfolding write_at write_walk
    write_at_new nlevels = ground (arith, write_or_panic_lem below ino ok s1 p (update parent i b))

    write_at_last_new :
        write_at 0 offset p parent i snapshot block s ≡ ret tt (ok.after linked b block)
    unfolding write_at write_walk
    write_at_last_new = ground (
      arith,
      write_or_panic_lem below ino ok s1 p (update parent i b),
      write_or_panic_lem below ino ok linked b block,
    )

  pub write_at_total :
      (nlevels offset p : ℕ) (parent : Block) (i : ℕ) (snapshot : Snapshot) (block : Block)
      (bs : List ℕ) (s : S)
      → IsReady (ok.view s) bs snapshot nlevels p parent i
      → (s' : S) × (bs' : List ℕ) × (write_at nlevels offset p parent i snapshot block s
          ≡ ret tt s')
        × Walked (ok.view s) bs nlevels offset p parent i block (ok.view s') bs'
  write_at_total zero offset p parent i snapshot block bs s ready =
      elim (Bool-cases (parent i == 0)) [
        | inl none_there ↦
            let hole : parent i ≡ 0 = eq_of_== _ 0 none_there in
            let (b, snapshot1, s1, bs1, e, a) =
              alloc_some s snapshot bs ready.free (omega (arith, ready.enough)) in
            let s2 = ok.after s1 p (update parent i b) in
            (
              ok.after s2 b block,
              bs1,
              write_at_last_new offset p parent i snapshot block s hole b snapshot1 s1 e,
              rw (ok.written s2 b block, ok.written s1 p (update parent i b))
                  (last_new-Walked (ok.view s) bs snapshot zero offset p parent i block ready hole b
                    (ok.view s1) bs1 snapshot1 a),
            )
        | inr found ↦
            let there = ne_of_== _ 0 found in
            (
              ok.after s (parent i) block,
              bs,
              write_at_last_old offset p parent i snapshot block s there,
              rw (ok.written s (parent i) block)
                  (last_old-Walked (ok.view s) bs snapshot offset p parent i block ready there),
            )
      ]
  write_at_total (suc nlevels) offset p parent i snapshot block bs s ready =
      elim (Bool-cases (parent i == 0)) [
        | inl none_there ↦
            let hole : parent i ≡ 0 = eq_of_== _ 0 none_there in
            let (b, snapshot1, s1, bs1, e, a) =
              alloc_some s snapshot bs ready.free (omega (arith, ready.enough)) in
            let s2 = ok.after s1 p (update parent i b) in
            let idx = slot offset nlevels in
            let ready2 : IsReady (ok.view s2) bs1 snapshot1 nlevels b null_block idx =
              rw (ok.written s1 p (update parent i b)) (
                into_new-IsReady (ok.view s) bs snapshot (suc nlevels) offset p parent i block ready
                  hole b (ok.view s1) bs1 snapshot1 a nlevels idx (omega arith)) in
            let (s', bs', e', w) =
              write_at_total nlevels offset b null_block idx snapshot1 block bs1 s2 ready2 in
            (
              s',
              bs',
              write_at_new offset p parent i snapshot block s hole b snapshot1 s1 e nlevels ∙ e',
              into_new-Walked (ok.view s) bs snapshot nlevels offset p parent i block ready hole b
                  (ok.view s1) bs1 snapshot1 a (ok.view s') bs'
                  (rw (ok.written s1 p (update parent i b)) at w),
            )
        | inr found ↦
            let there = ne_of_== _ 0 found in
            let ready2 =
              into_old-IsReady (ok.view s) bs snapshot nlevels offset p parent i block ready
                there in
            let (s', bs', e', w) =
              write_at_total nlevels offset (parent i) (ok.view s (parent i)) (slot offset nlevels)
                snapshot block bs s ready2 in
            (
              s',
              bs',
              write_at_old nlevels offset p parent i snapshot block s there ∙ e',
              into_old-Walked (ok.view s) bs snapshot nlevels offset p parent i block ready there
                  (ok.view s') bs' w,
            )
      ]
