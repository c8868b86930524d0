-- ===== src/Fs/Mkfs.antt =====
-- How tools/mkfs.c writes the file of a program into the file system that it makes.
pub mod Image
pub mod Made
use egos_upstream.Base.{
  ℕ, ◌+◌, ◌-◌, ◌*◌, ◌/◌, ◌^◌, ◌≤◌, ◌<◌, ◌≡◌, refl, ap, ◌∙◌, fun_ext, inl, inr, ◌&&◌, Option, some,
  List, arith, ltb, ◌==◌, if◌then◌else◌, eq_of_==, Bool-cases, ◌>>=◌, for_range, for_range_inv,
}
use mathlib.Core.Path.{subst}
use egos_upstream.Fs.Store.{Block, InodeStore, Reliable}
use egos_upstream.Fs.Layout.{inodes_per_block, n_inodeblocks}
use egos_upstream.Fs.Freelist.Chain.{free_blocks}
use egos_upstream.Fs.Read.Lookup.{file_block}
use egos_upstream.Fs.Write.Refine.{treedisk_write-file_write}
use egos_upstream.Fs.Init.{treedisk_init}
use egos_upstream.Fs.Init.Refine.{write_init}
use egos_upstream.Fs.System.{inodes, IsFs, Files, or_null, file_write}

abbrev pub bytes_per_block : ℕ
bytes_per_block = 512

-- The rounds of the loop, in which b * BLOCK_SIZE < file_size.
abbrev pub blocks_of : ℕ → ℕ
blocks_of file_size = (file_size + (bytes_per_block - 1)) / bytes_per_block

-- One round. The source does not look at the result of the write; one that fails is `none`.
unfoldable pub write_round : {S : Type 0} → InodeStore S → ℕ → (ℕ → Block) → ℕ → Option S → Option S
write_round filesys app_ino inode b o = do s ← o; filesys.write s app_ino b (inode b)

unfoldable pub write_binary : {S : Type 0} → InodeStore S → ℕ → (ℕ → Block) → ℕ → S → Option S
unfolding write_round
write_binary filesys app_ino inode file_size s =
    for_range (blocks_of file_size) 0 (write_round filesys app_ino inode) (some s)

-- The files with the first `n` blocks of one of them replaced.
unfoldable pub with_blocks : Files → ℕ → (ℕ → Block) → ℕ → Files
with_blocks files app_ino inode n i x =
    if (i == app_ino) && ltb x n then some (inode x) else files i x

with_blocks-next :
    (files : Files) (app_ino : ℕ) (inode : ℕ → Block) (n : ℕ)
    → file_write (with_blocks files app_ino inode n) app_ino n (inode n)
      ≡ with_blocks files app_ino inode (n + 1)
unfolding with_blocks file_write or_null
with_blocks-next files app_ino inode n = fun_ext (λ i. fun_ext (λ x. elim (Bool-cases (x == n)) [
  | inl here ↦ rw (eq_of_== x n here) (ground arith)
  | inr other ↦ ground arith
]))

with_blocks-none :
    (files : Files) (app_ino : ℕ) (inode : ℕ → Block) → with_blocks files app_ino inode 0 ≡ files
unfolding with_blocks
with_blocks-none files app_ino inode = fun_ext (λ i. fun_ext (λ x. ground arith))

module _ {S : Type 0} (below : InodeStore S) (ino : ℕ) (ok : Reliable below ino) where
  -- A run that has not failed, with these files, and with this room left.
  pub record Ready (files : Files) (count room : ℕ) (o : Option S) : Type 0 where
    pub state : S
    pub bs : List ℕ
    pub returned : o ≡ some state
    pub fs : IsFs (ok.view state) bs
    pub inode_blocks : n_inodeblocks (ok.view state 0) ≡ count
    pub free : room ≤ free_blocks (ok.view state) bs
    pub holds : file_block (ok.view state) ≡ files

  -- A write takes 11 blocks at most.
  pub Ready-write :
      (files : Files) (count room i offset : ℕ) (b : Block) (o : Option S)
      → i < count * inodes_per_block
      → offset + 1 < 2 ^ 32
      → Ready files count (room + 11) o
      → Ready
          (file_write files i offset b)
          count
          room
          (o >>= λ s. (treedisk_init below ino).write s i offset b)
  Ready-write files count room i offset b o lt bound w =
      let (s', bs', e, fs', same, spent, after) =
        treedisk_write-file_write below ino ok w.state w.bs i offset b w.fs
          (omega (arith, w.inode_blocks)) bound (omega (arith, w.free)) in
      let e' = write_init below ino ok w.state i offset b s' e in
      record {
        state = s';
        bs = bs';
        returned = rw (w.returned, e') refl;
        fs = fs';
        inode_blocks = same ∙ w.inode_blocks;
        free = omega (arith, w.free, spent);
        holds = after ∙ ap (λ fs. file_write fs i offset b) w.holds;
      }

  round-Ready :
      (files : Files) (app_ino count : ℕ) (inode : ℕ → Block) (room total b : ℕ) (o : Option S)
      → b < total
      → app_ino < count * inodes_per_block
      → b + 1 < 2 ^ 32
      → Ready (with_blocks files app_ino inode b) count (room + 11 * (total - b)) o
      → Ready
          (with_blocks files app_ino inode (b + 1))
          count
          (room + 11 * (total - (b + 1)))
          (write_round (treedisk_init below ino) app_ino inode b o)
  unfolding write_round
  round-Ready files app_ino count inode room total b o more lt bound w =
      let left = room + 11 * (total - (b + 1)) in
      let split : room + 11 * (total - b) ≡ left + 11 = omega arith in
      rw (← with_blocks-next files app_ino inode b) (
        Ready-write (with_blocks files app_ino inode b) count left app_ino b (inode b) o lt bound
          (subst (λ r. Ready (with_blocks files app_ino inode b) count r o) split w))

  pub Ready-write_binary :
      (files : Files) (count room app_ino file_size : ℕ) (inode : ℕ → Block) (o : Option S)
      → app_ino < count * inodes_per_block
      → file_size < 2 ^ 31
      → Ready files count (room + 11 * blocks_of file_size) o
      → Ready
          (with_blocks files app_ino inode (blocks_of file_size))
          count
          room
          (o >>= write_binary (treedisk_init below ino) app_ino inode file_size)
  unfolding write_binary
  Ready-write_binary files count room app_ino file_size inode o lt bound w =
      let total = blocks_of file_size in
      let none_yet : Ready (with_blocks files app_ino inode 0) count (room + 11 * (total - 0))
          (some w.state) =
        rw (with_blocks-none files app_ino inode) (record {
          state = w.state;
          bs = w.bs;
          returned = refl;
          fs = w.fs;
          inode_blocks = w.inode_blocks;
          free = omega (arith, w.free);
          holds = w.holds;
        }) in
      let all =
        for_range_inv
          (λ b o'. Ready (with_blocks files app_ino inode b) count (room + 11 * (total - b)) o')
          (write_round (treedisk_init below ino) app_ino inode) total 0 total
          (λ b o' lo hi.
            round-Ready files app_ino count inode room total b o' (omega arith) lt (omega arith))
          (some w.state) (omega arith) none_yet in
      let spent : room + 11 * (total - total) ≡ room = omega arith in
      rw w.returned (
        subst
          (λ r. Ready (with_blocks files app_ino inode total) count r (
            for_range total 0 (write_round (treedisk_init below ino) app_ino inode) (some w.state)))
          spent all)

  -- On a reliable store that holds a well-formed file system with 11 free blocks for each block of the
  -- program, the loop that writes a program below 2^31 bytes into an inode that exists ends with no
  -- error. The file system is well formed again; its files read as before, but for the blocks of
  -- the program in that inode.
  pub write_binary_total :
      (s : S) (bs : List ℕ) (app_ino file_size : ℕ) (inode : ℕ → Block)
      → IsFs (ok.view s) bs
      → app_ino < inodes (ok.view s)
      → file_size < 2 ^ 31
      → 11 * blocks_of file_size ≤ free_blocks (ok.view s) bs
      → (s' : S) × (bs' : List ℕ) × (write_binary
            (treedisk_init below ino)
            app_ino
            inode
            file_size
            s
          ≡ some s')
        × IsFs (ok.view s') bs'
        × (file_block (ok.view s')
            ≡ with_blocks (file_block (ok.view s)) app_ino inode (blocks_of file_size))
  write_binary_total s bs app_ino file_size inode fs lt bound room =
      let w =
        Ready-write_binary (file_block (ok.view s)) (n_inodeblocks (ok.view s 0)) 0 app_ino
          file_size inode (some s) lt bound
          (record {
            state = s;
            bs = bs;
            returned = refl;
            fs = fs;
            inode_blocks = refl;
            free = omega arith;
            holds = refl;
          }) in
      (w.state, w.bs, w.returned, w.fs, w.holds)
