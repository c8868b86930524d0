-- ===== src/Fs/Mkfs/Made.antt =====
-- What the disk holds that tools/mkfs.c has made.
use egos_upstream.Base.{
  ℕ, ◌+◌, ◌*◌, ◌^◌, ◌≤◌, ◌<◌, ◌≡◌, refl, sym, ap, ◌∙◌, inl, inr, true, false, Option, some, List,
  [], ◌∷◌, ◌++◌, arith, ltb_of_lt, if◌then◌else◌, Bool-cases, length, for_range,
}
use mathlib.Core.Path.{subst}
use mathlib.Core.List.{append-nil, append_assoc}
use egos_upstream.Fs.Store.{InodeStore, Reliable}
use egos_upstream.Fs.Layout.{inodes_per_block, n_inodeblocks}
use egos_upstream.Fs.Freelist.Chain.{free_blocks}
use egos_upstream.Fs.Read.Lookup.{file_block}
use egos_upstream.Fs.Init.{treedisk_init}
use egos_upstream.Fs.System.{inodes, IsFs, Files, file_write}
use egos_upstream.Fs.Mkfs.{blocks_of, with_blocks, Ready, Ready-write, Ready-write_binary}
use egos_upstream.Fs.Mkfs.Image.{
  contents, bin_start, bin_dir_inode, bin_dir_size, block_of, Host, is_elf, program_name, write_dir,
  write_dirs, Making, write_program, write_programs, bin_block, write_image,
}
use egos_upstream.User.Shell.Batch.{char_at}

-- The number of programs in some names, and of the blocks that they take.
unfoldable pub elfs : List (List ℕ) → ℕ
elfs [] = 0
elfs (d ∷ ds) = elfs ds + (if is_elf d then 1 else 0)

unfoldable pub elf_blocks : Host → List (List ℕ) → ℕ
elf_blocks host [] = 0
elf_blocks host (d ∷ ds) =
    elf_blocks host ds + (if is_elf d then blocks_of (host.load_file d).0 else 0)

-- The entries' text, with the first inode number.
unfoldable pub programs_text : Host → List (List ℕ) → ℕ → List ℕ
programs_text host [] ino = []
programs_text host (d ∷ ds) ino =
    let listed = host.sprintf_entry (program_name d) ino ++ programs_text host ds (ino + 1) in
    let rest = programs_text host ds ino in if is_elf d then listed else rest

-- The text of the directory of programs.
abbrev pub bin_text : Host → List ℕ
bin_text host = bin_start ++ programs_text host host.dirents (bin_dir_inode + 1)

-- The files with the programs in place.
unfoldable pub with_programs : Host → List (List ℕ) → ℕ → Files → Files
with_programs host [] ino files = files
with_programs host (d ∷ ds) ino files =
    let (file_size, inode) = host.load_file d in
    let placed =
      with_programs host ds (ino + 1) (with_blocks files ino inode (blocks_of file_size)) in
    let rest = with_programs host ds ino files in if is_elf d then placed else rest

abbrev dir_file : ℕ → Files → Files
dir_file ino files = file_write files ino 0 (block_of (char_at (contents ino)))

unfoldable pub with_dirs : Files → Files
with_dirs files = for_range bin_dir_inode 0 dir_file files

-- What the image is to hold.
unfoldable pub image_files : Host → Files → Files
image_files host files =
    file_write (with_programs host host.dirents (bin_dir_inode + 1) (with_dirs files)) bin_dir_inode
      0 (bin_block host (bin_text host))

-- No program has 2^31 bytes or more.
abbrev pub AreSmall : Host → Type 0
AreSmall host = (d : List ℕ) → (host.load_file d).0 < 2 ^ 31

module _ {S : Type 0} (filesys : InodeStore S) where
  -- The inode number goes up by one for a program, and a name that is no program changes nothing.
  app_ino-write_program :
      (host : Host) (d : List ℕ) (m : Making S)
      → is_elf d ≡ true
      → (write_program filesys host d m).app_ino ≡ m.app_ino + 1
  unfolding write_program
  app_ino-write_program host d m elf = rw elf refl

  write_program-other :
      (host : Host) (d : List ℕ) (m : Making S)
      → is_elf d ≡ false
      → write_program filesys host d m ≡ m
  unfolding write_program
  write_program-other host d m other = rw other refl

  bin_dir-write_program :
      (host : Host) (d : List ℕ) (m : Making S)
      → is_elf d ≡ true
      → (write_program filesys host d m).bin_dir
        ≡ m.bin_dir ++ host.sprintf_entry (program_name d) m.app_ino
  unfolding write_program
  bin_dir-write_program host d m elf = rw elf refl

  -- The text of the directory grows by the entries.
  bin_dir-write_programs :
      (host : Host) (ds : List (List ℕ)) (m : Making S)
      → (write_programs filesys host ds m).bin_dir ≡ m.bin_dir ++ programs_text host ds m.app_ino
  unfolding write_programs programs_text
  bin_dir-write_programs host [] m = sym (append-nil m.bin_dir)
  bin_dir-write_programs host (d ∷ ds) m = elim (Bool-cases (is_elf d)) [
    | inl elf ↦
        let m' = write_program filesys host d m in
        let first = host.sprintf_entry (program_name d) m.app_ino in
        let next = app_ino-write_program host d m elf in
        bin_dir-write_programs host ds m'
        ∙ ap (λ b. b ++ programs_text host ds m'.app_ino) (bin_dir-write_program host d m elf)
        ∙ ap (λ a. (m.bin_dir ++ first) ++ programs_text host ds a) next
        ∙ append_assoc m.bin_dir first (programs_text host ds (m.app_ino + 1))
        ∙ rw elf refl
    | inr other ↦
        let same = write_program-other host d m other in
        ap (λ m'. (write_programs filesys host ds m').bin_dir) same
        ∙ bin_dir-write_programs host ds m
        ∙ rw other refl
  ]

module _ {S : Type 0} (below : InodeStore S) (ino : ℕ) (ok : Reliable below ino) where
  abbrev filesys : InodeStore S
  filesys = treedisk_init below ino

  write_dir-Ready :
      (files : Files) (count room i : ℕ) (o : Option S)
      → i < count * inodes_per_block
      → Ready below ino ok files count (room + 11) o
      → Ready below ino ok (dir_file i files) count room (write_dir filesys i o)
  unfolding write_dir
  write_dir-Ready files count room i o lt w =
      Ready-write below ino ok files count room i 0 (block_of (char_at (contents i))) o lt
        (omega arith) w

  write_dirs-Ready :
      (files : Files) (count room : ℕ) (s : S)
      → 7 ≤ count * inodes_per_block
      → Ready below ino ok files count (room + 66) (some s)
      → Ready below ino ok (with_dirs files) count room (write_dirs filesys s)
  unfolding write_dirs with_dirs for_range
  write_dirs-Ready files count room s fits w =
      let split : room + 66 ≡ room + 11 + 11 + 11 + 11 + 11 + 11 = omega arith in
      let w0 = subst (λ r. Ready below ino ok files count r (some s)) split w in
      let w1 = write_dir-Ready files count _ 0 _ (omega arith) w0 in
      let w2 = write_dir-Ready _ count _ 1 _ (omega arith) w1 in
      let w3 = write_dir-Ready _ count _ 2 _ (omega arith) w2 in
      let w4 = write_dir-Ready _ count _ 3 _ (omega arith) w3 in
      let w5 = write_dir-Ready _ count _ 4 _ (omega arith) w4 in
      write_dir-Ready _ count room 5 _ (omega arith) w5

  write_program-elf :
      (host : Host) (d : List ℕ) (files : Files) (count room : ℕ) (m : Making S)
      → is_elf d ≡ true
      → (host.load_file d).0 < 2 ^ 31
      → m.app_ino < count * inodes_per_block
      → Ready below ino ok files count (room + 11 * blocks_of (host.load_file d).0) m.disk
      → Ready below ino ok
          (with_blocks files m.app_ino (host.load_file d).1 (blocks_of (host.load_file d).0))
          count
          room
          (write_program filesys host d m).disk
  unfolding write_program
  write_program-elf host d files count room m elf small lt w = rw elf (
      Ready-write_binary below ino ok files count room m.app_ino (host.load_file d).0
        (host.load_file d).1 m.disk lt small w)

  write_programs-Ready :
      (host : Host) (ds : List (List ℕ)) (files : Files) (count room : ℕ) (m : Making S)
      → AreSmall host
      → m.app_ino + elfs ds ≤ count * inodes_per_block
      → Ready below ino ok files count (room + 11 * elf_blocks host ds) m.disk
      → Ready below ino ok
          (with_programs host ds m.app_ino files)
          count
          room
          (write_programs filesys host ds m).disk
  unfolding write_programs elfs elf_blocks with_programs
  write_programs-Ready host [] files count room m small fits w =
      let still : room + 0 ≡ room = omega arith in
      subst (λ r. Ready below ino ok files count r m.disk) still w
  write_programs-Ready host (d ∷ ds) files count room m small fits w =
      elim (Bool-cases (is_elf d)) [
        | inl elf ↦
            let (file_size, inode) = host.load_file d in
            let left = room + 11 * elf_blocks host ds in
            let split : room + 11 * (elf_blocks host ds + blocks_of file_size)
                ≡ left + 11 * blocks_of file_size =
              omega arith in
            let w' = subst (λ r. Ready below ino ok files count r m.disk) split (rw elf at w) in
            let m' = write_program filesys host d m in
            let done =
              write_program-elf host d files count left m elf (small d) (ground (arith, elf)) w' in
            let next = app_ino-write_program filesys host d m elf in
            let all =
              write_programs-Ready host ds (with_blocks files m.app_ino inode (blocks_of file_size))
                count room m' small (ground (arith, elf, next)) done in
            rw elf (
              subst
                (λ a.
                  Ready below ino ok
                    (with_programs host ds a
                      (with_blocks files m.app_ino inode (blocks_of file_size)))
                    count room (write_programs filesys host ds m').disk)
                next all)
        | inr other ↦
            let same = write_program-other filesys host d m other in
            let none_here : room + 11 * (elf_blocks host ds + 0) ≡ room + 11 * elf_blocks host ds =
              omega arith in
            let all =
              write_programs-Ready host ds files count room m small (ground (arith, other))
                (subst (λ r. Ready below ino ok files count r m.disk) none_here (rw other at w)) in
            rw other (
              subst
                (λ m'.
                  Ready below ino ok (with_programs host ds m.app_ino files) count room
                    (write_programs filesys host ds m').disk)
                (sym same) all)
      ]

  -- On a reliable store with a well-formed file system that has inodes for the directories and programs, and
  -- 11 free blocks for each block that is written, main fills the file system with no error, if each
  -- program is below 2^31 bytes and the text of the directory of programs is shorter than bin_dir. The
  -- file system is well formed again, and its files are those before with the directories, the programs
  -- and the directory of programs written into their inodes.
  pub write_image_total :
      (host : Host) (s : S) (bs : List ℕ)
      → IsFs (ok.view s) bs
      → AreSmall host
      → 7 + elfs host.dirents ≤ inodes (ok.view s)
      → 11 * (7 + elf_blocks host host.dirents) ≤ free_blocks (ok.view s) bs
      → length (bin_text host) < bin_dir_size
      → (s' : S) × (bs' : List ℕ) × (write_image (treedisk_init below ino) host s ≡ some s')
        × IsFs (ok.view s') bs'
        × (file_block (ok.view s') ≡ image_files host (file_block (ok.view s)))
  unfolding write_image image_files
  write_image_total host s bs fs small fits room short =
      let files = file_block (ok.view s) in
      let count = n_inodeblocks (ok.view s 0) in
      let ready : Ready below ino ok files count (11 + 11 * elf_blocks host host.dirents + 66)
          (some s) =
        record {
          state = s;
          bs = bs;
          returned = refl;
          fs = fs;
          inode_blocks = refl;
          free = omega arith;
          holds = refl;
        } in
      let dirs =
        write_dirs-Ready files count (11 + 11 * elf_blocks host host.dirents) s (omega arith)
          ready in
      let m : Making S = record {
        disk = write_dirs filesys s;
        app_ino = bin_dir_inode + 1;
        bin_dir = bin_start;
      } in
      let programs =
        write_programs-Ready host host.dirents (with_dirs files) count 11 m small (omega arith)
          dirs in
      let text = bin_dir-write_programs filesys host host.dirents m in
      let block = bin_block host (write_programs filesys host host.dirents m).bin_dir in
      let w =
        Ready-write below ino ok (with_programs host host.dirents 7 (with_dirs files)) count 0
          bin_dir_inode 0 block (write_programs filesys host host.dirents m).disk (omega arith)
          (omega arith) programs in
      (
        w.state,
        w.bs,
        rw (text, ltb_of_lt _ _ short) (rw text at w.returned),
        w.fs,
        w.holds
            ∙ ap
                (λ t.
                  file_write (with_programs host host.dirents 7 (with_dirs files)) bin_dir_inode 0
                    (bin_block host t))
                text,
      )
