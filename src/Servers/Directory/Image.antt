-- ===== src/Servers/Directory/Image.antt =====
-- Programs can be found in the image that tools/mkfs.c makes.
use egos_upstream.Base.{
  ℕ, ◌+◌, ◌-◌, ◌*◌, ◌^◌, ◌≤◌, ◌<◌, ◌≡◌, refl, ap, ◌∙◌, inl, inr, none, some, List, [], ◌∷◌, ◌++◌,
  arith, ltb, ltb_of_lt, if◌then◌else◌, ==_false, Bool-cases, length, length-append,
}
use egos_upstream.Fs.Store.{Disk, Block, InodeStore, Reliable}
use egos_upstream.Fs.Freelist.Chain.{free_blocks}
use egos_upstream.Fs.Read.Lookup.{file_block}
use egos_upstream.Fs.Init.{treedisk_init}
use egos_upstream.Fs.System.{inodes, IsFs, Files, or_null, file_write}
use egos_upstream.Fs.Mkfs.{blocks_of}
use egos_upstream.Fs.Disks.{ramdisk, ramdisk-Reliable}
use egos_upstream.Fs.Create.Refine.{treedisk_create_total}
use egos_upstream.Fs.Mkfs.Image.{
  ninodes, empty_fs, image_on, make_image, bin_start, bin_dir_inode, bin_dir_size, block_of,
  block_bytes, Host, program_name, bin_block, write_image,
}
use egos_upstream.Fs.Mkfs.Made.{
  elfs, elf_blocks, programs_text, bin_text, with_dirs, image_files, AreSmall, write_image_total,
}
use egos_upstream.User.Shell.Batch.{char_at}
use egos_upstream.Servers.Directory.{dir_lookup}
use egos_upstream.Servers.Directory.Entries.{
  Entry, entries_text, IsName, number_of, same, lookup, Spells,
}
use egos_upstream.Servers.Directory.Lookup.{result_of, dir_lookup-lookup}
use egos_upstream.Servers.Directory.Bytes.{AreSet-entries, Spells-block_of}
use egos_upstream.Servers.Directory.Placed.{
  PrintsEntries, AreNamed, Listed, Listed-le, Listed-blocks, placed, programs_text-placed,
  placed-AreEntries, Listed-lookup, Listed-fits,
}
use egos_upstream.Servers.Directory.Fixed.{
  dots, bin_start-dots, dots-AreEntries, directory_of, image-bin,
}

-- The directory of programs as dir_lookup reads it.
image-lookup :
    (host : Host) (prints : PrintsEntries host.sprintf_entry) (files : Files) (name : List ℕ)
    → AreNamed host.dirents
    → 7 + elfs host.dirents ≤ 1000
    → length (bin_text host) < bin_dir_size
    → ((i : ℕ) → char_at (bin_text host) i < 2 ^ 8)
    → ((i : ℕ) → host.behind i < 2 ^ 8)
    → IsName name
    → length name ≤ length (bin_text host)
    → dir_lookup (directory_of (image_files host files)) bin_dir_inode name
      ≡ some (result_of (lookup name (dots ++ placed host prints host.dirents 7)))
unfolding image_files file_write or_null bin_block
image-lookup host prints files name named few short bytes behind is_name fits =
    let es = dots ++ placed host prints host.dirents 7 in
    let are =
      dots-AreEntries (placed host prints host.dirents 7)
        (placed-AreEntries host prints host.dirents 7 named few) in
    let text : bin_text host ≡ entries_text es =
      ap (λ t. bin_start ++ t) (programs_text-placed host prints host.dirents 7 few)
      ∙ bin_start-dots (placed host prints host.dirents 7) in
    let set = AreSet-entries es are in
    let row : ℕ → ℕ = λ i.
      if ltb i bin_dir_size then char_at (bin_text host) i else host.behind (i - bin_dir_size) in
    let row_byte : (i : ℕ) → row i < 2 ^ 8 = λ i. elim (Bool-cases (ltb i bin_dir_size)) [
      | inl inside ↦ rw inside (bytes i)
      | inr outside ↦ rw outside (behind (i - bin_dir_size))
    ] in
    let spells : Spells (block_bytes (block_of row)) 0 (entries_text es) =
      Spells-block_of row (entries_text es) set row_byte (λ i le.
        rw (ltb_of_lt i bin_dir_size (omega (arith, ap length text)))
          (ap (λ t. char_at t i) text)) in
    dir_lookup-lookup (directory_of (image_files host files)) bin_dir_inode name es is_name are
      spells (omega (arith, ap length text)) (omega (arith, ap length text))

lookup-append :
    (name : List ℕ) (es fs : List Entry)
    → lookup name es ≡ none
    → lookup name (es ++ fs) ≡ lookup name fs
unfolding lookup
lookup-append name [] fs h = refl
lookup-append name (e ∷ es) fs h = elim (Bool-cases (same name e.name)) [
  | inl it ↦ let bad : some (number_of e.number 0) ≡ none = (rw it at h) in cc
  | inr other ↦ rw other (lookup-append name es fs (rw other at h))
]

-- The inode number of a listed program, in the whole directory.
Listed-found :
    (host : Host) (prints : PrintsEntries host.sprintf_entry) (d : List ℕ) (ino : ℕ)
    → 7 + elfs host.dirents ≤ 1000
    → Listed host.dirents 7 d ino
    → lookup (program_name d) dots ≡ none
    → lookup (program_name d) (dots ++ placed host prints host.dirents 7) ≡ some ino
unfolding lookup
Listed-found host prints d ino few l no_dots =
    lookup-append (program_name d) dots (placed host prints host.dirents 7) no_dots
    ∙ Listed-lookup host prints host.dirents 7 d ino few l

-- The files of the image: a block of a program.
image_files-program :
    (host : Host) (files : Files) (d : List ℕ) (ino x : ℕ)
    → Listed host.dirents 7 d ino
    → x < blocks_of (host.load_file d).0
    → image_files host files ino x ≡ some ((host.load_file d).1 x)
unfolding image_files file_write
image_files-program host files d ino x l lt =
    let above = Listed-le host.dirents 7 d ino l in
    rw (==_false ino bin_dir_inode (λ e. omega arith))
      (Listed-blocks host host.dirents 7 d ino (with_dirs files) x lt l)

-- When main of tools/mkfs.c fills a file system with room, programs can be found in it. For a
-- program of the host's directory, the first of its name, that gets inode `ino`: dir_lookup of bin/ in
-- the root directory gives inode 6, dir_lookup of the program's name in there gives `ino`, and each block
-- of the program is in that file. The host's directory lists programs with names that do not start with a
-- digit and have no blank or NUL, the text of bin/ is shorter than bin_dir, the inodes' numbers are below
-- 1000, what bin_dir holds and is followed by are bytes, and sprintf prints as it is documented to.
write_image-found :
    {S : Type 0} (below : InodeStore S) (fs_ino : ℕ) (ok : Reliable below fs_ino) (host : Host)
    (prints : PrintsEntries host.sprintf_entry) (s : S) (bs : List ℕ) (d : List ℕ) (ino x : ℕ)
    → IsFs (ok.view s) bs
    → AreSmall host
    → 7 + elfs host.dirents ≤ inodes (ok.view s)
    → 11 * (7 + elf_blocks host host.dirents) ≤ free_blocks (ok.view s) bs
    → AreNamed host.dirents
    → 7 + elfs host.dirents ≤ 1000
    → length (bin_text host) < bin_dir_size
    → ((i : ℕ) → char_at (bin_text host) i < 2 ^ 8)
    → ((i : ℕ) → host.behind i < 2 ^ 8)
    → Listed host.dirents 7 d ino
    → IsName (program_name d)
    → lookup (program_name d) dots ≡ none
    → x < blocks_of (host.load_file d).0
    → (s' : S) × (write_image (treedisk_init below fs_ino) host s ≡ some s')
      × (dir_lookup (directory_of (file_block (ok.view s'))) 0 (b'b' ∷ b'i' ∷ b'n' ∷ b'/' ∷ [])
          ≡ some bin_dir_inode)
      × (dir_lookup (directory_of (file_block (ok.view s'))) bin_dir_inode (program_name d)
          ≡ some ino)
      × (file_block (ok.view s') ino x ≡ some ((host.load_file d).1 x))
write_image-found below fs_ino ok host prints s bs d ino x fs small fits room named few short bytes
      behind l is_name no_dots lt =
    let (s', bs', made, fs', holds) =
      write_image_total below fs_ino ok host s bs fs small fits room short in
    let files = file_block (ok.view s) in
    let inside : length (program_name d) ≤ length (bin_text host) = omega (
      arith,
      length-append bin_start (programs_text host host.dirents 7),
      ap length (programs_text-placed host prints host.dirents 7 few),
      Listed-fits host prints host.dirents 7 d ino l,
    ) in
    (
      s',
      made,
      rw holds (image-bin host files),
      rw holds (
          image-lookup host prints files (program_name d) named few short bytes behind is_name
            inside
          ∙ ap (λ o. some (result_of o)) (Listed-found host prints d ino few l no_dots)),
      rw holds (image_files-program host files d ino x l lt),
    )

-- The file system of tools/mkfs.c, made from an empty ramdisk, leads to the programs. For a program of the
-- host's directory, the first of its name, that gets inode `ino`: dir_lookup of bin/ in the root
-- directory gives inode 6, dir_lookup of the program's name in there gives `ino`, and each block of the
-- program is in that file. This is for at most 121 programs, each below 2^31 bytes, of at most 365 blocks
-- together, with names that do not start with a digit, have no blank or NUL, and are not ./ or ../,
-- when the text of bin/ is shorter than bin_dir, when what bin_dir holds and is followed by are bytes,
-- and when sprintf prints as it is documented to.
pub make_image-found :
    (junk : Block) (host : Host) (prints : PrintsEntries host.sprintf_entry) (d : List ℕ)
    (ino x : ℕ)
    → AreSmall host
    → elfs host.dirents ≤ 121
    → elf_blocks host host.dirents ≤ 365
    → AreNamed host.dirents
    → length (bin_text host) < bin_dir_size
    → ((i : ℕ) → char_at (bin_text host) i < 2 ^ 8)
    → ((i : ℕ) → host.behind i < 2 ^ 8)
    → Listed host.dirents 7 d ino
    → IsName (program_name d)
    → lookup (program_name d) dots ≡ none
    → x < blocks_of (host.load_file d).0
    → (fs : Disk) × (make_image junk host ≡ some fs)
      × (dir_lookup (directory_of (file_block fs)) 0 (b'b' ∷ b'i' ∷ b'n' ∷ b'/' ∷ [])
          ≡ some bin_dir_inode)
      × (dir_lookup (directory_of (file_block fs)) bin_dir_inode (program_name d) ≡ some ino)
      × (file_block fs ino x ≡ some ((host.load_file d).1 x))
unfolding make_image image_on
make_image-found junk host prints d ino x small few blocks named short bytes behind l is_name
      no_dots lt =
    elim (treedisk_create_total ramdisk 0 (ramdisk-Reliable 0) junk ninodes 4096 empty_fs refl
      (omega arith)) [
        | inl (too_few, e) ↦ absurd (omega arith)
        | inr (inl (enough, old, e)) ↦ absurd (old refl)
        | inr (inr (enough, new, s, bs, e, fs, count, room, files)) ↦
            let (s', made, bin, found, block) =
              write_image-found ramdisk 0 (ramdisk-Reliable 0) host prints s bs d ino x fs small
                (omega (arith, count)) (omega (arith, room)) named (omega arith) short bytes behind
                l is_name no_dots lt in
            (s', rw e made, bin, found, block)
      ]
