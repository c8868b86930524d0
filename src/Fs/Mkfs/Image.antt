-- ===== src/Fs/Mkfs/Image.antt =====
-- The file system that tools/mkfs.c makes: directories, programs, and the directory of programs.
use egos_upstream.Base.{
  ◌>>=◌, ℕ, ◌+◌, ◌-◌, ◌*◌, ◌/◌, ◌%◌, ◌^◌, Bool, true, false, ◌&&◌, ◌||◌, Option, none, some, List,
  [], ◌∷◌, ◌++◌, ltb, ◌==◌, if◌then◌else◌, length, for_range,
}
use egos_upstream.Fs.Store.{Block, InodeStore, Disk, null_block, Out, ret, failed, panicked}
use egos_upstream.Fs.Disks.{ramdisk}
use egos_upstream.Fs.Create.{treedisk_create}
use egos_upstream.Fs.Init.{treedisk_init}
use egos_upstream.Fs.Mkfs.{write_binary}
use egos_upstream.User.Shell.Batch.{char_at, take}

-- contents[]
abbrev pub root_text : List ℕ
root_text =
    b'.' ∷ b'/' ∷ b' ' ∷ b' ' ∷ b' ' ∷ b'0' ∷ b' ' ∷ b'.' ∷ b'.' ∷ b'/' ∷ b' ' ∷ b' ' ∷ b' ' ∷ b'0'
    ∷ b' ' ∷ b'h' ∷ b'o' ∷ b'm' ∷ b'e' ∷ b'/' ∷ b' ' ∷ b' ' ∷ b' ' ∷ b'1' ∷ b' ' ∷ b'b' ∷ b'i'
    ∷ b'n' ∷ b'/' ∷ b' ' ∷ b' ' ∷ b' ' ∷ b'6' ∷ b' ' ∷ []

abbrev pub home_text : List ℕ
home_text =
    b'.' ∷ b'/' ∷ b' ' ∷ b' ' ∷ b' ' ∷ b'1' ∷ b' ' ∷ b'.' ∷ b'.' ∷ b'/' ∷ b' ' ∷ b' ' ∷ b' ' ∷ b'0'
    ∷ b' ' ∷ b'c' ∷ b's' ∷ b'6' ∷ b'6' ∷ b'4' ∷ b'0' ∷ b'/' ∷ b' ' ∷ b' ' ∷ b' ' ∷ b'2' ∷ b' '
    ∷ b't' ∷ b'a' ∷ b'/' ∷ b' ' ∷ b' ' ∷ b' ' ∷ b' ' ∷ b'3' ∷ b' ' ∷ b'f' ∷ b's' ∷ b'/' ∷ b' '
    ∷ b' ' ∷ b' ' ∷ b' ' ∷ b' ' ∷ b' ' ∷ b' ' ∷ b'4' ∷ b' ' ∷ []

abbrev pub cs6640_text : List ℕ
cs6640_text =
    b'.' ∷ b'/' ∷ b' ' ∷ b' ' ∷ b' ' ∷ b'2' ∷ b' ' ∷ b'.' ∷ b'.' ∷ b'/' ∷ b' ' ∷ b' ' ∷ b' ' ∷ b'1'
    ∷ b' ' ∷ b'R' ∷ b'E' ∷ b'A' ∷ b'D' ∷ b'M' ∷ b'E' ∷ b' ' ∷ b' ' ∷ b' ' ∷ b'5' ∷ b' ' ∷ []

abbrev pub ta_text : List ℕ
ta_text =
    b'.' ∷ b'/' ∷ b' ' ∷ b' ' ∷ b' ' ∷ b'3' ∷ b' ' ∷ b'.' ∷ b'.' ∷ b'/' ∷ b' ' ∷ b' ' ∷ b' ' ∷ b'1'
    ∷ b' ' ∷ []

abbrev pub fs_text : List ℕ
fs_text =
    b'.' ∷ b'/' ∷ b' ' ∷ b' ' ∷ b' ' ∷ b'4' ∷ b' ' ∷ b'.' ∷ b'.' ∷ b'/' ∷ b' ' ∷ b' ' ∷ b' ' ∷ b'1'
    ∷ b' ' ∷ []

abbrev pub readme_text : List ℕ
readme_text =
    b'W' ∷ b'e' ∷ b'l' ∷ b'c' ∷ b'o' ∷ b'm' ∷ b'e' ∷ b' ' ∷ b't' ∷ b'o' ∷ b' ' ∷ b'C' ∷ b'S' ∷ b'6'
    ∷ b'6' ∷ b'4' ∷ b'0' ∷ b' ' ∷ b'l' ∷ b'a' ∷ b'b' ∷ b's' ∷ b'.' ∷ b' ' ∷ 0x0a ∷ b'T' ∷ b'h'
    ∷ b'i' ∷ b's' ∷ b' ' ∷ b'O' ∷ b'S' ∷ b' ' ∷ b'i' ∷ b's' ∷ b' ' ∷ b't' ∷ b'a' ∷ b'i' ∷ b'l'
    ∷ b'o' ∷ b'r' ∷ b'e' ∷ b'd' ∷ b' ' ∷ b'f' ∷ b'r' ∷ b'o' ∷ b'm' ∷ b' ' ∷ b'e' ∷ b'g' ∷ b'o'
    ∷ b's' ∷ b'-' ∷ b'2' ∷ b'0' ∷ b'0' ∷ b'0' ∷ b' ' ∷ b'(' ∷ b'h' ∷ b't' ∷ b't' ∷ b'p' ∷ b's'
    ∷ b':' ∷ b'/' ∷ b'/' ∷ b'g' ∷ b'i' ∷ b't' ∷ b'h' ∷ b'u' ∷ b'b' ∷ b'.' ∷ b'c' ∷ b'o' ∷ b'm'
    ∷ b'/' ∷ b'y' ∷ b'h' ∷ b'z' ∷ b'h' ∷ b'a' ∷ b'n' ∷ b'g' ∷ b'0' ∷ b'1' ∷ b'2' ∷ b'8' ∷ b'/'
    ∷ b'e' ∷ b'g' ∷ b'o' ∷ b's' ∷ b'-' ∷ b'2' ∷ b'0' ∷ b'0' ∷ b'0' ∷ b')' ∷ b'.' ∷ 0x0a ∷ []

-- bin_dir before the first program.
abbrev pub bin_start : List ℕ
bin_start =
    b'.' ∷ b'/' ∷ b' ' ∷ b' ' ∷ b' ' ∷ b'6' ∷ b' ' ∷ b'.' ∷ b'.' ∷ b'/' ∷ b' ' ∷ b' ' ∷ b' ' ∷ b'0'
    ∷ b' ' ∷ []

unfoldable pub contents : ℕ → List ℕ
contents ino =
    if ino == 0
    then root_text
    else if ino == 1
    then home_text
    else if ino == 2
    then cs6640_text
    else if ino == 3
    then ta_text
    else if ino == 4
    then fs_text
    else readme_text

-- BIN_DIR_INODE
abbrev pub bin_dir_inode : ℕ
bin_dir_inode = 6

abbrev pub bin_dir_size : ℕ
bin_dir_size = 256

-- 512 bytes as 128 words, the lowest byte first, and back.
unfoldable pub block_of : (ℕ → ℕ) → Block
block_of bytes w =
    bytes (4 * w)
    + 2 ^ 8 * bytes (4 * w + 1)
    + 2 ^ 16 * bytes (4 * w + 2)
    + 2 ^ 24 * bytes (4 * w + 3)

unfoldable pub block_bytes : Block → ℕ → ℕ
block_bytes b i =
    if i % 4 == 0
    then b (i / 4) % 2 ^ 8
    else if i % 4 == 1
    then b (i / 4) / 2 ^ 8 % 2 ^ 8
    else if i % 4 == 2
    then b (i / 4) / 2 ^ 16 % 2 ^ 8
    else b (i / 4) / 2 ^ 24 % 2 ^ 8

-- What the host has: the names in the directory of programs, the size of a file with the blocks that
-- load_file leaves in inode[], sprintf of "%s%4d ", and the bytes behind bin_dir.
pub record Host : Type 0 where
  pub dirents : List (List ℕ)
  pub load_file : List ℕ → ℕ × (ℕ → Block)
  pub sprintf_entry : List ℕ → ℕ → List ℕ
  pub behind : ℕ → ℕ

unfoldable pub starts_with : List ℕ → List ℕ → Bool
starts_with [] cs = true
starts_with (p ∷ ps) [] = false
starts_with (p ∷ ps) (c ∷ cs) = (p == c) && starts_with ps cs

-- strstr(ep->d_name, ".elf")
unfoldable pub is_elf : List ℕ → Bool
unfolding starts_with
is_elf [] = false
is_elf (c ∷ cs) = starts_with (b'.' ∷ b'e' ∷ b'l' ∷ b'f' ∷ []) (c ∷ cs) || is_elf cs

-- ep->d_name[strlen(ep->d_name) - 4] = 0
unfoldable pub program_name : List ℕ → List ℕ
program_name d_name = take (length d_name - 4) d_name

-- strncpy into inode[], which pads with NULs, and the write of its first block.
unfoldable pub write_dir : {S : Type 0} → InodeStore S → ℕ → Option S → Option S
write_dir filesys ino o = o >>= λ s. filesys.write s ino 0 (block_of (char_at (contents ino)))

unfoldable pub write_dirs : {S : Type 0} → InodeStore S → S → Option S
write_dirs filesys s = for_range bin_dir_inode 0 (write_dir filesys) (some s)

-- The variables of the loop over the programs.
pub record Making (S : Type 0) : Type 0 where
  pub disk : Option S
  pub app_ino : ℕ
  pub bin_dir : List ℕ

-- One name of the host's directory.
unfoldable pub write_program : {S : Type 0} → InodeStore S → Host → List ℕ → Making S → Making S
write_program {S} filesys host d_name m =
    let (file_size, inode) = host.load_file d_name in
    let made : Making S = record {
      disk = m.disk >>= write_binary filesys m.app_ino inode file_size;
      app_ino = m.app_ino + 1;
      bin_dir = m.bin_dir ++ host.sprintf_entry (program_name d_name) m.app_ino;
    } in
    if is_elf d_name then made else m

unfoldable pub write_programs :
    {S : Type 0} → InodeStore S → Host → List (List ℕ) → Making S → Making S
write_programs filesys host [] m = m
write_programs filesys host (d ∷ ds) m =
    write_programs filesys host ds (write_program filesys host d m)

-- The block written from bin_dir, whose array is half as long.
unfoldable pub bin_block : Host → List ℕ → Block
bin_block host bin_dir =
    block_of (λ i. if ltb i bin_dir_size then char_at bin_dir i else host.behind (i - bin_dir_size))

-- The part of main that fills the file system. A directory that does not fit into bin_dir is written past
-- its end by strcat: that is `none`, as is a write that fails.
unfoldable pub write_image : {S : Type 0} → InodeStore S → Host → S → Option S
write_image filesys host s =
    let m =
      write_programs filesys host host.dirents (record {
        disk = write_dirs filesys s;
        app_ino = bin_dir_inode + 1;
        bin_dir = bin_start;
      }) in
    if ltb (length m.bin_dir) bin_dir_size
    then (m.disk >>= λ s'. filesys.write s' bin_dir_inode 0 (bin_block host m.bin_dir))
    else none

-- NINODES
abbrev pub ninodes : ℕ
ninodes = 128

-- fs[] at the start
abbrev pub empty_fs : Disk
empty_fs b = null_block

-- The file system, when it could be made.
unfoldable pub image_on : {A : Type 0} → Host → Out Disk A → Option Disk
image_on host (ret a fs) = write_image (treedisk_init ramdisk 0) host fs
image_on host (failed fs) = none
image_on host (panicked fs) = none

-- main up to the image files. `junk` is what the stack holds where treedisk_create makes its blocks.
unfoldable pub make_image : Block → Host → Option Disk
make_image junk host = image_on host (treedisk_create ramdisk 0 junk ninodes empty_fs)
