-- ===== src/Servers/Directory/Fixed.antt =====
-- The entries that tools/mkfs.c writes into directories itself, and the root directory.
use egos_upstream.Base.{
  ℕ, ◌^◌, ◌<◌, ◌≡◌, refl, ap, true, false, some, List, [], ◌∷◌, ◌++◌, arith, length, for_range,
}
use egos_upstream.Fs.System.{Files, or_null, file_write}
use egos_upstream.Fs.Mkfs.Image.{contents, bin_start, bin_dir_inode, block_of, block_bytes, Host}
use egos_upstream.Fs.Mkfs.Made.{with_dirs, image_files}
use egos_upstream.User.Shell.Batch.{char_at}
use egos_upstream.Servers.Directory.{Text, dir_lookup}
use egos_upstream.Servers.Directory.Entries.{
  Entry, is_digit, spaces, entries_text, number_of, IsEntry, AreEntries, same, lookup, Spells,
}
use egos_upstream.Servers.Directory.Lookup.{dir_lookup-lookup}
use egos_upstream.Servers.Directory.Bytes.{
  AreSet-entries, Spells-block_of, all_below, char_at-lt, are_plain, are_plain-IsPlain,
}
use egos_upstream.Servers.Directory.Placed.{with_programs-below}

-- The entries of a directory of programs for itself and for the root.
abbrev pub dots : List Entry
dots =
    record { name = b'.' ∷ b'/' ∷ []; blanks = 3; number = b'6' ∷ [] }
    ∷ record { name = b'.' ∷ b'.' ∷ b'/' ∷ []; blanks = 3; number = b'0' ∷ [] }
    ∷ []

-- The root directory.
abbrev root_entries : List Entry
root_entries =
    record { name = b'.' ∷ b'/' ∷ []; blanks = 3; number = b'0' ∷ [] }
    ∷ record { name = b'.' ∷ b'.' ∷ b'/' ∷ []; blanks = 3; number = b'0' ∷ [] }
    ∷ record { name = b'h' ∷ b'o' ∷ b'm' ∷ b'e' ∷ b'/' ∷ []; blanks = 3; number = b'1' ∷ [] }
    ∷ record { name = b'b' ∷ b'i' ∷ b'n' ∷ b'/' ∷ []; blanks = 3; number = b'6' ∷ [] }
    ∷ []

pub bin_start-dots : (es : List Entry) → bin_start ++ entries_text es ≡ entries_text (dots ++ es)
unfolding entries_text spaces
bin_start-dots es = refl

root_text-entries : contents 0 ≡ entries_text root_entries
unfolding contents entries_text spaces
root_text-entries = refl

fixed-IsEntry :
    (c : ℕ) (cs : List ℕ) (d : ℕ)
    → is_digit c ≡ false
    → are_plain (c ∷ cs) ≡ true
    → is_digit d ≡ true
    → IsEntry (record { name = c ∷ cs; blanks = 3; number = d ∷ [] })
fixed-IsEntry c cs d not_digit plain is = record {
  named = (not_digit, are_plain-IsPlain (c ∷ cs) plain);
  parted = omega arith;
  counted = omega arith;
  numbered = (is, tt);
}

pub dots-AreEntries : (es : List Entry) → AreEntries es → AreEntries (dots ++ es)
unfolding are_plain
dots-AreEntries es are =
    (fixed-IsEntry _ _ _ refl refl refl, (fixed-IsEntry _ _ _ refl refl refl, are))

root-AreEntries : AreEntries root_entries
unfolding are_plain
root-AreEntries = (
  fixed-IsEntry _ _ _ refl refl refl,
  (
    fixed-IsEntry _ _ _ refl refl refl,
    (fixed-IsEntry _ _ _ refl refl refl, (fixed-IsEntry _ _ _ refl refl refl, tt)),
  ),
)

root-bytes : all_below (2 ^ 8) (entries_text root_entries) ≡ true
unfolding all_below entries_text spaces
root-bytes = refl

-- A directory as file_read gives it.
abbrev pub directory_of : Files → ℕ → ℕ → Text
directory_of files ino offset = block_bytes (or_null (files ino offset))

image_files-root :
    (host : Host) (files : Files)
    → image_files host files 0 0 ≡ some (block_of (char_at (contents 0)))
unfolding image_files file_write with_dirs for_range
image_files-root host files =
    with_programs-below host host.dirents 7 (with_dirs files) 0 0 (omega arith)

length-root : length (entries_text root_entries) ≡ 34
unfolding entries_text spaces
length-root = refl

-- The root directory of the image leads to the directory of programs.
pub image-bin :
    (host : Host) (files : Files)
    → dir_lookup (directory_of (image_files host files)) 0 (b'b' ∷ b'i' ∷ b'n' ∷ b'/' ∷ [])
      ≡ some bin_dir_inode
unfolding lookup same number_of are_plain all_below or_null
image-bin host files =
    let text = root_text-entries in
    let set = AreSet-entries root_entries root-AreEntries in
    let byte : (i : ℕ) → char_at (contents 0) i < 2 ^ 8 =
      rw text (char_at-lt (entries_text root_entries) (2 ^ 8) (omega arith) root-bytes) in
    let spells : Spells (block_bytes (block_of (char_at (contents 0)))) 0
        (entries_text root_entries) =
      Spells-block_of (char_at (contents 0)) (entries_text root_entries) set byte
        (λ i le. ap (λ t. char_at t i) text) in
    dir_lookup-lookup (directory_of (image_files host files)) 0 (b'b' ∷ b'i' ∷ b'n' ∷ b'/' ∷ [])
      root_entries (refl, are_plain-IsPlain (b'b' ∷ b'i' ∷ b'n' ∷ b'/' ∷ []) refl) root-AreEntries
      (rw (image_files-root host files) spells) (rw length-root (omega arith))
      (rw length-root (omega arith))
