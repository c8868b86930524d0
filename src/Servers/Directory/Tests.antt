-- ===== src/Servers/Directory/Tests.antt =====
-- A concrete run of tools/mkfs.c, and of the lookup of its program.
use egos_upstream.Base.{
  ltb, ◌<◌, ◌≤◌, ◌/◌, ◌%◌, inr, Bool-cases, ℕ, ◌+◌, ◌^◌, ◌≡◌, refl, inl, true, some, List, [], ◌∷◌,
  ◌++◌, arith, if◌then◌else◌, length,
}
use egos_upstream.Fs.Store.{null_block, Disk}
use egos_upstream.Fs.Read.Lookup.{file_block}
use egos_upstream.Servers.Directory.{dir_lookup}
use egos_upstream.Fs.Mkfs.Image.{Host, is_elf, starts_with, program_name, bin_dir_inode, make_image}
use egos_upstream.Fs.Mkfs.Made.{elfs, elf_blocks, programs_text, bin_text}
use egos_upstream.User.Shell.Batch.{take}
use egos_upstream.Servers.Directory.Entries.{AreDigits, spaces, number_of, same, lookup}
use egos_upstream.Servers.Directory.Bytes.{all_below, char_at-lt, are_plain, are_plain-IsPlain}
use egos_upstream.Servers.Directory.Placed.{PrintsEntries, Listed, here, behind_other}
use egos_upstream.Servers.Directory.Fixed.{directory_of}
use egos_upstream.Servers.Directory.Image.{make_image-found}

-- A host with one program, of one block.
abbrev dots_name : List ℕ
dots_name = b'.' ∷ b'.' ∷ []

abbrev a_elf : List ℕ
a_elf = b'a' ∷ b'.' ∷ b'e' ∷ b'l' ∷ b'f' ∷ []

abbrev blanks_for : ℕ → ℕ
blanks_for ino = if ltb ino 10 then 3 else if ltb ino 100 then 2 else 1

abbrev digits_for : ℕ → List ℕ
digits_for ino =
    if ltb ino 10
    then (b'0' + ino) ∷ []
    else if ltb ino 100
    then (b'0' + ino / 10) ∷ (b'0' + ino % 10) ∷ []
    else (b'0' + ino / 100) ∷ (b'0' + ino / 10 % 10) ∷ (b'0' + ino % 10) ∷ []

abbrev host : Host
host = record {
  dirents = dots_name ∷ a_elf ∷ [];
  load_file = λ name. (500, λ b i. b + i);
  sprintf_entry = λ name ino. name ++ spaces (blanks_for ino) (digits_for ino ++ (b' ' ∷ []));
  behind = λ i. 0;
}

AreSpelled : ℕ → List ℕ → Type 0
AreSpelled ino ds = (1 ≤ length ds) × AreDigits ds × (number_of ds 0 ≡ ino)

digits_for-AreSpelled : (ino : ℕ) → ino < 1000 → AreSpelled ino (digits_for ino)
unfolding AreSpelled number_of
digits_for-AreSpelled ino lt = elim (Bool-cases (ltb ino 10)) [
  | inl one ↦ rw one (omega arith, (ground arith, tt), omega arith)
  | inr more ↦ elim (Bool-cases (ltb ino 100)) [
    | inl two ↦ rw (more, two) (omega arith, (ground arith, (ground arith, tt)), ground arith)
    | inr three ↦
        rw (more, three)
          (omega arith, (ground arith, (ground arith, (ground arith, tt))), ground arith)
  ]
]

host-PrintsEntries : PrintsEntries host.sprintf_entry
unfolding AreSpelled
host-PrintsEntries = record {
  blanks = blanks_for;
  decimal = digits_for;
  prints = λ name ino lt. refl;
  padded = λ ino lt. ground arith;
  counted = λ ino lt. (digits_for-AreSpelled ino lt).0;
  numbered = λ ino lt. (digits_for-AreSpelled ino lt).1;
  spelled = λ ino lt. (digits_for-AreSpelled ino lt).2;
}

a-Listed : Listed host.dirents 7 a_elf 7
unfolding is_elf starts_with
a-Listed = behind_other refl (here refl)

a_text : all_below (2 ^ 8) (bin_text host) ≡ true
unfolding all_below programs_text is_elf starts_with program_name take spaces
a_text = refl

a_short : length (bin_text host) ≡ 21
unfolding programs_text is_elf starts_with program_name take spaces
a_short = refl

make_image-found_example :
    (fs : Disk) × (make_image null_block host ≡ some fs)
    × (dir_lookup (directory_of (file_block fs)) 0 (b'b' ∷ b'i' ∷ b'n' ∷ b'/' ∷ [])
        ≡ some bin_dir_inode)
    × (dir_lookup (directory_of (file_block fs)) bin_dir_inode (program_name a_elf) ≡ some 7)
    × (file_block fs 7 0 ≡ some ((host.load_file a_elf).1 0))
unfolding elfs elf_blocks is_elf starts_with program_name take are_plain lookup same
make_image-found_example =
    make_image-found null_block host host-PrintsEntries a_elf 7 0 (λ d. omega arith) (omega arith)
      (omega arith) (inl refl, (inr (refl, are_plain-IsPlain (b'a' ∷ []) refl), tt))
      (rw a_short (omega arith)) (char_at-lt (bin_text host) (2 ^ 8) (omega arith) a_text)
      (λ i. omega arith) a-Listed (refl, are_plain-IsPlain (b'a' ∷ []) refl) refl (omega arith)
