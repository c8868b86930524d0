-- ===== src/Servers/Directory/Placed.antt =====
-- The entries that tools/mkfs.c makes for the programs of the host.
use egos_upstream.Base.{
  ℕ, zero, suc, ◌+◌, ◌≤◌, ◌<◌, ◌≡◌, refl, ap, ◌∙◌, ◌⊎◌, inl, inr, true, false, some, List, [], ◌∷◌,
  ◌++◌, arith, ltb_of_lt, if◌then◌else◌, ==_self, ==_false, Bool-cases, length, length-append,
}
use mathlib.Core.List.{append_assoc}
use egos_upstream.Fs.System.{Files}
use egos_upstream.Fs.Mkfs.{blocks_of, with_blocks}
use egos_upstream.Fs.Mkfs.Image.{Host, is_elf, program_name}
use egos_upstream.Fs.Mkfs.Made.{elfs, programs_text, with_programs}
use egos_upstream.Servers.Directory.Entries.{
  Entry, spaces, tail_text, entries_text, IsName, AreDigits, number_of, AreEntries, same, same_self,
  lookup,
}
use egos_upstream.Servers.Directory.Clear.{length-tail}

-- What sprintf makes of "%s%4d ", for numbers below 1000: the name, blanks up to four places, the
-- digits of the number, and a blank.
pub record PrintsEntries (sprintf_entry : List ℕ → ℕ → List ℕ) : Type 0 where
  pub blanks : ℕ → ℕ
  pub decimal : ℕ → List ℕ
  pub prints :
      (name : List ℕ) (ino : ℕ)
      → ino < 1000
      → sprintf_entry name ino ≡ name ++ spaces (blanks ino) (decimal ino ++ (b' ' ∷ []))
  pub padded : (ino : ℕ) → ino < 1000 → 1 ≤ blanks ino
  pub counted : (ino : ℕ) → ino < 1000 → 1 ≤ length (decimal ino)
  pub numbered : (ino : ℕ) → ino < 1000 → AreDigits (decimal ino)
  pub spelled : (ino : ℕ) → ino < 1000 → number_of (decimal ino) 0 ≡ ino

-- The names of programs are names.
abbrev pub AreNamed : List (List ℕ) → Type 0
AreNamed [] = Unit
AreNamed (d ∷ ds) = ((is_elf d ≡ false) ⊎ IsName (program_name d)) × AreNamed ds

-- A program with the inode number that it gets, when the first gets number `n`. It is the first of its
-- name.
pub data Listed : List (List ℕ) → ℕ → List ℕ → ℕ → Type 0 where
  here : {d : List ℕ} {ds : List (List ℕ)} {n : ℕ} → is_elf d ≡ true → Listed (d ∷ ds) n d n
  behind_program :
      {e : List ℕ} {ds : List (List ℕ)} {n : ℕ} {d : List ℕ} {ino : ℕ}
      → is_elf e ≡ true
      → same (program_name d) (program_name e) ≡ false
      → Listed ds (n + 1) d ino
      → Listed (e ∷ ds) n d ino
  behind_other :
      {e : List ℕ} {ds : List (List ℕ)} {n : ℕ} {d : List ℕ} {ino : ℕ}
      → is_elf e ≡ false
      → Listed ds n d ino
      → Listed (e ∷ ds) n d ino

pub Listed-le : (ds : List (List ℕ)) (n : ℕ) (d : List ℕ) (ino : ℕ) → Listed ds n d ino → n ≤ ino
Listed-le [] n d ino l = elim l [ ]
Listed-le (e ∷ ds) n d ino (here elf) = omega arith
Listed-le (e ∷ ds) n d ino (behind_program elf other l) =
    omega (arith, Listed-le ds (n + 1) d ino l)
Listed-le (e ∷ ds) n d ino (behind_other skip l) = Listed-le ds n d ino l

-- Programs are placed behind inode `n`.
pub with_programs-below :
    (host : Host) (ds : List (List ℕ)) (n : ℕ) (files : Files) (i x : ℕ)
    → i < n
    → with_programs host ds n files i x ≡ files i x
unfolding with_programs with_blocks
with_programs-below host [] n files i x lt = refl
with_programs-below host (e ∷ ds) n files i x lt = elim (Bool-cases (is_elf e)) [
  | inl elf ↦
      let (file_size, inode) = host.load_file e in
      rw elf (
        with_programs-below host ds (n + 1) (with_blocks files n inode (blocks_of file_size)) i x
          (omega arith)
        ∙ rw (==_false i n (λ e. omega arith)) refl)
  | inr other ↦ rw other (with_programs-below host ds n files i x lt)
]

-- What a program's inode holds.
pub Listed-blocks :
    (host : Host) (ds : List (List ℕ)) (n : ℕ) (d : List ℕ) (ino : ℕ) (files : Files) (x : ℕ)
    → x < blocks_of (host.load_file d).0
    → Listed ds n d ino
    → with_programs host ds n files ino x ≡ some ((host.load_file d).1 x)
unfolding with_programs with_blocks
Listed-blocks host [] n d ino files x lt l = elim l [ ]
Listed-blocks host (e ∷ ds) n d ino files x lt (here elf) =
    let (file_size, inode) = host.load_file e in
    rw elf (
      with_programs-below host ds (n + 1) (with_blocks files n inode (blocks_of file_size)) n x
        (omega arith)
      ∙ rw (==_self n, ltb_of_lt _ _ lt) refl)
Listed-blocks host (e ∷ ds) n d ino files x lt (behind_program elf other l) = rw elf (
    Listed-blocks host ds (n + 1) d ino
      (with_blocks files n (host.load_file e).1 (blocks_of (host.load_file e).0)) x lt l)
Listed-blocks host (e ∷ ds) n d ino files x lt (behind_other skip l) =
    rw skip (Listed-blocks host ds n d ino files x lt l)

module _ (host : Host) (prints : PrintsEntries host.sprintf_entry) where
  -- The entry of a program.
  abbrev entry_for : List ℕ → ℕ → Entry
  entry_for name ino = record {
    name = name;
    blanks = prints.blanks ino;
    number = prints.decimal ino;
  }

  unfoldable pub placed : List (List ℕ) → ℕ → List Entry
  placed [] ino = []
  placed (d ∷ ds) ino =
      let listed = entry_for (program_name d) ino ∷ placed ds (ino + 1) in
      let rest = placed ds ino in if is_elf d then listed else rest

  spaces-append : (n : ℕ) (xs ys : List ℕ) → spaces n xs ++ ys ≡ spaces n (xs ++ ys)
  unfolding spaces
  spaces-append zero xs ys = refl
  spaces-append (suc n) xs ys = ap (λ zs. b' ' ∷ zs) (spaces-append n xs ys)

  entry-text :
      (name : List ℕ) (ino : ℕ) (rest : List ℕ)
      → ino < 1000
      → host.sprintf_entry name ino ++ rest ≡ name ++ tail_text (entry_for name ino) rest
  entry-text name ino rest lt =
      let number = prints.decimal ino in
      ap (λ t. t ++ rest) (prints.prints name ino lt)
      ∙ append_assoc name (spaces (prints.blanks ino) (number ++ (b' ' ∷ []))) rest
      ∙ ap (λ t. name ++ t)
          (spaces-append (prints.blanks ino) (number ++ (b' ' ∷ [])) rest
            ∙ ap (spaces (prints.blanks ino)) (append_assoc number (b' ' ∷ []) rest))

  pub programs_text-placed :
      (ds : List (List ℕ)) (ino : ℕ)
      → ino + elfs ds ≤ 1000
      → programs_text host ds ino ≡ entries_text (placed ds ino)
  unfolding programs_text entries_text placed elfs
  programs_text-placed [] ino few = refl
  programs_text-placed (d ∷ ds) ino few = elim (Bool-cases (is_elf d)) [
    | inl elf ↦ rw elf (
        ap (λ t. host.sprintf_entry (program_name d) ino ++ t)
          (programs_text-placed ds (ino + 1) (ground (arith, elf)))
        ∙ entry-text (program_name d) ino (entries_text (placed ds (ino + 1)))
            (ground (arith, elf)))
    | inr other ↦ rw other (programs_text-placed ds ino (ground (arith, other)))
  ]

  pub placed-AreEntries :
      (ds : List (List ℕ)) (ino : ℕ)
      → AreNamed ds
      → ino + elfs ds ≤ 1000
      → AreEntries (placed ds ino)
  unfolding placed elfs
  placed-AreEntries [] ino named few = tt
  placed-AreEntries (d ∷ ds) ino (named_d, named) few = elim (Bool-cases (is_elf d)) [
    | inl elf ↦ rw elf (
      record {
        named = elim named_d [ inl other ↦ absurd (ground (arith, elf, other)) | inr n ↦ n ];
        parted = prints.padded ino (ground (arith, elf));
        counted = prints.counted ino (ground (arith, elf));
        numbered = prints.numbered ino (ground (arith, elf));
      },
      placed-AreEntries ds (ino + 1) named (ground (arith, elf)),
    )
    | inr other ↦ rw other (placed-AreEntries ds ino named (ground (arith, other)))
  ]

  pub Listed-lookup :
      (ds : List (List ℕ)) (n : ℕ) (d : List ℕ) (ino : ℕ)
      → n + elfs ds ≤ 1000
      → Listed ds n d ino
      → lookup (program_name d) (placed ds n) ≡ some ino
  unfolding lookup placed elfs
  Listed-lookup [] n d ino few l = elim l [ ]
  Listed-lookup (e ∷ ds) n d ino few (here elf) =
      rw (elf, same_self (program_name e)) (ap some (prints.spelled n (ground (arith, elf))))
  Listed-lookup (e ∷ ds) n d ino few (behind_program elf other l) =
      rw (elf, other) (Listed-lookup ds (n + 1) d ino (ground (arith, elf)) l)
  Listed-lookup (e ∷ ds) n d ino few (behind_other skip l) =
      rw skip (Listed-lookup ds n d ino (ground (arith, skip)) l)

pub Listed-fits :
    (host : Host) (prints : PrintsEntries host.sprintf_entry) (ds : List (List ℕ)) (n : ℕ)
    (d : List ℕ) (ino : ℕ)
    → Listed ds n d ino
    → length (program_name d) ≤ length (entries_text (placed host prints ds n))
unfolding placed entries_text
Listed-fits host prints [] n d ino l = elim l [ ]
Listed-fits host prints (e ∷ ds) n d ino (here elf) = rw elf (
    omega (
      arith,
      length-append (program_name e) (
          tail_text (entry_for host prints (program_name e) n)
            (entries_text (placed host prints ds (n + 1)))),
    ))
Listed-fits host prints (e ∷ ds) n d ino (behind_program elf other l) = rw elf (
    omega (
      arith,
      length-append (program_name e) (
          tail_text (entry_for host prints (program_name e) n)
            (entries_text (placed host prints ds (n + 1)))),
      length-tail (prints.blanks n) (prints.decimal n)
          (entries_text (placed host prints ds (n + 1))),
      Listed-fits host prints ds (n + 1) d ino l,
    ))
Listed-fits host prints (e ∷ ds) n d ino (behind_other skip l) =
    rw skip (Listed-fits host prints ds n d ino l)
