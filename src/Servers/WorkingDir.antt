-- ===== src/Servers/WorkingDir.antt =====
-- The working directory, as apps/user/cd.c changes it. `workdir` is the list of its characters, the last
-- first; an argument is the list of its characters, the first first.
use egos_upstream.Base.{
  ℕ, ◌+◌, ◌-◌, ◌^◌, ◌≤◌, ◌≡◌, refl, ◌∙◌, ◌≢◌, inl, inr, true, false, Option, some, List, [], ◌∷◌,
  ◌++◌, arith, ltb, ◌==◌, if◌then◌else◌, ==_false, Bool-cases, ◌>>=◌, length,
}
use egos_upstream.Mem.Frames.{Contents}
use egos_upstream.Servers.Directory.{dir_lookup}
use egos_upstream.Servers.Shell.{same_string}

pub record WorkDir : Type 0 where
  pub workdir_ino : ℕ
  pub workdir : List ℕ

-- argv[1][strlen(argv[1]) - 1]
unfoldable pub last_char : List ℕ → ℕ
last_char [] = 0
last_char (c ∷ []) = c
last_char (c ∷ d ∷ cs) = last_char (d ∷ cs)

abbrev pub with_slash : List ℕ → List ℕ
with_slash name = if last_char name == b'/' then name else name ++ (b'/' ∷ [])

-- while (workdir[len] != '/') workdir[len--] = 0. A path without a / would be read before its start.
unfoldable pub erase_name : List ℕ → List ℕ
erase_name [] = []
erase_name (c ∷ path) = let rest = erase_name path in if c == b'/' then c ∷ path else rest

-- The / goes too, unless it is the first character.
unfoldable pub leave_dir : List ℕ → List ℕ
unfolding erase_name
leave_dir path = elim (erase_name path) [
  | [] ↦ []
  | c ∷ rest ↦ if length rest == 0 then c ∷ rest else rest
]

-- strncat(workdir, name, strlen(name) - 1)
unfoldable pub append_dir : List ℕ → List ℕ → List ℕ
append_dir [] path = path
append_dir (c ∷ []) path = path
append_dir (c ∷ d ∷ cs) path = append_dir (d ∷ cs) (c ∷ path)

abbrev pub enter_dir : List ℕ → List ℕ → List ℕ
enter_dir name path = append_dir name (if ltb 1 (length path) then b'/' ∷ path else path)

unfoldable pub path_for : List ℕ → List ℕ → List ℕ
unfolding leave_dir append_dir
path_for name path =
    if same_string (b'.' ∷ b'/' ∷ []) name
    then path
    else if same_string (b'.' ∷ b'.' ∷ b'/' ∷ []) name
    then leave_dir path
    else enter_dir name path

-- With one argument; the result is 0 or -1.
unfoldable pub cd : (ℕ → ℕ → Contents) → List ℕ → WorkDir → Option (ℕ × WorkDir)
unfolding last_char path_for
cd file_read argument s = do
  let name = with_slash argument
  dir_ino ← dir_lookup file_read s.workdir_ino name
  if dir_ino == 2 ^ 32 - 1
      then some (2 ^ 32 - 1, s)
      else some (0, record { workdir_ino = dir_ino; workdir = path_for name s.workdir })

-- Without arguments: home.
abbrev pub home_path : List ℕ
home_path = b'0' ∷ b'4' ∷ b'6' ∷ b'6' ∷ b's' ∷ b'c' ∷ b'/' ∷ b'e' ∷ b'm' ∷ b'o' ∷ b'h' ∷ b'/' ∷ []

unfoldable pub cd_home : (ℕ → ℕ → Contents) → Option (ℕ × WorkDir)
cd_home file_read = do
  home_ino ← dir_lookup file_read 0 (b'h' ∷ b'o' ∷ b'm' ∷ b'e' ∷ b'/' ∷ [])
  workdir_ino ← dir_lookup file_read home_ino (b'c' ∷ b's' ∷ b'6' ∷ b'6' ∷ b'4' ∷ b'0' ∷ b'/' ∷ [])
  some (0, record { workdir_ino = workdir_ino; workdir = home_path })

-- A path as the names of directories, the last first.
abbrev pub HasNoSlash : List ℕ → Type 0
HasNoSlash [] = Unit
HasNoSlash (c ∷ cs) = (c ≢ b'/') × HasNoSlash cs

abbrev pub AreNames : List (List ℕ) → Type 0
AreNames [] = Unit
AreNames (name ∷ names) = (1 ≤ length name) × HasNoSlash name × AreNames names

unfoldable pub push_all : List ℕ → List ℕ → List ℕ
push_all [] path = path
push_all (c ∷ cs) path = push_all cs (c ∷ path)

unfoldable pub below_root : List (List ℕ) → List ℕ
below_root [] = []
below_root (name ∷ names) = push_all name (b'/' ∷ below_root names)

unfoldable pub spelled : List (List ℕ) → List ℕ
spelled [] = b'/' ∷ []
spelled (name ∷ names) = below_root (name ∷ names)

abbrev pub parent : List (List ℕ) → List (List ℕ)
parent [] = []
parent (name ∷ names) = names

-- Where a name leads.
abbrev pub moved : List ℕ → List (List ℕ) → List (List ℕ)
moved name names =
    if same_string (b'.' ∷ b'/' ∷ []) (name ++ (b'/' ∷ []))
    then names
    else if same_string (b'.' ∷ b'.' ∷ b'/' ∷ []) (name ++ (b'/' ∷ []))
    then parent names
    else name ∷ names

erase_name-push_all :
    (name path : List ℕ) → HasNoSlash name → erase_name (push_all name path) ≡ erase_name path
unfolding push_all erase_name
erase_name-push_all [] path h = refl
erase_name-push_all (c ∷ cs) path h =
    erase_name-push_all cs (c ∷ path) h.1 ∙ rw (==_false c b'/' h.0) refl

length-push_all : (name path : List ℕ) → length (push_all name path) ≡ length name + length path
unfolding push_all
length-push_all [] path = omega arith
length-push_all (c ∷ cs) path = omega (arith, length-push_all cs (c ∷ path))

append_dir-push_all :
    (name path : List ℕ) → append_dir (name ++ (b'/' ∷ [])) path ≡ push_all name path
unfolding append_dir push_all
append_dir-push_all [] path = refl
append_dir-push_all (c ∷ []) path = refl
append_dir-push_all (c ∷ d ∷ cs) path = append_dir-push_all (d ∷ cs) (c ∷ path)

last_char_lem : (name : List ℕ) → HasNoSlash name → (last_char name == b'/') ≡ false
unfolding last_char
last_char_lem [] h = refl
last_char_lem (c ∷ []) h = ==_false c b'/' h.0
last_char_lem (c ∷ d ∷ cs) h = last_char_lem (d ∷ cs) h.1

leave_dir-spelled :
    (names : List (List ℕ)) → AreNames names → leave_dir (spelled names) ≡ spelled (parent names)
unfolding leave_dir spelled erase_name below_root
leave_dir-spelled [] h = refl
leave_dir-spelled (name ∷ []) h = rw (leave_dir, erase_name-push_all name (b'/' ∷ []) h.1) refl
leave_dir-spelled (name ∷ next ∷ names) h =
    rw (leave_dir, erase_name-push_all name (b'/' ∷ push_all next (b'/' ∷ below_root names)) h.1)
      (rw (length-push_all next (b'/' ∷ below_root names)) (ground arith))

enter_dir-spelled :
    (name : List ℕ) (names : List (List ℕ))
    → AreNames names
    → enter_dir (name ++ (b'/' ∷ [])) (spelled names) ≡ spelled (name ∷ names)
unfolding spelled below_root
enter_dir-spelled name [] h = append_dir-push_all name (b'/' ∷ [])
enter_dir-spelled name (next ∷ names) h =
    let long : ltb 1 (length (push_all next (b'/' ∷ below_root names))) ≡ true =
      rw (length-push_all next (b'/' ∷ below_root names)) (ground arith) in
    rw long (append_dir-push_all name (b'/' ∷ push_all next (b'/' ∷ below_root names)))

path_for-spelled :
    (name : List ℕ) (names : List (List ℕ))
    → AreNames names
    → path_for (name ++ (b'/' ∷ [])) (spelled names) ≡ spelled (moved name names)
unfolding path_for
path_for-spelled name names valid =
    let full = name ++ (b'/' ∷ []) in
    elim (Bool-cases (same_string (b'.' ∷ b'/' ∷ []) full)) [
      | inl here ↦ rw here refl
      | inr away ↦ elim (Bool-cases (same_string (b'.' ∷ b'.' ∷ b'/' ∷ []) full)) [
        | inl up ↦ rw (away, up) (leave_dir-spelled names valid)
        | inr down ↦ rw (away, down) (enter_dir-spelled name names valid)
      ]
    ]

-- When the directory is found, `cd` to a name with no / in it goes there, and the working directory
-- is spelled as the path that the name leads to: the same for ., without the last name for .., and
-- otherwise with the name after it. When it is not found, -1 is returned and nothing changes.
pub cd-moved :
    (file_read : ℕ → ℕ → Contents) (name : List ℕ) (names : List (List ℕ)) (s : WorkDir)
    (dir_ino : ℕ)
    → AreNames names
    → HasNoSlash name
    → s.workdir ≡ spelled names
    → dir_lookup file_read s.workdir_ino (name ++ (b'/' ∷ [])) ≡ some dir_ino
    → cd file_read name s
      ≡ some (
          if dir_ino == 2 ^ 32 - 1
          then (2 ^ 32 - 1, s)
          else (0, record { workdir_ino = dir_ino; workdir = spelled (moved name names) }))
unfolding cd
cd-moved file_read name names s dir_ino valid plain at found =
    rw (last_char_lem name plain, found, at, path_for-spelled name names valid)
      (elim (Bool-cases (dir_ino == 2 ^ 32 - 1)) [
        | inl missing ↦ rw missing refl
        | inr there ↦ rw there refl
      ])
