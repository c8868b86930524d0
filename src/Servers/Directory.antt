-- ===== src/Servers/Directory.antt =====
-- `dir_lookup` of library/syscall/servers.c, which finds a name in the text of a directory.
pub mod Entries
pub mod Clear
pub mod Lookup
pub mod Bytes
pub mod Placed
pub mod Fixed
pub mod Image
mod Tests
use egos_upstream.Base.{
  ℕ, zero, suc, ◌+◌, ◌-◌, ◌*◌, ◌%◌, ◌^◌, Bool, true, ◌&&◌, ◌||◌, Option, none, some, List, [], ◌∷◌,
  leb, ◌==◌, if◌then◌else◌, length, find_from,
}

-- A block of characters.
abbrev pub Text : Type 0
Text = ℕ → ℕ

abbrev pub text_size : ℕ
text_size = 512

-- strlen: the first NUL. A block without one is read on past its end; that is `none`.
abbrev pub strlen : Text → Option ℕ
strlen buf = find_from text_size 0 (λ i. buf i == 0)

-- !strncmp(name, buf + i, strlen(name))
unfoldable pub matches : List ℕ → Text → ℕ → Bool
matches [] buf i = true
matches (c ∷ cs) buf i = let rest = matches cs buf (i + 1) in (buf i == c) && rest

-- The test of the loop.
unfoldable pub entry_at : List ℕ → Text → ℕ → Bool
unfolding matches
entry_at name buf i =
    matches name buf i && ((buf (i + length name) == b' ') && ((i == 0) || (buf (i - 1) == b' ')))

-- atoi, on the text from `i` on: blanks, a sign, then digits. It stops at the NUL, so the size of the
-- text is fuel enough; a number that no int holds is not defined in C.
unfoldable pub digits : ℕ → Text → ℕ → ℕ → ℕ
digits zero buf i n = n
digits (suc fuel) buf i n =
    let rest = digits fuel buf (i + 1) (10 * n + (buf i - b'0')) in
    if leb b'0' (buf i) && leb (buf i) b'9' then rest else n

abbrev pub is_blank : ℕ → Bool
is_blank c = (c == b' ') || (leb 0x09 c && leb c 0x0d)

unfoldable pub atoi : ℕ → Text → ℕ → ℕ
unfolding digits
atoi zero buf i = 0
atoi (suc fuel) buf i =
    let rest = atoi fuel buf (i + 1) in
    if is_blank (buf i)
    then rest
    else if buf i == b'-'
    then (2 ^ 32 - digits fuel buf (i + 1) 0 % 2 ^ 32) % 2 ^ 32
    else if buf i == b'+'
    then digits fuel buf (i + 1) 0
    else digits fuel buf i 0

-- The loop runs to strlen(buf) - strlen(name), as a uint. -1 is 2 ^ 32 - 1.
unfoldable pub dir_lookup : (ℕ → ℕ → Text) → ℕ → List ℕ → Option ℕ
unfolding entry_at atoi
dir_lookup file_read dir_ino name =
    let buf = file_read dir_ino 0 in
    elim (strlen buf) [
      | none ↦ none
      | some len ↦ elim (find_from ((len + 2 ^ 32 - length name) % 2 ^ 32) 0 (entry_at name buf)) [
        | none ↦ some (2 ^ 32 - 1)
        | some i ↦ some (atoi text_size buf (i + length name))
      ]
    ]
