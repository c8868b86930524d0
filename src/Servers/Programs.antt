-- ===== src/Servers/Programs.antt =====
-- The programs apps/user/ls.c, apps/user/cat.c and apps/user/echo.c. A run comes to the result of main and
-- the text of its calls of printf; the messages of INFO are
-- left out. A text that overruns the buffer of printf is `none`. One that fits is below the limit that the
-- terminal puts on a request.
use egos_upstream.Base.{
  ℕ, zero, suc, ◌+◌, ◌-◌, ◌^◌, ◌≤◌, ◌<◌, ◌≡◌, refl, ap, ◌∙◌, inl, inr, Bool, true, false, ◌&&◌,
  Option, none, some, List, [], ◌∷◌, ◌++◌, arith, ltb, leb, ◌==◌, if◌then◌else◌, Bool-cases, ◌>>=◌,
  update, update_self, for_range, length,
}
use egos_upstream.User.Print.{Platform, chars, format_directive, format_loop, format_to_str}
use mathlib.Core.List.{append_assoc, append-nil}
use egos_upstream.User.Print.Log.{buf_size, my_printf, log}
use egos_upstream.Servers.Directory.{Text, strlen, dir_lookup}

abbrev pub new_line : List ℕ
new_line = 0x0a ∷ 0x0d ∷ []

-- The characters of a block from `i` on.
unfoldable pub chars_from : ℕ → Text → ℕ → List ℕ
chars_from zero buf i = []
chars_from (suc n) buf i = buf i ∷ chars_from n buf (i + 1)

-- One round of the loop that removes the inode numbers.
unfoldable pub erase_at : ℕ → Text → Text
erase_at i buf =
    if (buf (i - 1) == b' ') && (leb b'0' (buf i) && leb (buf i) b'9')
    then update buf i b' '
    else buf

-- The loop puts no NUL into the text, so that its length is the same in each round.
unfoldable pub erase_inodes : ℕ → Text → Text
unfolding erase_at
erase_inodes len buf = for_range (len - 1) 1 erase_at buf

module _ (p : Platform) where
  unfoldable pub ls : (ℕ → ℕ → Text) → ℕ → ℕ → Option (ℕ × List ℕ)
  unfolding erase_inodes chars_from my_printf
  ls file_read workdir_ino argc =
      let listing = (do
        len ← strlen (file_read workdir_ino 0)
        let erased = erase_inodes len (file_read workdir_ino 0)
        text ← my_printf p (b'%' ∷ b's' ∷ new_line) (chars (chars_from len erased 0) ∷ [])
        some (0, text)) in
      if ltb 1 argc then some (2 ^ 32 - 1, []) else listing

  -- The first block of a file and, unless it ends a line, the end of one. The source looks at the
  -- character before the block when the block is empty: that is `none`.
  unfoldable pub print_block : Text → Option (ℕ × List ℕ)
  unfolding chars_from my_printf
  print_block buf = do
    len ← strlen buf
    text ← my_printf p (b'%' ∷ b's' ∷ []) (chars (chars_from len buf 0) ∷ [])
    end ← my_printf p new_line []
    if len == 0 then none else some (0, text ++ (if buf (len - 1) == 0x0a then [] else end))

  unfoldable pub cat : (ℕ → ℕ → Text) → ℕ → ℕ → List ℕ → Option (ℕ × List ℕ)
  unfolding dir_lookup print_block
  cat file_read workdir_ino argc name =
      let found = (do
        file_ino ← dir_lookup file_read workdir_ino name
        if leb (2 ^ 31) file_ino
            then some (2 ^ 32 - 1, [])
            else print_block (file_read file_ino 0)) in
      if argc == 2 then found else some (2 ^ 32 - 1, [])

  -- The arguments behind the name of the program.
  unfoldable pub echo_args : List (List ℕ) → Option (List ℕ)
  unfolding my_printf
  echo_args [] = my_printf p new_line []
  echo_args (arg ∷ args) = do
    text ← my_printf p (b'%' ∷ b's' ∷ b' ' ∷ []) (chars arg ∷ [])
    rest ← echo_args args
    some (text ++ rest)

  unfoldable pub echo : List (List ℕ) → Option (List ℕ)
  unfolding echo_args
  echo [] = my_printf p new_line []
  echo (name ∷ args) = echo_args args

-- What ls leaves of a text, after a blank or not: a digit behind a blank, or behind a digit that it
-- has erased, becomes a blank.
unfoldable pub without_numbers : Bool → List ℕ → List ℕ
without_numbers blank [] = []
without_numbers blank (c ∷ cs) =
    let erased = b' ' ∷ without_numbers true cs in
    let kept = c ∷ without_numbers (c == b' ') cs in
    if blank && (leb b'0' c && leb c b'9') then erased else kept

-- A change below `i` does not show from there on.
chars_from-ext :
    (n : ℕ) (buf buf' : Text) (i : ℕ)
    → ((k : ℕ) → i ≤ k → buf k ≡ buf' k)
    → chars_from n buf i ≡ chars_from n buf' i
unfolding chars_from
chars_from-ext zero buf buf' i e = refl
chars_from-ext (suc n) buf buf' i e =
    ap (λ c. c ∷ chars_from n buf (i + 1)) (e i (omega arith))
    ∙ ap (λ cs. buf' i ∷ cs) (chars_from-ext n buf buf' (i + 1) (λ k lo. e k (omega arith)))

-- A character behind the rounds' indices stays.
erase_rounds-below : (n i : ℕ) (buf : Text) (k : ℕ) → k < i → for_range n i erase_at buf k ≡ buf k
unfolding for_range erase_at
erase_rounds-below zero i buf k lt = refl
erase_rounds-below (suc n) i buf k lt =
    erase_rounds-below n (i + 1) (erase_at i buf) k (omega arith) ∙ ground arith

erase_at-above : (i : ℕ) (buf : Text) (k : ℕ) → i + 1 ≤ k → erase_at i buf k ≡ buf k
unfolding erase_at
erase_at-above i buf k lt = ground arith

erase_at-digit :
    (i : ℕ) (buf : Text)
    → ((buf (i - 1) == b' ') && (leb b'0' (buf i) && leb (buf i) b'9')) ≡ true
    → erase_at i buf i ≡ b' '
unfolding erase_at
erase_at-digit i buf digit = rw digit (update_self buf i b' ')

erase_at-other :
    (i : ℕ) (buf : Text)
    → ((buf (i - 1) == b' ') && (leb b'0' (buf i) && leb (buf i) b'9')) ≡ false
    → erase_at i buf i ≡ buf i
unfolding erase_at
erase_at-other i buf other = rw other refl

erase_rounds :
    (n i : ℕ) (buf : Text)
    → 1 ≤ i
    → chars_from n (for_range n i erase_at buf) i
      ≡ without_numbers (buf (i - 1) == b' ') (chars_from n buf i)
unfolding for_range chars_from without_numbers
erase_rounds zero i buf above = refl
erase_rounds (suc n) i buf above =
    let next = erase_at i buf in
    let back : i + 1 - 1 ≡ i = omega arith in
    let head : for_range n (i + 1) erase_at next i ≡ next i =
      erase_rounds-below n (i + 1) next i (omega arith) in
    let later : chars_from n (for_range n (i + 1) erase_at next) (i + 1)
        ≡ without_numbers (next i == b' ') (chars_from n buf (i + 1)) =
      erase_rounds n (i + 1) next (omega arith)
      ∙ ap (λ k. without_numbers (next k == b' ') (chars_from n next (i + 1))) back
      ∙ ap (without_numbers (next i == b' '))
          (chars_from-ext n next buf (i + 1) (λ k lo. erase_at-above i buf k lo)) in
    ap (λ c. c ∷ chars_from n (for_range n (i + 1) erase_at next) (i + 1)) head
    ∙ ap (λ cs. next i ∷ cs) later
    ∙ elim (Bool-cases ((buf (i - 1) == b' ') && (leb b'0' (buf i) && leb (buf i) b'9'))) [
      | inl digit ↦ let now : next i ≡ b' ' = erase_at-digit i buf digit in rw (digit, now) refl
      | inr other ↦ let now : next i ≡ buf i = erase_at-other i buf other in rw (other, now) refl
    ]

erase_all :
    (len : ℕ) (buf : Text)
    → chars_from (suc len) (erase_inodes (suc len) buf) 0
      ≡ buf 0 ∷ without_numbers (buf 0 == b' ') (chars_from len buf 1)
unfolding erase_inodes chars_from
erase_all len buf =
    let rounds : suc len - 1 ≡ len = omega arith in
    rw rounds (
      ap (λ c. c ∷ chars_from len (for_range len 1 erase_at buf) 1)
        (erase_rounds-below len 1 buf 0 (omega arith))
      ∙ ap (λ cs. buf 0 ∷ cs) (erase_rounds len 1 buf (omega arith)))

length-chars_from :
    (n : ℕ) (buf : Text) (i : ℕ) (rest : List ℕ)
    → length (chars_from n buf i ++ rest) ≡ n + length rest
unfolding chars_from
length-chars_from zero buf i rest = omega arith
length-chars_from (suc n) buf i rest = ground (arith, length-chars_from n buf (i + 1) rest)

-- Printing a string at the end of a line.
printf-line :
    (p : Platform) (s : List ℕ)
    → my_printf p (b'%' ∷ b's' ∷ new_line) (chars s ∷ [])
      ≡ (if ltb (length (s ++ new_line)) buf_size then some (s ++ new_line) else none)
unfolding my_printf log format_to_str format_loop format_directive
printf-line p s =
    ap (λ line. if ltb (length line) buf_size then some line else none)
      (append-nil ((s ++ (0x0a ∷ [])) ++ (0x0d ∷ [])) ∙ append_assoc s (0x0a ∷ []) (0x0d ∷ []))

-- ls prints the text of the working directory, after its first character, with each digit made a blank
-- that stands behind a blank or behind such a digit: the inode numbers, and digits that a name starts
-- with. A text that does not fit into the buffer of printf with the end of the line is written past it.
pub ls_lem :
    (p : Platform) (file_read : ℕ → ℕ → Text) (workdir_ino len : ℕ)
    → strlen (file_read workdir_ino 0) ≡ some (suc len)
    → let buf = file_read workdir_ino 0 in
      ls p file_read workdir_ino 1 ≡ (
        if ltb (suc len + 2) buf_size
        then some (0, (buf 0 ∷ without_numbers (buf 0 == b' ') (chars_from len buf 1)) ++ new_line)
        else none)
unfolding ls
ls_lem p file_read workdir_ino len e =
    let buf = file_read workdir_ino 0 in
    let erased = chars_from (suc len) (erase_inodes (suc len) buf) 0 in
    let size : length (erased ++ new_line) ≡ suc len + 2 =
      length-chars_from (suc len) (erase_inodes (suc len) buf) 0 new_line in
    rw (e, printf-line p erased, size)
      (elim (Bool-cases (ltb (suc len + 2) buf_size)) [
        | inl fits ↦ rw fits (ap (λ cs. some (0, cs ++ new_line)) (erase_all len buf))
        | inr over ↦ rw over refl
      ])
