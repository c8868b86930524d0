-- ===== src/User/Print/Log.antt =====
-- The printing functions of library/libc/print.c: a format between a prefix and a suffix, in a buffer of
-- 512 characters. The result is the text that is written to the terminal.
use egos_upstream.Base.{
  ℕ, ◌<◌, ◌≡◌, inl, inr, Option, none, some, List, [], ◌∷◌, ◌++◌, arith, ltb, if◌then◌else◌,
  Bool-cases, Option-cases, ◌>>=◌, length,
}
use egos_upstream.User.Print.{Platform, Arg, format_to_str}

abbrev pub buf_size : ℕ
buf_size = 512

-- ESC, which starts a colour, and the end of a line.
abbrev pub escape : ℕ
escape = 0x1b

abbrev pub new_line : List ℕ
new_line = 0x0a ∷ 0x0d ∷ []

abbrev pub plain : List ℕ
plain = escape ∷ b'[' ∷ b'1' ∷ b';' ∷ b'0' ∷ b'm' ∷ new_line

module _ (p : Platform) where
  -- LOG. The buffer is not checked: a text that does not fit with its NUL is `none`.
  unfoldable pub log : List ℕ → List ℕ → List ℕ → List (Arg p) → Option (List ℕ)
  unfolding format_to_str
  log prefix suffix format args = do
    (text, rest) ← format_to_str p format args
    let buf = prefix ++ (text ++ suffix)
    if ltb (length buf) buf_size then some buf else none

  unfoldable pub my_printf : List ℕ → List (Arg p) → Option (List ℕ)
  unfolding log
  my_printf format args = log [] [] format args

  unfoldable pub info : List ℕ → List (Arg p) → Option (List ℕ)
  unfolding log
  info format args = log (b'[' ∷ b'I' ∷ b'N' ∷ b'F' ∷ b'O' ∷ b']' ∷ b' ' ∷ []) new_line format args

  -- The text after which FATAL does not return.
  unfoldable pub fatal_text : List ℕ → List (Arg p) → Option (List ℕ)
  unfolding log
  fatal_text format args =
      log
        (escape ∷ b'[' ∷ b'1' ∷ b';' ∷ b'3' ∷ b'1' ∷ b'm' ∷ b'[' ∷ b'F' ∷ b'A' ∷ b'T' ∷ b'A' ∷ b'L'
          ∷ b']' ∷ b' ' ∷ [])
        plain format args

  unfoldable pub success : List ℕ → List (Arg p) → Option (List ℕ)
  unfolding log
  success format args =
      log
        (escape ∷ b'[' ∷ b'1' ∷ b';' ∷ b'3' ∷ b'2' ∷ b'm' ∷ b'[' ∷ b'S' ∷ b'U' ∷ b'C' ∷ b'C' ∷ b'E'
          ∷ b'S' ∷ b'S' ∷ b']' ∷ b' ' ∷ [])
        plain format args

  unfoldable pub critical : List ℕ → List (Arg p) → Option (List ℕ)
  unfolding log
  critical format args =
      log
        (escape ∷ b'[' ∷ b'1' ∷ b';' ∷ b'3' ∷ b'3' ∷ b'm' ∷ b'[' ∷ b'C' ∷ b'R' ∷ b'I' ∷ b'T' ∷ b'I'
          ∷ b'C' ∷ b'A' ∷ b'L' ∷ b']' ∷ b' ' ∷ [])
        plain format args

  -- A text that is written fits into the buffer with its NUL.
  pub log-fits :
      (prefix suffix format : List ℕ) (args : List (Arg p)) (text : List ℕ)
      → log prefix suffix format args ≡ some text
      → length text < buf_size
  unfolding log
  log-fits prefix suffix format args text e = elim (Option-cases (format_to_str p format args)) [
    | inl stopped ↦ let bad : none ≡ some text = (rw stopped at e) in cc
    | inr ((body, rest), formatted) ↦
        elim (Bool-cases (ltb (length (prefix ++ (body ++ suffix))) buf_size)) [
          | inl fits ↦
              let same : prefix ++ (body ++ suffix) ≡ text = cc (rw (formatted, fits) at e) in
              rw (← same) (ground arith)
          | inr over ↦ let bad : none ≡ some text = (rw (formatted, over) at e) in cc
        ]
  ]
