-- ===== src/User/Print/Shown.antt =====
-- What format_to_str of library/libc/print.c prints, piece by piece.
use egos_upstream.Base.{
  ℕ, ◌+◌, ◌/◌, ◌%◌, ◌^◌, ◌≡◌, refl, sym, ap, ◌∙◌, inl, inr, Bool, true, false, not, ◌&&◌, some,
  List, [], ◌∷◌, ◌++◌, arith, ◌==◌, if◌then◌else◌, Bool-cases,
}
use mathlib.Core.List.{append_assoc, append-nil}
use egos_upstream.User.Print.{
  Platform, Arg, chars, int, double, format_double, format_directive, format_loop, format_to_str,
}

-- What is printed: literal text, a string, a number in decimal or in hexadecimal, a percent sign or a double.
pub data Piece (p : Platform) : Type 0 where
  literal : List ℕ → Piece p
  str : List ℕ → Piece p
  dec : ℕ → Piece p
  hex : ℕ → Piece p
  percent : Piece p
  dbl : p.Double → Piece p

-- No character is a %.
unfoldable pub is_plain : List ℕ → Bool
is_plain [] = true
is_plain (c ∷ cs) = not (c == b'%') && is_plain cs

abbrev pub two_digits : ℕ → List ℕ
two_digits n = (b'0' + n / 10) ∷ (b'0' + n % 10) ∷ []

module _ (p : Platform) where
  -- The format for some pieces, and the arguments to go with it.
  unfoldable pub format_of : List (Piece p) → List ℕ
  format_of [] = []
  format_of (literal cs ∷ ps) = cs ++ format_of ps
  format_of (str s ∷ ps) = b'%' ∷ b's' ∷ format_of ps
  format_of (dec n ∷ ps) = b'%' ∷ b'd' ∷ format_of ps
  format_of (hex n ∷ ps) = b'%' ∷ b'x' ∷ format_of ps
  format_of (percent ∷ ps) = b'%' ∷ b'%' ∷ format_of ps
  format_of (dbl v ∷ ps) = b'%' ∷ b'f' ∷ format_of ps

  unfoldable pub args_of : List (Piece p) → List (Arg p)
  args_of [] = []
  args_of (literal cs ∷ ps) = args_of ps
  args_of (str s ∷ ps) = chars s ∷ args_of ps
  args_of (dec n ∷ ps) = int n ∷ args_of ps
  args_of (hex n ∷ ps) = int n ∷ args_of ps
  args_of (percent ∷ ps) = args_of ps
  args_of (dbl v ∷ ps) = double v ∷ args_of ps

  unfoldable pub are_plain : List (Piece p) → Bool
  are_plain [] = true
  are_plain (literal cs ∷ ps) = is_plain cs && are_plain ps
  are_plain (_ ∷ ps) = are_plain ps

  -- A number of hundredths, with its point.
  abbrev hundredths : ℕ → List ℕ
  hundredths n = p.itoa (n / 100 % 2 ^ 32) 10 ++ (b'.' ∷ two_digits (n % 100))

  -- A double: the sign, and the hundredths of its absolute value.
  abbrev shown_double : p.Double → List ℕ
  shown_double v =
      if p.is_negative v then b'-' ∷ hundredths (p.scale (p.negate v)) else hundredths (p.scale v)

  -- How a piece reads.
  unfoldable pub shown : List (Piece p) → List ℕ
  shown [] = []
  shown (literal cs ∷ ps) = cs ++ shown ps
  shown (str s ∷ ps) = s ++ shown ps
  shown (dec n ∷ ps) = p.itoa n 10 ++ shown ps
  shown (hex n ∷ ps) = p.itoa n 16 ++ shown ps
  shown (percent ∷ ps) = b'%' ∷ shown ps
  shown (dbl v ∷ ps) = shown_double v ++ shown ps

  -- The loop copies a text without %.
  loop_plain :
      (cs fmt out : List ℕ) (args : List (Arg p))
      → is_plain cs ≡ true
      → format_loop p false out (cs ++ fmt) args ≡ format_loop p false (out ++ cs) fmt args
  unfolding format_loop is_plain
  loop_plain [] fmt out args plain = ap (λ o. format_loop p false o fmt args) (sym (append-nil out))
  loop_plain (c ∷ cs) fmt out args plain =
      let other : (c == b'%') ≡ false = ground arith in
      let rest : is_plain cs ≡ true = ground arith in
      rw other (
        loop_plain cs fmt (out ++ (c ∷ [])) args rest
        ∙ ap (λ o. format_loop p false o fmt args) (append_assoc out (c ∷ []) cs))

  -- The output of a double, put together from the left or from the right.
  from_left :
      (out sign whole digits : List ℕ)
      → (((out ++ sign) ++ whole) ++ (b'.' ∷ [])) ++ digits
        ≡ out ++ (sign ++ (whole ++ (b'.' ∷ digits)))
  from_left out sign whole digits =
      append_assoc ((out ++ sign) ++ whole) (b'.' ∷ []) digits
      ∙ append_assoc (out ++ sign) whole (b'.' ∷ digits)
      ∙ append_assoc out sign (whole ++ (b'.' ∷ digits))

  format_double_lem : (out : List ℕ) (v : p.Double) → format_double p out v ≡ out ++ shown_double v
  unfolding format_double
  format_double_lem out v = elim (Bool-cases (p.is_negative v)) [
    | inl negative ↦
        let n = p.scale (p.negate v) in
        rw negative
          (from_left out (b'-' ∷ []) (p.itoa (n / 100 % 2 ^ 32) 10) (two_digits (n % 100)))
    | inr positive ↦
        let n = p.scale v in
        let whole = p.itoa (n / 100 % 2 ^ 32) 10 in
        rw positive (
          append_assoc (out ++ whole) (b'.' ∷ []) (two_digits (n % 100))
          ∙ append_assoc out whole (b'.' ∷ two_digits (n % 100)))
  ]

  percent_step :
      (args : List (Arg p)) (fmt out : List ℕ)
      → format_loop p false out (b'%' ∷ b'%' ∷ fmt) args
        ≡ format_loop p false (out ++ (b'%' ∷ [])) fmt args
  unfolding format_loop format_directive
  percent_step [] fmt out = refl
  percent_step (chars s ∷ args) fmt out = refl
  percent_step (int n ∷ args) fmt out = refl
  percent_step (double v ∷ args) fmt out = refl

  loop-shown :
      (ps : List (Piece p)) (out : List ℕ)
      → are_plain ps ≡ true
      → format_loop p false out (format_of ps) (args_of ps) ≡ some (out ++ shown ps, [])
  unfolding format_loop format_directive format_of args_of are_plain shown
  loop-shown [] out plain = ap (λ o. some (o, [])) (sym (append-nil out))
  loop-shown (literal cs ∷ ps) out plain =
      let fine : is_plain cs ≡ true = ground arith in
      let rest : are_plain ps ≡ true = ground arith in
      loop_plain cs (format_of ps) out (args_of ps) fine
      ∙ loop-shown ps (out ++ cs) rest
      ∙ ap (λ o. some (o, [])) (append_assoc out cs (shown ps))
  loop-shown (str s ∷ ps) out plain =
      loop-shown ps (out ++ s) plain ∙ ap (λ o. some (o, [])) (append_assoc out s (shown ps))
  loop-shown (dec n ∷ ps) out plain =
      loop-shown ps (out ++ p.itoa n 10) plain
      ∙ ap (λ o. some (o, [])) (append_assoc out (p.itoa n 10) (shown ps))
  loop-shown (hex n ∷ ps) out plain =
      loop-shown ps (out ++ p.itoa n 16) plain
      ∙ ap (λ o. some (o, [])) (append_assoc out (p.itoa n 16) (shown ps))
  loop-shown (percent ∷ ps) out plain =
      percent_step (args_of ps) (format_of ps) out
      ∙ loop-shown ps (out ++ (b'%' ∷ [])) plain
      ∙ ap (λ o. some (o, [])) (append_assoc out (b'%' ∷ []) (shown ps))
  loop-shown (dbl v ∷ ps) out plain =
      ap (λ o. format_loop p false o (format_of ps) (args_of ps)) (format_double_lem out v)
      ∙ loop-shown ps (out ++ shown_double v) plain
      ∙ ap (λ o. some (o, [])) (append_assoc out (shown_double v) (shown ps))

  -- A format made of texts without %, of %s, %d, %x and %f, and of %%, with arguments of these types,
  -- prints what is meant, in order: the texts and strings as they are, the numbers as itoa gives them
  -- to base 10 or 16, a double as its sign and its hundredths with a point, and % for %%. All
  -- arguments are used up.
  pub format_to_str-shown :
      (ps : List (Piece p))
      → are_plain ps ≡ true
      → format_to_str p (format_of ps) (args_of ps) ≡ some (shown ps, [])
  unfolding format_to_str
  format_to_str-shown ps plain = loop-shown ps [] plain
