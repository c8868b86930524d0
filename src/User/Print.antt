-- ===== src/User/Print.antt =====
-- Formatted printing (library/libc/print.c). A string is the list of its characters before the NUL; the
-- size of the output buffer, which this code does not look at, is a matter of its callers.
pub mod Log
pub mod Shown
use egos_upstream.Base.{
  ℕ, ◌+◌, ◌/◌, ◌%◌, ◌^◌, Bool, true, false, not, Option, none, some, List, [], ◌∷◌, ◌++◌, ◌==◌,
  if◌then◌else◌, ◌>>=◌,
}

-- The C library's itoa, and the arithmetic of doubles: the sign test, the negation, and the truncation of
-- v * 100.0 + 0.5 to 64 bits.
pub record Platform : Type 1 where
  pub Double : Type 0
  pub itoa : ℕ → ℕ → List ℕ
  pub is_negative : Double → Bool
  pub negate : Double → Double
  pub scale : Double → ℕ

-- A variable argument, at the type with which it was passed.
pub data Arg (p : Platform) : Type 0 where
  chars : List ℕ → Arg p
  int : ℕ → Arg p
  double : p.Double → Arg p

module _ (p : Platform) where
  -- The case of %f: two decimals, rounded.
  unfoldable pub format_double : List ℕ → p.Double → List ℕ
  format_double out v =
      let (out', v') = if p.is_negative v then (out ++ (b'-' ∷ []), p.negate v) else (out, v) in
      let scaled = p.scale v' in
      let whole = out' ++ p.itoa (scaled / 100 % 2 ^ 32) 10 in
      (whole ++ (b'.' ∷ [])) ++ (b'0' + scaled % 100 / 10) ∷ (b'0' + scaled % 100 % 10) ∷ []

  -- The directive of the character after a %. `none` is `FATAL`, and the behaviour that C leaves
  -- undefined when `va_arg` finds no argument of the type asked for.
  unfoldable pub format_directive : ℕ → List ℕ → List (Arg p) → Option (List ℕ × List (Arg p))
  unfolding format_double
  format_directive c out [] = if c == b'%' then some (out ++ (b'%' ∷ []), []) else none
  format_directive c out (chars s ∷ args) =
      if c == b'%'
      then some (out ++ (b'%' ∷ []), chars s ∷ args)
      else if c == b's'
      then some (out ++ s, args)
      else none
  format_directive c out (int n ∷ args) =
      if c == b'%'
      then some (out ++ (b'%' ∷ []), int n ∷ args)
      else if c == b'd'
      then some (out ++ p.itoa n 10, args)
      else if c == b'x'
      then some (out ++ p.itoa n 16, args)
      else none
  format_directive c out (double v ∷ args) =
      if c == b'%'
      then some (out ++ (b'%' ∷ []), double v ∷ args)
      else if c == b'f'
      then some (format_double out v, args)
      else none

  -- The loop, from the output and the arguments so far, and whether a % has just been read.
  unfoldable pub format_loop :
      Bool → List ℕ → List ℕ → List (Arg p) → Option (List ℕ × List (Arg p))
  unfolding format_directive
  format_loop true out [] args = none
  format_loop false out [] args = some (out, args)
  format_loop true out (c ∷ fmt) args =
      format_directive c out args >>= λ (out', args'). format_loop false out' fmt args'
  format_loop false out (c ∷ fmt) args =
      let plain = format_loop false (out ++ (c ∷ [])) fmt args in
      let directive = format_loop true out fmt args in if not (c == b'%') then plain else directive

  unfoldable pub format_to_str : List ℕ → List (Arg p) → Option (List ℕ × List (Arg p))
  unfolding format_loop
  format_to_str fmt args = format_loop false [] fmt args
