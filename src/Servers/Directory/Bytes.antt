-- ===== src/Servers/Directory/Bytes.antt =====
-- Texts in blocks of bytes, as dir_lookup reads them.
use egos_upstream.Base.{
  ℕ, zero, suc, ◌+◌, ◌*◌, ◌/◌, ◌%◌, ◌^◌, ◌≤◌, ◌<◌, ◌≡◌, sym, ap, ◌∙◌, ◌≢◌, inl, inr, Bool, true,
  not, ◌&&◌, List, [], ◌∷◌, ◌++◌, arith, ltb, ◌==◌, eq_of_==, ne_of_==, Bool-cases, length,
}
use egos_upstream.Fs.Mkfs.Image.{block_of, block_bytes}
use egos_upstream.User.Shell.Batch.{char_at}
use egos_upstream.Servers.Directory.{Text}
use egos_upstream.Servers.Directory.Entries.{
  Entry, spaces, tail_text, entries_text, IsPlain, IsName, AreDigits, AreEntries, Spells,
}

-- A byte of a word.
block_bytes-block_of :
    (bytes : ℕ → ℕ) (i : ℕ) → ((k : ℕ) → bytes k < 2 ^ 8) → block_bytes (block_of bytes) i ≡ bytes i
unfolding block_bytes block_of
block_bytes-block_of bytes i small =
    let q = i / 4 in
    let small0 = small (4 * q) in
    let small1 = small (4 * q + 1) in
    let small2 = small (4 * q + 2) in
    let small3 = small (4 * q + 3) in
    elim (Bool-cases (i % 4 == 0)) [
      | inl zeroth ↦
          let at : 4 * q ≡ i = omega (arith, eq_of_== _ _ zeroth) in
          rw zeroth (omega (arith, ap bytes at))
      | inr not_zeroth ↦ elim (Bool-cases (i % 4 == 1)) [
        | inl first ↦
            let at : 4 * q + 1 ≡ i = omega (arith, eq_of_== _ _ first) in
            rw (not_zeroth, first) (omega (arith, ap bytes at))
        | inr not_first ↦ elim (Bool-cases (i % 4 == 2)) [
          | inl second ↦
              let at : 4 * q + 2 ≡ i = omega (arith, eq_of_== _ _ second) in
              rw (not_zeroth, not_first, second) (omega (arith, ap bytes at))
          | inr third ↦
              let at : 4 * q + 3 ≡ i =
                omega
                  (arith, ne_of_== _ _ not_zeroth, ne_of_== _ _ not_first, ne_of_== _ _ third) in
              rw (not_zeroth, not_first, third) (omega (arith, ap bytes at))
        ]
      ]
    ]

-- A text without a NUL, at the start of a block.
abbrev pub AreSet : List ℕ → Type 0
AreSet [] = Unit
AreSet (c ∷ cs) = (c ≢ 0) × AreSet cs

pub Spells-char_at :
    (buf : Text) (p : ℕ) (cs : List ℕ)
    → AreSet cs
    → ((i : ℕ) → i ≤ length cs → buf (p + i) ≡ char_at cs i)
    → Spells buf p cs
unfolding char_at
Spells-char_at buf p [] set same_text =
    let here : p + 0 ≡ p = omega arith in sym (ap buf here) ∙ same_text 0 (omega arith)
Spells-char_at buf p (c ∷ cs) (ne, set) same_text =
    let here : p + 0 ≡ p = omega arith in
    (
      sym (ap buf here) ∙ same_text 0 (omega arith),
      ne,
      Spells-char_at buf (p + 1) cs set (λ i le.
          let next : p + suc i ≡ p + 1 + i = omega arith in
          sym (ap buf next) ∙ same_text (suc i) (omega arith)),
    )

AreSet-append : (cs ds : List ℕ) → AreSet cs → AreSet ds → AreSet (cs ++ ds)
AreSet-append [] ds s t = t
AreSet-append (c ∷ cs) ds (ne, s) t = (ne, AreSet-append cs ds s t)

AreSet-plain : (cs : List ℕ) → IsPlain cs → AreSet cs
AreSet-plain [] plain = tt
AreSet-plain (c ∷ cs) (ne, not_blank, plain) = (ne, AreSet-plain cs plain)

AreSet-name : (cs : List ℕ) → IsName cs → AreSet cs
AreSet-name [] named = absurd named
AreSet-name (c ∷ cs) (not_digit, plain) = AreSet-plain (c ∷ cs) plain

AreSet-digits : (cs : List ℕ) → AreDigits cs → AreSet cs
AreSet-digits [] are = tt
AreSet-digits (c ∷ cs) (is, are) = (λ e. ground arith, AreSet-digits cs are)

AreSet-spaces : (n : ℕ) (cs : List ℕ) → AreSet cs → AreSet (spaces n cs)
unfolding spaces
AreSet-spaces zero cs s = s
AreSet-spaces (suc n) cs s = (λ e. ground arith, AreSet-spaces n cs s)

pub AreSet-entries : (es : List Entry) → AreEntries es → AreSet (entries_text es)
unfolding entries_text
AreSet-entries [] are = tt
AreSet-entries (e ∷ es) (is, are) =
    AreSet-append e.name (tail_text e (entries_text es)) (AreSet-name e.name is.named) (
      AreSet-spaces e.blanks (e.number ++ (b' ' ∷ entries_text es)) (
        AreSet-append e.number (b' ' ∷ entries_text es) (AreSet-digits e.number is.numbered)
          (λ z. ground arith, AreSet-entries es are)))

-- A text of bytes, shorter than some bytes that hold it and its NUL.
pub Spells-block_of :
    (bytes : ℕ → ℕ) (cs : List ℕ)
    → AreSet cs
    → ((i : ℕ) → bytes i < 2 ^ 8)
    → ((i : ℕ) → i ≤ length cs → bytes i ≡ char_at cs i)
    → Spells (block_bytes (block_of bytes)) 0 cs
Spells-block_of bytes cs set small same_text =
    Spells-char_at (block_bytes (block_of bytes)) 0 cs set (λ i le.
      let here : 0 + i ≡ i = omega arith in
      ap (block_bytes (block_of bytes)) here ∙ block_bytes-block_of bytes i small ∙ same_text i le)

unfoldable pub all_below : ℕ → List ℕ → Bool
all_below bound [] = true
all_below bound (c ∷ cs) = let rest = all_below bound cs in ltb c bound && rest

pub char_at-lt :
    (cs : List ℕ) (bound : ℕ)
    → 1 ≤ bound
    → all_below bound cs ≡ true
    → (i : ℕ) → char_at cs i < bound
unfolding char_at all_below
char_at-lt [] bound pos h i = omega arith
char_at-lt (c ∷ cs) bound pos h zero = ground arith
char_at-lt (c ∷ cs) bound pos h (suc i) = char_at-lt cs bound pos (ground arith) i

-- The test of the characters of a name.
unfoldable pub are_plain : List ℕ → Bool
are_plain [] = true
are_plain (c ∷ cs) = let rest = are_plain cs in not (c == 0) && (not (c == b' ') && rest)

pub are_plain-IsPlain : (cs : List ℕ) → are_plain cs ≡ true → IsPlain cs
unfolding are_plain
are_plain-IsPlain [] h = tt
are_plain-IsPlain (c ∷ cs) h =
    ((λ e. ground arith), (λ e. ground arith), are_plain-IsPlain cs (ground arith))
