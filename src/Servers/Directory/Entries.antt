-- ===== src/Servers/Directory/Entries.antt =====
-- What dir_lookup finds in the text that tools/mkfs.c makes of the entries of a directory.
use egos_upstream.Base.{
  ℕ, zero, suc, ◌+◌, ◌-◌, ◌*◌, ◌≤◌, ◌<◌, ◌≡◌, refl, sym, ap, ◌∙◌, ◌≢◌, inl, inr, Bool, true, false,
  ◌&&◌, Option, none, some, List, [], ◌∷◌, ◌++◌, arith, ltb, leb, ◌==◌, if◌then◌else◌, ==_false,
  Bool-cases, length, find_from,
}
use mathlib.Core.Path.{subst}
use egos_upstream.Servers.Directory.{Text, matches, entry_at}

abbrev pub is_digit : ℕ → Bool
is_digit c = leb b'0' c && leb c b'9'

-- An entry: a name, as many blanks as there are before the number, and the digits of the inode number.
pub record Entry : Type 0 where
  pub name : List ℕ
  pub blanks : ℕ
  pub number : List ℕ

unfoldable pub spaces : ℕ → List ℕ → List ℕ
spaces zero rest = rest
spaces (suc n) rest = b' ' ∷ spaces n rest

-- What follows the name of an entry, before `rest`.
abbrev pub tail_text : Entry → List ℕ → List ℕ
tail_text e rest = spaces e.blanks (e.number ++ (b' ' ∷ rest))

unfoldable pub entries_text : List Entry → List ℕ
entries_text [] = []
entries_text (e ∷ es) = e.name ++ tail_text e (entries_text es)

abbrev pub IsPlain : List ℕ → Type 0
IsPlain [] = Unit
IsPlain (c ∷ cs) = (c ≢ 0) × (c ≢ b' ') × IsPlain cs

-- A name does not start with a digit and has no blank.
abbrev pub IsName : List ℕ → Type 0
IsName [] = ⊥
IsName (c ∷ cs) = (is_digit c ≡ false) × IsPlain (c ∷ cs)

abbrev pub AreDigits : List ℕ → Type 0
AreDigits [] = Unit
AreDigits (c ∷ cs) = (is_digit c ≡ true) × AreDigits cs

-- The number that digits spell, after the digits of `n`.
unfoldable pub number_of : List ℕ → ℕ → ℕ
number_of [] n = n
number_of (c ∷ cs) n = number_of cs (10 * n + (c - b'0'))

pub record IsEntry (e : Entry) : Type 0 where
  pub named : IsName e.name
  pub parted : 1 ≤ e.blanks
  pub counted : 1 ≤ length e.number
  pub numbered : AreDigits e.number

abbrev pub AreEntries : List Entry → Type 0
AreEntries [] = Unit
AreEntries (e ∷ es) = IsEntry e × AreEntries es

unfoldable pub same : List ℕ → List ℕ → Bool
same [] [] = true
same [] (d ∷ ds) = false
same (c ∷ cs) [] = false
same (c ∷ cs) (d ∷ ds) = (c == d) && same cs ds

-- The inode number of the first entry with the name.
unfoldable pub lookup : List ℕ → List Entry → Option ℕ
unfolding same number_of
lookup name [] = none
lookup name (e ∷ es) =
    let rest = lookup name es in if same name e.name then some (number_of e.number 0) else rest

-- The characters from `p` on, up to the NUL.
abbrev pub Spells : Text → ℕ → List ℕ → Type 0
Spells buf p [] = buf p ≡ 0
Spells buf p (c ∷ cs) = (buf p ≡ c) × (c ≢ 0) × Spells buf (p + 1) cs

pub same_lem : (cs ds : List ℕ) → same cs ds ≡ true → cs ≡ ds
unfolding same
same_lem [] [] h = refl
same_lem [] (d ∷ ds) h = ground arith
same_lem (c ∷ cs) [] h = ground arith
same_lem (c ∷ cs) (d ∷ ds) h =
    let first : c ≡ d = ground arith in let later : cs ≡ ds = same_lem cs ds (ground arith) in cc

pub same_self : (cs : List ℕ) → same cs cs ≡ true
unfolding same
same_self [] = refl
same_self (c ∷ cs) = ground (arith, same_self cs)

pub Spells-drop :
    (buf : Text) (p : ℕ) (xs ys : List ℕ) → Spells buf p (xs ++ ys) → Spells buf (p + length xs) ys
Spells-drop buf p [] ys s =
    let still : p ≡ p + length {A = ℕ} [] = omega arith in subst (λ q. Spells buf q ys) still s
Spells-drop buf p (x ∷ xs) ys (e, ne, s) =
    let moved : p + 1 + length xs ≡ p + length (x ∷ xs) = omega arith in
    subst (λ q. Spells buf q ys) moved (Spells-drop buf (p + 1) xs ys s)

-- The length of the text.
pub strlen-Spells :
    (buf : Text) (n p : ℕ) (cs : List ℕ)
    → Spells buf p cs
    → length cs < n
    → find_from n p (λ i. buf i == 0) ≡ some (p + length cs)
unfolding find_from
strlen-Spells buf zero p cs s lt = absurd (omega arith)
strlen-Spells buf (suc n) p [] e lt = ground arith
strlen-Spells buf (suc n) p (c ∷ cs) (e, ne, s) lt =
    let later = strlen-Spells buf n (p + 1) cs s (omega arith) in
    rw (e, ==_false c 0 ne, later) (ap some (omega arith))

-- An index from `a` on and below `b` is no entry of this name.
abbrev pub IsClear : List ℕ → Text → ℕ → ℕ → Type 0
IsClear name buf a b = (i : ℕ) → a ≤ i → i < b → entry_at name buf i ≡ false

pub IsClear-join :
    (name : List ℕ) (buf : Text) (a b c : ℕ)
    → IsClear name buf a b
    → IsClear name buf b c
    → IsClear name buf a c
IsClear-join name buf a b c f g i lo hi = elim (Bool-cases (ltb i b)) [
  | inl before ↦ f i lo (ground arith)
  | inr after ↦ g i (ground arith) hi
]

pub IsClear-one :
    (name : List ℕ) (buf : Text) (p : ℕ) → entry_at name buf p ≡ false → IsClear name buf p (p + 1)
IsClear-one name buf p e i lo hi = let here : p ≡ i = omega arith in rw (← here) e

-- A character other than the name's first starts no entry of the name.
pub other_char :
    (c : ℕ) (cs : List ℕ) (buf : Text) (p : ℕ) → buf p ≢ c → entry_at (c ∷ cs) buf p ≡ false
unfolding entry_at matches
other_char c cs buf p ne = rw (==_false (buf p) c ne) refl

-- Nor does one that follows another than a blank.
inside :
    (name : List ℕ) (buf : Text) (p : ℕ) → 1 ≤ p → buf (p - 1) ≢ b' ' → entry_at name buf p ≡ false
unfolding entry_at
inside name buf p above ne = ground (arith, ==_false (buf (p - 1)) b' ' ne)

pub inside_word :
    (name : List ℕ) (buf : Text) (p : ℕ) (w rest : List ℕ)
    → IsPlain w
    → Spells buf p (w ++ rest)
    → 1 ≤ p
    → buf (p - 1) ≢ b' '
    → IsClear name buf p (p + length w)
inside_word name buf p [] rest plain s above ne = λ i lo hi. absurd (omega arith)
inside_word name buf p (c ∷ cs) rest (c_ne, c_plain, plain) (e, ne', s) above ne =
    IsClear-join name buf p (p + 1) (p + length (c ∷ cs))
      (IsClear-one name buf p (inside name buf p above ne))
      (let moved : p + 1 + length cs ≡ p + length (c ∷ cs) = omega arith in
        subst (IsClear name buf (p + 1)) moved (
          inside_word name buf (p + 1) cs rest plain s (omega arith)
            (λ blank. c_plain (sym e ∙ sym (ap buf (before p)) ∙ blank))))
  where
    before : (q : ℕ) → q + 1 - 1 ≡ q
    before q = omega arith

-- Where the characters are a name and a blank, the name that matches there is that one.
pub matches_lem :
    (name w rest : List ℕ) (buf : Text) (p : ℕ)
    → IsPlain name
    → IsPlain w
    → Spells buf p (w ++ (b' ' ∷ rest))
    → matches name buf p ≡ true
    → buf (p + length name) ≡ b' '
    → name ≡ w
unfolding matches
matches_lem [] [] rest buf p pn pw s m e = refl
matches_lem [] (c ∷ cs) rest buf p pn (c_ne, c_plain, pw) (at, ne, s) m e =
    absurd (c_plain (sym at ∙ ap buf still ∙ e))
  where
    still : p ≡ p + length {A = ℕ} []
    still = omega arith
matches_lem (d ∷ ds) [] rest buf p (d_ne, d_plain, pn) pw (at, ne, s) m e = absurd (ground arith)
matches_lem (d ∷ ds) (c ∷ cs) rest buf p (d_ne, d_plain, pn) (c_ne, c_plain, pw) (at, ne, s) m e =
    let first : d ≡ c = ground arith in
    let later : ds ≡ cs =
      matches_lem ds cs rest buf (p + 1) pn pw s (ground arith) (ap buf moved ∙ e) in
    ap (λ x. x ∷ ds) first ∙ ap (λ xs. c ∷ xs) later
  where
    moved : p + 1 + length ds ≡ p + length (d ∷ ds)
    moved = omega arith

-- A word matches itself.
pub matches_self :
    (w rest : List ℕ) (buf : Text) (p : ℕ) → Spells buf p (w ++ rest) → matches w buf p ≡ true
unfolding matches
matches_self [] rest buf p s = refl
matches_self (c ∷ cs) rest buf p (at, ne, s) =
    rw (matches_self cs rest buf (p + 1) s) (ground arith)
