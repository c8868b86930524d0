-- ===== src/Servers/Directory/Clear.antt =====
-- The text of an entry: where dir_lookup finds its name, and that it finds no other name in it.
use egos_upstream.Base.{
  ℕ, zero, suc, ◌+◌, ◌-◌, ◌*◌, ◌≤◌, ◌<◌, ◌≡◌, refl, sym, ap, ◌∙◌, ◌≢◌, ◌⊎◌, inl, inr, true, false,
  List, [], ◌∷◌, ◌++◌, arith, ◌==◌, eq_of_==, Bool-cases, length, length-append,
}
use mathlib.Core.Path.{subst}
use egos_upstream.Servers.Directory.{Text, matches, entry_at, digits, atoi}
use egos_upstream.Servers.Directory.Entries.{
  is_digit, spaces, IsPlain, IsName, AreDigits, number_of, same, Spells, same_self, Spells-drop,
  IsClear, IsClear-join, IsClear-one, other_char, inside_word, matches_lem, matches_self,
}

-- The digits of a number, and the blank behind them.
digits_lem :
    (fuel : ℕ) (buf : Text) (p : ℕ) (ds rest : List ℕ) (n : ℕ)
    → AreDigits ds
    → Spells buf p (ds ++ (b' ' ∷ rest))
    → length ds < fuel
    → digits fuel buf p n ≡ number_of ds n
unfolding digits number_of
digits_lem zero buf p ds rest n are s lt = absurd (omega arith)
digits_lem (suc fuel) buf p [] rest n are (at, ne, s) lt = rw at refl
digits_lem (suc fuel) buf p (d ∷ ds) rest n (is, are) (at, ne, s) lt =
    rw (at, is, digits_lem fuel buf (p + 1) ds rest (10 * n + (d - b'0')) are s (omega arith)) refl

pub atoi_lem :
    (fuel : ℕ) (buf : Text) (p n : ℕ) (ds rest : List ℕ)
    → AreDigits ds
    → 1 ≤ length ds
    → Spells buf p (spaces n (ds ++ (b' ' ∷ rest)))
    → n + length ds + 1 < fuel
    → atoi fuel buf p ≡ number_of ds 0
unfolding atoi spaces
atoi_lem zero buf p n ds rest are some_digit s lt = absurd (omega arith)
atoi_lem (suc fuel) buf p zero [] rest are some_digit s lt = absurd (omega arith)
atoi_lem (suc fuel) buf p zero (d ∷ ds) rest (is, are) counted s lt =
    ground (arith, digits_lem fuel buf p (d ∷ ds) rest 0 (is, are) s (omega arith))
atoi_lem (suc fuel) buf p (suc n) ds rest are some_digit (at, ne, s) lt =
    rw at (atoi_lem fuel buf (p + 1) n ds rest are some_digit s (omega arith))

-- The blanks and digits between two names start no entry.
digits-IsClear :
    (c : ℕ) (cs : List ℕ) (buf : Text) (p : ℕ) (ds rest : List ℕ)
    → is_digit c ≡ false
    → c ≢ b' '
    → AreDigits ds
    → Spells buf p (ds ++ (b' ' ∷ rest))
    → IsClear (c ∷ cs) buf p (p + length ds + 1) × Spells buf (p + length ds + 1) rest
digits-IsClear c cs buf p [] rest not_digit plain are (at, ne, s) =
    let end : p + 1 ≡ p + length {A = ℕ} [] + 1 = omega arith in
    (
      subst (IsClear (c ∷ cs) buf p) end
          (IsClear-one (c ∷ cs) buf p (other_char c cs buf p (λ e. plain (sym e ∙ at)))),
      subst (λ q. Spells buf q rest) end s,
    )
digits-IsClear c cs buf p (d ∷ ds) rest not_digit plain (is, are) (at, ne, s) =
    let end : p + 1 + length ds + 1 ≡ p + length (d ∷ ds) + 1 = omega arith in
    let (later, s') = digits-IsClear c cs buf (p + 1) ds rest not_digit plain are s in
    (
      IsClear-join (c ∷ cs) buf p (p + 1) (p + length (d ∷ ds) + 1)
          (IsClear-one (c ∷ cs) buf p (other_char c cs buf p (λ e. ground arith)))
          (subst (IsClear (c ∷ cs) buf (p + 1)) end later),
      subst (λ q. Spells buf q rest) end s',
    )

tail-IsClear :
    (c : ℕ) (cs : List ℕ) (buf : Text) (p n : ℕ) (ds rest : List ℕ)
    → is_digit c ≡ false
    → c ≢ b' '
    → AreDigits ds
    → Spells buf p (spaces n (ds ++ (b' ' ∷ rest)))
    → IsClear (c ∷ cs) buf p (p + n + length ds + 1) × Spells buf (p + n + length ds + 1) rest
unfolding spaces
tail-IsClear c cs buf p zero ds rest not_digit plain are s =
    let end : p + length ds + 1 ≡ p + 0 + length ds + 1 = omega arith in
    let (clear, s') = digits-IsClear c cs buf p ds rest not_digit plain are s in
    (subst (IsClear (c ∷ cs) buf p) end clear, subst (λ q. Spells buf q rest) end s')
tail-IsClear c cs buf p (suc n) ds rest not_digit plain are (at, ne, s) =
    let end : p + 1 + n + length ds + 1 ≡ p + suc n + length ds + 1 = omega arith in
    let (later, s') = tail-IsClear c cs buf (p + 1) n ds rest not_digit plain are s in
    (
      IsClear-join (c ∷ cs) buf p (p + 1) (p + suc n + length ds + 1)
          (IsClear-one (c ∷ cs) buf p (other_char c cs buf p (λ e. plain (sym e ∙ at))))
          (subst (IsClear (c ∷ cs) buf (p + 1)) end later),
      subst (λ q. Spells buf q rest) end s',
    )

-- An entry of another name is passed over.
other_name :
    (c : ℕ) (cs : List ℕ) (d : ℕ) (ds rest : List ℕ) (buf : Text) (p : ℕ)
    → IsPlain (c ∷ cs)
    → IsPlain (d ∷ ds)
    → same (c ∷ cs) (d ∷ ds) ≡ false
    → Spells buf p ((d ∷ ds) ++ (b' ' ∷ rest))
    → entry_at (c ∷ cs) buf p ≡ false
unfolding entry_at
other_name c cs d ds rest buf p plain plain' differ s = elim (Bool-cases (matches (c ∷ cs) buf p)) [
  | inr miss ↦ rw miss refl
  | inl hit ↦ elim (Bool-cases (buf (p + length (c ∷ cs)) == b' ')) [
    | inr miss ↦ rw (hit, miss) refl
    | inl blank ↦
        let e = matches_lem (c ∷ cs) (d ∷ ds) rest buf p plain plain' s hit (eq_of_== _ _ blank) in
        absurd (clash (c ∷ cs) (d ∷ ds) e differ)
  ]
]
  where
    clash : (xs ys : List ℕ) → xs ≡ ys → same xs ys ≡ false → ⊥
    clash xs ys e differ' = let self = same_self xs in cc

word-IsClear :
    (c : ℕ) (cs : List ℕ) (d : ℕ) (ds rest : List ℕ) (buf : Text) (p : ℕ)
    → IsPlain (c ∷ cs)
    → IsPlain (d ∷ ds)
    → same (c ∷ cs) (d ∷ ds) ≡ false
    → Spells buf p ((d ∷ ds) ++ (b' ' ∷ rest))
    → IsClear (c ∷ cs) buf p (p + length (d ∷ ds))
word-IsClear c cs d ds rest buf p plain plain' differ s =
    IsClear-join (c ∷ cs) buf p (p + 1) (p + length (d ∷ ds))
      (IsClear-one (c ∷ cs) buf p (other_name c cs d ds rest buf p plain plain' differ s))
      (subst (IsClear (c ∷ cs) buf (p + 1)) end (
        inside_word (c ∷ cs) buf (p + 1) ds (b' ' ∷ rest) plain'.2 s.2 (omega arith)
          (λ blank. plain'.1 (sym s.0 ∙ sym (ap buf back) ∙ blank))))
  where
    end : p + 1 + length ds ≡ p + length (d ∷ ds)
    end = omega arith

    back : p + 1 - 1 ≡ p
    back = omega arith

-- The blank behind the digits.
blank_behind :
    (buf : Text) (p n : ℕ) (ds rest : List ℕ)
    → Spells buf p (spaces n (ds ++ (b' ' ∷ rest)))
    → buf (p + n + length ds) ≡ b' '
unfolding spaces
blank_behind buf p zero ds rest s =
    let at : p + length ds ≡ p + 0 + length ds = omega arith in
    sym (ap buf at) ∙ (Spells-drop buf p ds (b' ' ∷ rest) s).0
blank_behind buf p (suc n) ds rest (at, ne, s) =
    let moved : p + 1 + n + length ds ≡ p + suc n + length ds = omega arith in
    sym (ap buf moved) ∙ blank_behind buf (p + 1) n ds rest s

pub length-tail :
    (n : ℕ) (ds rest : List ℕ)
    → length (spaces n (ds ++ (b' ' ∷ rest))) ≡ n + length ds + 1 + length rest
unfolding spaces
length-tail zero ds rest = omega (arith, length-append ds (b' ' ∷ rest))
length-tail (suc n) ds rest = omega (arith, length-tail n ds rest)

abbrev pub Starts : Text → ℕ → Type 0
Starts buf p = (p ≡ 0) ⊎ (buf (p - 1) ≡ b' ')

-- An entry is found at its name.
pub word_hit :
    (w : List ℕ) (n : ℕ) (ds rest : List ℕ) (buf : Text) (p : ℕ)
    → 1 ≤ n
    → Starts buf p
    → Spells buf p (w ++ spaces n (ds ++ (b' ' ∷ rest)))
    → entry_at w buf p ≡ true
unfolding entry_at spaces
word_hit w zero ds rest buf p some_blank start s = absurd (omega arith)
word_hit w (suc n) ds rest buf p some_blank start s =
    let blank = (Spells-drop buf p w (b' ' ∷ spaces n (ds ++ (b' ' ∷ rest))) s).0 in
    rw (matches_self w (b' ' ∷ spaces n (ds ++ (b' ' ∷ rest))) buf p s, blank)
      (ground (arith, start))

-- An entry that is not the one: the search goes on behind it.
pub pass_entry :
    (c : ℕ) (cs w : List ℕ) (n : ℕ) (ds rest : List ℕ) (buf : Text) (p : ℕ)
    → IsName (c ∷ cs)
    → IsName w
    → 1 ≤ n
    → AreDigits ds
    → same (c ∷ cs) w ≡ false
    → Spells buf p (w ++ spaces n (ds ++ (b' ' ∷ rest)))
    → IsClear (c ∷ cs) buf p (p + length w + n + length ds + 1)
      × Spells buf (p + length w + n + length ds + 1) rest
      × (buf (p + length w + n + length ds) ≡ b' ')
unfolding spaces
pass_entry c cs [] n ds rest buf p named named' parted are differ s = absurd named'
pass_entry c cs (d ∷ w) zero ds rest buf p named named' parted are differ s = absurd (omega arith)
pass_entry c cs (d ∷ w) (suc n) ds rest buf p named named' parted are differ s =
    let q = p + length (d ∷ w) in
    let s' = Spells-drop buf p (d ∷ w) (spaces (suc n) (ds ++ (b' ' ∷ rest))) s in
    let (clear, s'') = tail-IsClear c cs buf q (suc n) ds rest named.0 named.1.1 are s' in
    (
      IsClear-join (c ∷ cs) buf p q (q + suc n + length ds + 1)
          (word-IsClear c cs d w (spaces n (ds ++ (b' ' ∷ rest))) buf p named.1 named'.1 differ s)
          clear,
      s'',
      blank_behind buf q (suc n) ds rest s',
    )
