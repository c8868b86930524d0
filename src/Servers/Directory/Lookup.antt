-- ===== src/Servers/Directory/Lookup.antt =====
-- dir_lookup finds the first entry with the name, and reads its inode number.
use egos_upstream.Base.{
  ℕ, ◌+◌, ◌-◌, ◌%◌, ◌^◌, ◌≤◌, ◌<◌, ◌≡◌, refl, sym, ap, ◌∙◌, inl, inr, true, Option, none, some,
  List, [], ◌∷◌, arith, Bool-cases, length, length-append, find_from, find_from-hit, find_from-miss,
}
use mathlib.Core.Path.{subst}
use egos_upstream.Servers.Directory.{Text, text_size, entry_at, atoi, dir_lookup}
use egos_upstream.Servers.Directory.Entries.{
  Entry, tail_text, entries_text, IsName, number_of, AreEntries, same, lookup, Spells, same_lem,
  Spells-drop, strlen-Spells, IsClear, IsClear-join,
}
use egos_upstream.Servers.Directory.Clear.{atoi_lem, pass_entry, word_hit, Starts, length-tail}

-- What a search from the start of an entry comes to.
data Walked (name : List ℕ) (buf : Text) (p end : ℕ) : Option ℕ → Type 0 where
  found :
      (r n : ℕ)
      → p ≤ r
      → r + length name < end
      → IsClear name buf p r
      → entry_at name buf r ≡ true
      → atoi text_size buf (r + length name) ≡ n
      → Walked name buf p end (some n)
  nowhere : IsClear name buf p end → Walked name buf p end none

Walked-later :
    (name : List ℕ) (buf : Text) (p q end : ℕ) (o : Option ℕ)
    → p ≤ q
    → IsClear name buf p q
    → Walked name buf q end o
    → Walked name buf p end o
Walked-later name buf p q end (some n) le clear (found r n' above below before hit number) =
    found r n (omega arith) below (IsClear-join name buf p q r clear before) hit number
Walked-later name buf p q end none le clear (nowhere rest) =
    nowhere (IsClear-join name buf p q end clear rest)

walk :
    (c : ℕ) (cs : List ℕ) (es : List Entry) (buf : Text) (p end : ℕ)
    → IsName (c ∷ cs)
    → AreEntries es
    → Starts buf p
    → Spells buf p (entries_text es)
    → p + length (entries_text es) ≡ end
    → end < text_size
    → Walked (c ∷ cs) buf p end (lookup (c ∷ cs) es)
unfolding entries_text lookup
walk c cs [] buf p end named are start s same_end small = nowhere (λ i lo hi. absurd (omega arith))
walk c cs (e ∷ es) buf p end named (is, are) start s same_end small =
    let rest = entries_text es in
    let sizes : p + length e.name + e.blanks + length e.number + 1 + length rest ≡ end =
      omega (arith, length-append e.name (tail_text e rest), length-tail e.blanks e.number rest) in
    elim (Bool-cases (same (c ∷ cs) e.name)) [
      | inl it ↦
          let name_is : (c ∷ cs) ≡ e.name = same_lem (c ∷ cs) e.name it in
          rw it (
            found p (number_of e.number 0) (omega arith)
              (omega (arith, ap length name_is, is.parted, sizes)) (λ i lo hi. absurd (omega arith))
              (subst (λ nm. entry_at nm buf p ≡ true) (sym name_is)
                (word_hit e.name e.blanks e.number rest buf p is.parted start s))
              (subst (λ nm. atoi text_size buf (p + length nm) ≡ number_of e.number 0) (sym name_is)
                (atoi_lem text_size buf (p + length e.name) e.blanks e.number rest is.numbered
                  is.counted (Spells-drop buf p e.name (tail_text e rest) s) (omega arith))))
      | inr other ↦
          let q = p + length e.name + e.blanks + length e.number in
          let (clear, s', blank) =
            pass_entry c cs e.name e.blanks e.number rest buf p named is.named is.parted is.numbered
              other s in
          let back : q ≡ q + 1 - 1 = omega arith in
          rw other (
            Walked-later (c ∷ cs) buf p (q + 1) end (lookup (c ∷ cs) es) (omega arith) clear (
              walk c cs es buf (q + 1) end named are (inr (sym (ap buf back) ∙ blank)) s'
                (omega arith) small))
    ]

-- What dir_lookup gives for that.
abbrev pub result_of : Option ℕ → ℕ
result_of none = 2 ^ 32 - 1
result_of (some ino) = ino

search_from :
    (name : List ℕ) (buf : Text) (len : ℕ) (o : Option ℕ)
    → length name ≤ len
    → len < text_size
    → Walked name buf 0 len o
    → (elim (find_from ((len + 2 ^ 32 - length name) % 2 ^ 32) 0 (entry_at name buf)) [
      | none ↦ some (2 ^ 32 - 1)
      | some i ↦ some (atoi text_size buf (i + length name))
    ])
      ≡ some (result_of o)
search_from name buf len (some n) fits small (found r n' above below before hit number) =
    rw
      (find_from-hit ((len + 2 ^ 32 - length name) % 2 ^ 32) 0 (entry_at name buf) r
        (record { above = above; below = omega arith; hit = hit; earliest = before }))
      (ap some number)
search_from name buf len none fits small (nowhere clear) =
    rw
      (find_from-miss ((len + 2 ^ 32 - length name) % 2 ^ 32) 0 (entry_at name buf)
        (λ k lo hi. clear k lo (omega arith)))
      refl

-- In a block that holds the text of some entries, shorter than a block, dir_lookup finds the inode number
-- of the first entry with the name, and -1 if there is none. The names, also the one looked for, do not
-- start with a digit and have no blank; each entry has a blank and a digit at least behind its name; and
-- the name looked for is not longer than the text.
pub dir_lookup-lookup :
    (file_read : ℕ → ℕ → Text) (dir_ino : ℕ) (name : List ℕ) (es : List Entry)
    → IsName name
    → AreEntries es
    → Spells (file_read dir_ino 0) 0 (entries_text es)
    → length (entries_text es) < text_size
    → length name ≤ length (entries_text es)
    → dir_lookup file_read dir_ino name ≡ some (result_of (lookup name es))
unfolding dir_lookup
dir_lookup-lookup file_read dir_ino [] es named are s small fits = absurd named
dir_lookup-lookup file_read dir_ino (c ∷ cs) es named are s small fits =
    let buf = file_read dir_ino 0 in
    let whole : 0 + length (entries_text es) ≡ length (entries_text es) = omega arith in
    rw (strlen-Spells buf text_size 0 (entries_text es) s small ∙ ap some whole, dir_lookup)
      (search_from (c ∷ cs) buf (length (entries_text es)) (lookup (c ∷ cs) es) fits small
        (walk c cs es buf 0 (length (entries_text es)) named are (inl refl) s (omega arith) small))
