-- ===== src/User/Shell/Parse.antt =====
-- `parse_request` splits a command line into its words.
use egos_upstream.Base.{
  ℕ, ◌+◌, ◌≤◌, ◌<◌, ◌≡◌, refl, ◌∙◌, inl, inr, true, false, none, some, List, [], ◌∷◌, ◌++◌, arith,
  leb, ◌==◌, if◌then◌else◌, Bool-cases, Option-cases, update, update_self, update_ne, length,
  length-append,
}
use mathlib.Core.Path.{subst}
use mathlib.Core.Option.{some-injective}
use egos_upstream.User.Shell.{
  cmd_nargs, cmd_arg_len, Argv, store, parse_loop, count_args, parse_request,
}

-- The words of `cs`, of which the first goes on from `word`.
unfoldable pub words_from : List ℕ → List ℕ → List (List ℕ)
words_from [] [] = []
words_from (a ∷ word) [] = (a ∷ word) ∷ []
words_from [] (c ∷ cs) =
    let more = words_from (c ∷ []) cs in
    let skip = words_from [] cs in if c == b' ' then skip else more
words_from (a ∷ word) (c ∷ cs) =
    let end = words_from [] cs in
    let more = words_from (a ∷ (word ++ (c ∷ []))) cs in
    if c == b' ' then (a ∷ word) ∷ end else more

-- The words between the spaces of a line.
unfoldable pub words : List ℕ → List (List ℕ)
words cs = words_from [] cs

-- The row holds the characters of `w` from index `i` on.
abbrev pub Prefix : (ℕ → ℕ) → ℕ → List ℕ → Type 0
Prefix row i [] = Unit
Prefix row i (c ∷ w) = (row i ≡ c) × Prefix row (i + 1) w

-- The row is the C string `w`, and leaves room in its 32 bytes for the NUL.
abbrev pub Holds : (ℕ → ℕ) → List ℕ → Type 0
Holds row w = Prefix row 0 w × (row (length w) ≡ 0) × (length w < cmd_arg_len)

-- The rows from `n` on are the strings `ws`.
abbrev pub Rows : Argv → ℕ → List (List ℕ) → Type 0
Rows argv n [] = Unit
Rows argv n (w ∷ ws) = Holds (argv n) w × Rows argv (n + 1) ws

Prefix_snoc :
    (row : ℕ → ℕ) (i j : ℕ) (w : List ℕ) (c : ℕ)
    → j ≡ i + length w
    → Prefix row i w
    → Prefix (update row j c) i (w ++ (c ∷ []))
Prefix_snoc row i j [] c e h = (ground arith, tt)
Prefix_snoc row i j (a ∷ w) c e h =
    (ground (arith, h.0), Prefix_snoc row (i + 1) j w c (omega arith) h.1)

Prefix_frame :
    (row : ℕ → ℕ) (i j : ℕ) (w : List ℕ) (c : ℕ)
    → i + length w ≤ j
    → Prefix row i w
    → Prefix (update row j c) i w
Prefix_frame row i j [] c le h = tt
Prefix_frame row i j (a ∷ w) c le h =
    (ground (arith, h.0), Prefix_frame row (i + 1) j w c (omega arith) h.1)

-- The state of the loop: `idx` characters of `word` stand in row `nargs`, and nothing after them.
record IsScanning (word : List ℕ) (idx nargs : ℕ) (argv : Argv) : Type 0 where
  count : idx ≡ length word
  short : idx < cmd_arg_len
  started : Prefix (argv nargs) 0 word
  rest : (i : ℕ) → idx ≤ i → argv nargs i ≡ 0
  later : (n i : ℕ) → nargs < n → argv n i ≡ 0

-- What the loop has come to.
record Parsed (word cs : List ℕ) (nargs : ℕ) (argv : Argv) (idx' nargs' : ℕ) (argv' : Argv)
    : Type 0 where
  argc : count_args idx' nargs' ≡ nargs + length (words_from word cs)
  rows : Rows argv' nargs (words_from word cs)
  same : (n : ℕ) → n < nargs → argv' n ≡ argv n

-- One more character of a word.
scan_char :
    (c : ℕ) (word : List ℕ) (idx nargs : ℕ) (argv : Argv)
    → idx + 1 < cmd_arg_len
    → IsScanning word idx nargs argv
    → IsScanning (word ++ (c ∷ [])) (idx + 1) nargs (store argv nargs idx c)
scan_char c word idx nargs argv lt h = record {
  count = omega (arith, length-append word (c ∷ []), h.count);
  short = lt;
  started =
      rw (update_self argv nargs (update (argv nargs) idx c))
        (Prefix_snoc (argv nargs) 0 idx word c (omega (arith, h.count)) h.started);
  rest = λ i le. ground (arith, h.rest i);
  later = λ n i l. ground (arith, h.later n i);
}

-- The end of a word.
scan_end :
    (word : List ℕ) (idx nargs : ℕ) (argv : Argv)
    → IsScanning word idx nargs argv
    → IsScanning [] 0 (nargs + 1) (store argv nargs idx 0)
      × Holds (store argv nargs idx 0 nargs) word
scan_end word idx nargs argv h = (
  record {
    count = refl;
    short = omega arith;
    started = tt;
    rest = λ i le. ground (arith, h.later (nargs + 1) i);
    later = λ n i l. ground (arith, h.later n i);
  },
  rw (update_self argv nargs (update (argv nargs) idx 0)) (
    Prefix_frame (argv nargs) 0 idx word 0 (omega (arith, h.count)) h.started,
    ground (arith, h.count),
    omega (arith, h.count, h.short),
  ),
)

words_from-char :
    (word cs : List ℕ) (c : ℕ)
    → (c == b' ') ≡ false
    → words_from word (c ∷ cs) ≡ words_from (word ++ (c ∷ [])) cs
unfolding words_from
words_from-char [] cs c e = rw e
words_from-char (a ∷ word) cs c e = rw e

words_from-end :
    (word cs : List ℕ) (c : ℕ)
    → (c == b' ') ≡ true
    → (length word == 0) ≡ false
    → words_from word (c ∷ cs) ≡ word ∷ words_from [] cs
unfolding words_from
words_from-end [] cs c e ne = cc
words_from-end (a ∷ word) cs c e ne = rw e

words_from-space :
    (word cs : List ℕ) (c : ℕ)
    → (c == b' ') ≡ true
    → (length word == 0) ≡ true
    → words_from word (c ∷ cs) ≡ words_from word cs
unfolding words_from
words_from-space [] cs c e z = rw e
words_from-space (a ∷ word) cs c e z = absurd (ground arith)

parse_done :
    (word : List ℕ) (idx nargs : ℕ) (argv : Argv)
    → IsScanning word idx nargs argv
    → Parsed word [] nargs argv idx nargs argv
unfolding words_from
parse_done [] idx nargs argv h = record {
  argc = ground (arith, h.count);
  rows = tt;
  same = λ n lt. refl;
}
parse_done (a ∷ word) idx nargs argv h = record {
  argc = ground (arith, h.count);
  rows = (
    (
      h.started,
      h.rest (length (a ∷ word)) (omega (arith, h.count)),
      omega (arith, h.count, h.short),
    ),
    tt,
  );
  same = λ n lt. refl;
}

Parsed-char :
    (word cs : List ℕ) (c idx nargs : ℕ) (argv : Argv) (idx' nargs' : ℕ) (argv' : Argv)
    → (c == b' ') ≡ false
    → Parsed (word ++ (c ∷ [])) cs nargs (store argv nargs idx c) idx' nargs' argv'
    → Parsed word (c ∷ cs) nargs argv idx' nargs' argv'
Parsed-char word cs c idx nargs argv idx' nargs' argv' e p =
    let same_words = words_from-char word cs c e in
    record {
      argc = rw same_words p.argc;
      rows = rw same_words p.rows;
      same = λ n lt. p.same n lt ∙ update_ne argv (update (argv nargs) idx c) (omega arith);
    }

Parsed-end :
    (word cs : List ℕ) (c idx nargs : ℕ) (argv : Argv) (idx' nargs' : ℕ) (argv' : Argv)
    → (c == b' ') ≡ true
    → (length word == 0) ≡ false
    → Holds (store argv nargs idx 0 nargs) word
    → Parsed [] cs (nargs + 1) (store argv nargs idx 0) idx' nargs' argv'
    → Parsed word (c ∷ cs) nargs argv idx' nargs' argv'
Parsed-end word cs c idx nargs argv idx' nargs' argv' e ne holds p =
    let same_words = words_from-end word cs c e ne in
    record {
      argc = rw same_words (omega (arith, p.argc));
      rows = rw (same_words, p.same nargs (omega arith)) (holds, p.rows);
      same =
          λ n lt. p.same n (omega arith) ∙ update_ne argv (update (argv nargs) idx 0) (omega arith);
    }

Parsed-space :
    (word cs : List ℕ) (c nargs : ℕ) (argv : Argv) (idx' nargs' : ℕ) (argv' : Argv)
    → (c == b' ') ≡ true
    → (length word == 0) ≡ true
    → Parsed word cs nargs argv idx' nargs' argv'
    → Parsed word (c ∷ cs) nargs argv idx' nargs' argv'
Parsed-space word cs c nargs argv idx' nargs' argv' e z p =
    let same_words = words_from-space word cs c e z in
    record { argc = rw same_words p.argc; rows = rw same_words p.rows; same = p.same }

parse_loop-Parsed :
    (cs word : List ℕ) (idx nargs : ℕ) (argv : Argv) (idx' nargs' : ℕ) (argv' : Argv)
    → IsScanning word idx nargs argv
    → parse_loop cs idx nargs argv ≡ some (idx', nargs', argv')
    → Parsed word cs nargs argv idx' nargs' argv'
unfolding parse_loop
parse_loop-Parsed [] word idx nargs argv idx' nargs' argv' h e =
    let same : Path (ℕ × ℕ × Argv) (idx, nargs, argv) (idx', nargs', argv') =
      some-injective _ _ e in
    subst (λ (r : ℕ × ℕ × Argv). Parsed word [] nargs argv r.0 r.1 r.2) same
      (parse_done word idx nargs argv h)
parse_loop-Parsed (c ∷ cs) word idx nargs argv idx' nargs' argv' h e =
    elim (Bool-cases (c == b' ')) [
      | inl space ↦ elim (Bool-cases (idx == 0)) [
        | inl between ↦
            Parsed-space word cs c nargs argv idx' nargs' argv' space (rw (← h.count) between) (
              parse_loop-Parsed cs word idx nargs argv idx' nargs' argv' h
                (rw (space, between) at e))
        | inr ends ↦ elim (Bool-cases (leb cmd_nargs (nargs + 1))) [
          | inl full ↦
              let bad : none ≡ some (idx', nargs', argv') = (rw (space, ends, full) at e) in cc
          | inr room ↦
              let (h', holds) = scan_end word idx nargs argv h in
              Parsed-end word cs c idx nargs argv idx' nargs' argv' space (rw (← h.count) ends)
                holds
                (parse_loop-Parsed cs [] 0 (nargs + 1) (store argv nargs idx 0) idx' nargs' argv' h'
                  (rw (space, ends, room) at e))
        ]
      ]
      | inr char ↦ elim (Bool-cases (leb cmd_arg_len (idx + 1))) [
        | inl long ↦ let bad : none ≡ some (idx', nargs', argv') = (rw (char, long) at e) in cc
        | inr room ↦ Parsed-char word cs c idx nargs argv idx' nargs' argv' char (
            parse_loop-Parsed cs (word ++ (c ∷ [])) (idx + 1) nargs (store argv nargs idx c) idx'
              nargs' argv' (scan_char c word idx nargs argv (ground arith) h)
              (rw (char, room) at e))
      ]
    ]

at_start : IsScanning [] 0 0 (λ n i. 0)
at_start = record {
  count = refl;
  short = omega arith;
  started = tt;
  rest = λ i le. refl;
  later = λ n i lt. refl;
}

-- When `parse_request` succeeds, `argc` is the number of words of the line, and the first rows of
-- `argv` are those words in order, each a C string of less than CMD_ARG_LEN characters.
pub parse_request-words :
    (buf : List ℕ) (argc : ℕ) (argv : Argv)
    → parse_request buf ≡ some (argc, argv)
    → (argc ≡ length (words buf)) × Rows argv 0 (words buf)
unfolding parse_request words
parse_request-words buf argc argv e = elim (Option-cases (parse_loop buf 0 0 (λ n i. 0))) [
  | inl failed ↦ let bad : none ≡ some (argc, argv) = (rw (failed, parse_request) at e) in cc
  | inr ((idx, nargs, argv'), done) ↦
      let e' : some (count_args idx nargs, argv') ≡ some (argc, argv) =
        (rw (done, parse_request) at e) in
      let same : Path (ℕ × Argv) (count_args idx nargs, argv') (argc, argv) =
        some-injective _ _ e' in
      let p = parse_loop-Parsed buf [] 0 0 (λ n i. 0) idx nargs argv' at_start done in
      subst (λ (r : ℕ × Argv). (r.0 ≡ length (words buf)) × Rows r.1 0 (words buf)) same
        (omega (arith, p.argc), p.rows)
]
