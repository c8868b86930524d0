-- ===== src/User/Shell/Accepts.antt =====
-- `parse_request` accepts every command line that fits.
use egos_upstream.Base.{
  ℕ, ◌+◌, ◌≤◌, ◌<◌, ◌≡◌, refl, ap, ◌∙◌, inl, inr, false, some, List, [], ◌∷◌, ◌++◌, arith, leb,
  ◌==◌, ==_false, Bool-cases, length, length-append, length-append,
}
use egos_upstream.User.Shell.{
  cmd_nargs, cmd_arg_len, Argv, store, parse_loop, count_args, parse_request,
}
use egos_upstream.User.Shell.Parse.{words_from, words, Rows, parse_request-words}

-- Every word leaves room for its NUL.
abbrev pub AllShort : List (List ℕ) → Type 0
AllShort [] = Unit
AllShort (w ∷ ws) = (length w < cmd_arg_len) × AllShort ws

-- A word only grows.
words_from-first :
    (cs : List ℕ) (a : ℕ) (word : List ℕ)
    → AllShort (words_from (a ∷ word) cs)
    → (length word + 1 < cmd_arg_len) × (1 ≤ length (words_from (a ∷ word) cs))
unfolding words_from
words_from-first [] a word short = (omega (arith, short.0), omega arith)
words_from-first (c ∷ cs) a word short = elim (Bool-cases (c == b' ')) [
  | inl space ↦
      let short' : AllShort ((a ∷ word) ∷ words_from [] cs) = (rw space at short) in
      rw space (omega (arith, short'.0), omega arith)
  | inr char ↦
      let more = words_from-first cs a (word ++ (c ∷ [])) (rw char at short) in
      rw char (omega (arith, more.0, length-append word (c ∷ [])), more.1)
]

parse_loop_total :
    (cs word : List ℕ) (idx nargs : ℕ) (argv : Argv)
    → idx ≡ length word
    → AllShort (words_from word cs)
    → nargs + length (words_from word cs) < cmd_nargs
    → (r : ℕ × ℕ × Argv) × (parse_loop cs idx nargs argv ≡ some r)
unfolding parse_loop words_from
parse_loop_total [] word idx nargs argv e short few = ((idx, nargs, argv), refl)
parse_loop_total (c ∷ cs) [] idx nargs argv e short few = elim (Bool-cases (c == b' ')) [
  | inl space ↦
      rw (space, e) (parse_loop_total cs [] 0 nargs argv refl (rw space at short) (rw space at few))
  | inr char ↦
      rw (char, e)
        (parse_loop_total cs (c ∷ []) 1 nargs (store argv nargs 0 c) refl (rw char at short)
          (rw char at few))
]
parse_loop_total (c ∷ cs) (a ∷ word) idx nargs argv e short few = elim (Bool-cases (c == b' ')) [
  | inl space ↦
      let short' : AllShort ((a ∷ word) ∷ words_from [] cs) = (rw space at short) in
      let few' : nargs + length ((a ∷ word) ∷ words_from [] cs) < cmd_nargs = (rw space at few) in
      let started : (idx == 0) ≡ false = ==_false idx 0 (omega arith) in
      let room : leb cmd_nargs (nargs + 1) ≡ false = ground (arith, few') in
      rw (space, started, room)
        (parse_loop_total cs [] 0 (nargs + 1) (store argv nargs idx 0) refl short'.1
          (omega (arith, few')))
  | inr char ↦
      let longer = words_from-first cs a (word ++ (c ∷ [])) (rw char at short) in
      let room : leb cmd_arg_len (idx + 1) ≡ false =
        ground (arith, longer.0, length-append word (c ∷ []), e) in
      rw (char, room)
        (parse_loop_total cs (a ∷ (word ++ (c ∷ []))) (idx + 1) nargs (store argv nargs idx c)
          (omega (arith, e, length-append word (c ∷ []))) (rw char at short) (rw char at few))
]

parse_request_done :
    (buf : List ℕ) (idx nargs : ℕ) (argv : Argv)
    → parse_loop buf 0 0 (λ n i. 0) ≡ some (idx, nargs, argv)
    → parse_request buf ≡ some (count_args idx nargs, argv)
unfolding parse_request
parse_request_done buf idx nargs argv e = rw (e, parse_request) refl

-- A command line of less than CMD_NARGS words, each of less than CMD_ARG_LEN characters, is accepted:
-- `argc` is the number of its words, and the first rows of `argv` are these words in order.
pub parse_request_total :
    (buf : List ℕ)
    → AllShort (words buf)
    → length (words buf) < cmd_nargs
    → (argv : Argv) × (parse_request buf ≡ some (length (words buf), argv))
      × Rows argv 0 (words buf)
parse_request_total buf short few =
    let few' : length (words_from [] buf) < cmd_nargs = (unfold words in few) in
    let ((idx, nargs, argv), done) =
      parse_loop_total buf [] 0 0 (λ n i. 0) refl (unfold words in short) (omega (arith, few')) in
    let e : parse_request buf ≡ some (count_args idx nargs, argv) =
      parse_request_done buf idx nargs argv done in
    let (argc, rows) = parse_request-words buf (count_args idx nargs) argv e in
    (argv, e ∙ ap (λ n. some (n, argv)) argc, rows)
