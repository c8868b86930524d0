-- ===== src/User/Shell.antt =====
-- The command line of the shell (apps/system/sys_shell.c). A string is the list of its characters before
-- the terminating NUL.
pub mod Parse
pub mod Batch
pub mod Accepts
use egos_upstream.Base.{
  ℕ, ◌+◌, not, Option, none, some, List, [], ◌∷◌, leb, ◌==◌, if◌then◌else◌, update,
}

abbrev pub cmd_nargs : ℕ
cmd_nargs = 16

abbrev pub cmd_arg_len : ℕ
cmd_arg_len = 32

-- `argv` of struct proc_request: rows of characters.
abbrev pub Argv : Type 0
Argv = ℕ → ℕ → ℕ

-- argv[n][i] = c
abbrev pub store : Argv → ℕ → ℕ → ℕ → Argv
store argv n i c = update argv n (update (argv n) i c)

-- The loop of `parse_request`; `none` is its return of -1.
unfoldable pub parse_loop : List ℕ → ℕ → ℕ → Argv → Option (ℕ × ℕ × Argv)
parse_loop [] idx nargs argv = some (idx, nargs, argv)
parse_loop (c ∷ cs) idx nargs argv =
    let in_word = parse_loop cs (idx + 1) nargs (store argv nargs idx c) in
    let end_word = parse_loop cs 0 (nargs + 1) (store argv nargs idx 0) in
    let between = parse_loop cs idx nargs argv in
    if not (c == b' ')
    then (if leb cmd_arg_len (idx + 1) then none else in_word)
    else if not (idx == 0)
    then (if leb cmd_nargs (nargs + 1) then none else end_word)
    else between

-- req->argc = idx ? nargs + 1 : nargs
abbrev pub count_args : ℕ → ℕ → ℕ
count_args idx nargs = if not (idx == 0) then nargs + 1 else nargs

-- The `argc` and `argv` that are filled in, or -1.
unfoldable pub parse_request : List ℕ → Option (ℕ × Argv)
unfolding parse_loop
parse_request buf = elim (parse_loop buf 0 0 (λ n i. 0)) [
  | none ↦ none
  | some (idx, nargs, argv) ↦ some (count_args idx nargs, argv)
]
