-- ===== src/User/Shell/Batch.antt =====
-- Batched commands of the shell: `parse_batch_cmds` (apps/system/sys_shell.c), and the loop of `main`
-- that asks it for the next command until there is none.
use egos_upstream.Base.{
  ℕ, zero, suc, ◌+◌, ◌-◌, ◌≤◌, ◌<◌, ◌≡◌, refl, ap, ◌∙◌, inl, inr, Bool, ◌&&◌, Option, none, some,
  List, [], ◌∷◌, ◌++◌, arith, ltb, ltb_of_lt, ◌==◌, if◌then◌else◌, Bool-cases, ◌>>=◌, update,
  update_self, update_ne, length,
}

abbrev pub max_cmds : ℕ
max_cmds = 10

abbrev pub cmd_len : ℕ
cmd_len = 256

-- buf[i], with the NUL at the end
unfoldable pub char_at : List ℕ → ℕ → ℕ
char_at [] i = 0
char_at (c ∷ cs) zero = c
char_at (c ∷ cs) (suc i) = char_at cs i

unfoldable pub take : ℕ → List ℕ → List ℕ
take zero cs = []
take (suc n) [] = []
take (suc n) (c ∷ cs) = c ∷ take n cs

unfoldable pub tail : List ℕ → List ℕ
tail [] = []
tail (c ∷ cs) = cs

-- strnlen(buf, 256)
unfoldable pub strnlen : List ℕ → ℕ
strnlen buf = if ltb (length buf) cmd_len then length buf else cmd_len

-- The tokens that strtok gives with ";", the first of which goes on from `token`: none is empty.
unfoldable pub tokens_from : List ℕ → List ℕ → List (List ℕ)
tokens_from [] [] = []
tokens_from (a ∷ token) [] = (a ∷ token) ∷ []
tokens_from [] (c ∷ cs) =
    let more = tokens_from (c ∷ []) cs in
    let skip = tokens_from [] cs in if c == b';' then skip else more
tokens_from (a ∷ token) (c ∷ cs) =
    let end = tokens_from [] cs in
    let more = tokens_from (a ∷ (token ++ (c ∷ []))) cs in
    if c == b';' then (a ∷ token) ∷ end else more

unfoldable pub is_batch : List ℕ → Bool
unfolding char_at strnlen
is_batch buf = (char_at buf 0 == b'(') && (char_at buf (strnlen buf - 1) == b')')

-- The static variables: `cmd_idx` is none for -1, and `count` is max_idx + 1.
pub record Batch : Type 0 where
  pub cmds : ℕ → List ℕ
  pub cmd_idx : Option ℕ
  pub count : ℕ

-- strncpy(cmds[num_cmd++], cmd, 256) for each token. `none` is a write past the end of `cmds`, and a
-- string that fills its row with no room for the NUL.
unfoldable pub store_cmds : List (List ℕ) → ℕ → (ℕ → List ℕ) → Option (ℕ × (ℕ → List ℕ))
store_cmds [] num_cmd cmds = some (num_cmd, cmds)
store_cmds (cmd ∷ rest) num_cmd cmds =
    let stored = store_cmds rest (num_cmd + 1) (update cmds num_cmd cmd) in
    if ltb num_cmd max_cmds && ltb (length cmd) cmd_len then stored else none

-- The first half of the function: a new line is split when no command is left over.
unfoldable pub load : List ℕ → Batch → Option Batch
unfolding is_batch tokens_from store_cmds take tail
load buf s = elim s.cmd_idx [
  | none ↦ do
    (num_cmd, cmds) ←
        (if is_batch buf
          then store_cmds (tokens_from [] (tail (take (strnlen buf - 1) buf))) 0 s.cmds
          else store_cmds (buf ∷ []) 0 s.cmds)
    some (record { cmds = cmds; cmd_idx = some 0; count = num_cmd })
  | some i ↦ some s
]

-- The second half: the next command, or NULL.
unfoldable pub next_cmd : Batch → Option (Option (List ℕ) × Batch)
next_cmd s = elim s.cmd_idx [
  | none ↦ none
  | some i ↦
      if ltb i s.count
      then some (some (s.cmds i), record s { cmd_idx = some (i + 1) })
      else if i == s.count
      then some (none, record s { cmd_idx = none; count = 0 })
      else none
]

unfoldable pub parse_batch_cmds : List ℕ → Batch → Option (Option (List ℕ) × Batch)
unfolding load next_cmd
parse_batch_cmds buf s = load buf s >>= next_cmd

-- while ((nextcmd = parse_batch_cmds(buf)) != NULL): the commands met, in order.
unfoldable pub run_cmds : ℕ → List ℕ → Batch → Option (List (List ℕ) × Batch)
unfolding parse_batch_cmds
run_cmds zero buf s = none
run_cmds (suc fuel) buf s = parse_batch_cmds buf s >>= λ (nextcmd, s'). elim nextcmd [
  | none ↦ some ([], s')
  | some cmd ↦ run_cmds fuel buf s' >>= λ (cmds, s''). some (cmd ∷ cmds, s'')
]

-- The commands of a line, apart from the static variables.
unfoldable pub line_cmds : List ℕ → List (List ℕ)
unfolding is_batch tokens_from take tail
line_cmds buf =
    if is_batch buf then tokens_from [] (tail (take (strnlen buf - 1) buf)) else buf ∷ []

abbrev pub AllFit : List (List ℕ) → Type 0
AllFit [] = Unit
AllFit (cmd ∷ rest) = (length cmd < cmd_len) × AllFit rest

-- The rows from `n` on hold the commands.
abbrev pub Stored : (ℕ → List ℕ) → ℕ → List (List ℕ) → Type 0
Stored cmds n [] = Unit
Stored cmds n (cmd ∷ rest) = (cmds n ≡ cmd) × Stored cmds (n + 1) rest

store_cmds-Stored :
    (cs : List (List ℕ)) (n : ℕ) (cmds : ℕ → List ℕ)
    → n + length cs ≤ max_cmds
    → AllFit cs
    → (cmds' : ℕ → List ℕ) × (store_cmds cs n cmds ≡ some (n + length cs, cmds'))
      × Stored cmds' n cs
      × ((i : ℕ) → i < n → cmds' i ≡ cmds i)
unfolding store_cmds
store_cmds-Stored [] n cmds le fit =
    (cmds, ap (λ m. some (m, cmds)) (omega arith), tt, λ i lt. refl)
store_cmds-Stored (c ∷ cs) n cmds le fit =
    let (cmds', e, held, same) =
      store_cmds-Stored cs (n + 1) (update cmds n c) (omega arith) fit.1 in
    (
      cmds',
      rw (ltb_of_lt n max_cmds (omega arith), ltb_of_lt (length c) cmd_len fit.0)
          (e ∙ ap (λ m. some (m, cmds')) (omega arith)),
      (same n (omega arith) ∙ update_self cmds n c, held),
      λ i lt. same i (omega arith) ∙ update_ne cmds c (omega arith),
    )

run_cmds_step :
    (buf : List ℕ) (fuel i count : ℕ) (cmds : ℕ → List ℕ)
    → i < count
    → run_cmds (suc fuel) buf (record { cmds = cmds; cmd_idx = some i; count = count }) ≡ (
        run_cmds fuel buf (record { cmds = cmds; cmd_idx = some (i + 1); count = count })
        >>= λ (rest, s). some (cmds i ∷ rest, s))
unfolding run_cmds parse_batch_cmds load next_cmd
run_cmds_step buf fuel i count cmds lt = rw (ltb_of_lt i count lt) refl

run_cmds_end :
    (buf : List ℕ) (i : ℕ) (cmds : ℕ → List ℕ)
    → run_cmds 1 buf (record { cmds = cmds; cmd_idx = some i; count = i })
      ≡ some ([], record { cmds = cmds; cmd_idx = none; count = 0 })
unfolding run_cmds parse_batch_cmds load next_cmd
run_cmds_end buf i cmds = ground arith

-- From command `i` on, the loop meets the commands that are left and ends.
run_cmds-Stored :
    (buf : List ℕ) (cs : List (List ℕ)) (i count : ℕ) (cmds : ℕ → List ℕ)
    → count ≡ i + length cs
    → Stored cmds i cs
    → run_cmds (suc (length cs)) buf (record { cmds = cmds; cmd_idx = some i; count = count })
      ≡ some (cs, record { cmds = cmds; cmd_idx = none; count = 0 })
run_cmds-Stored buf [] i count cmds e held =
    let e' : count ≡ i = omega arith in rw e' (run_cmds_end buf i cmds)
run_cmds-Stored buf (c ∷ cs) i count cmds e held =
    let rest = run_cmds-Stored buf cs (i + 1) count cmds (omega arith) held.1 in
    run_cmds_step buf (suc (length cs)) i count cmds (omega arith) ∙ rw (rest, held.0) refl

load_line :
    (buf : List ℕ) (s : Batch)
    → s.cmd_idx ≡ none
    → load buf s ≡ (
        store_cmds (line_cmds buf) 0 s.cmds >>= λ (num_cmd, cmds).
        some (record { cmds = cmds; cmd_idx = some 0; count = num_cmd }))
unfolding load line_cmds
load_line buf s fresh =
    rw fresh
      (elim (Bool-cases (is_batch buf)) [ inl batch ↦ rw batch refl | inr single ↦ rw single refl ])

run_cmds_loaded :
    (fuel : ℕ) (buf : List ℕ) (s s' : Batch) (i : ℕ)
    → load buf s ≡ some s'
    → s'.cmd_idx ≡ some i
    → run_cmds (suc fuel) buf s ≡ run_cmds (suc fuel) buf s'
unfolding run_cmds parse_batch_cmds
run_cmds_loaded fuel buf s s' i e idx =
    let e' : load buf s' ≡ some s' = unfold load in rw idx refl in rw (e, e') refl

-- Between two lines the shell has no command left over. On a line of at most ten commands, each of
-- less than 256 characters, its loop of calls of `parse_batch_cmds` meets these commands, in order and
-- each once, and then NULL, after which no command is left over again.
pub run_cmds-line_cmds :
    (buf : List ℕ) (s : Batch)
    → s.cmd_idx ≡ none
    → length (line_cmds buf) ≤ max_cmds
    → AllFit (line_cmds buf)
    → (s' : Batch) × (run_cmds (suc (length (line_cmds buf))) buf s ≡ some (line_cmds buf, s'))
      × (s'.cmd_idx ≡ none)
run_cmds-line_cmds buf s fresh few fit =
    let (cmds, e, held, same) = store_cmds-Stored (line_cmds buf) 0 s.cmds (omega arith) fit in
    let count = length (line_cmds buf) in
    let s1 : Batch = record { cmds = cmds; cmd_idx = some 0; count = 0 + count } in
    let loaded : load buf s ≡ some s1 = (load_line buf s fresh ∙ rw e refl) in
    (
      record { cmds = cmds; cmd_idx = none; count = 0 },
      run_cmds_loaded count buf s s1 0 loaded refl
          ∙ run_cmds-Stored buf (line_cmds buf) 0 (0 + count) cmds refl held,
      refl,
    )
