-- ===== src/Servers/Shell.antt =====
-- The commands of the shell's loop (apps/system/sys_shell.c), and that the shell waits for as many
-- messages as the process server sends it.
use egos_upstream.Base.{
  ℕ, Bool, true, false, not, ◌&&◌, Option, none, some, List, [], ◌∷◌, ◌==◌, if◌then◌else◌,
}
use egos_upstream.Mem.Frames.{Contents}
use egos_upstream.User.Shell.{parse_request}
use egos_upstream.Servers.Processes.{
  reply_shell, proc_spawn, proc_killall, cmd_ok, ProcRequest, Server, is_background,
}

-- strcmp(a, b) == 0
unfoldable pub same_string : List ℕ → List ℕ → Bool
same_string [] [] = true
same_string [] (d ∷ ds) = false
same_string (c ∷ cs) [] = false
same_string (c ∷ cs) (d ∷ ds) = (c == d) && same_string cs ds

-- The request that a command is sent as, if it is. `junk` is what the stack holds where the request is.
unfoldable pub shell_request : ProcRequest → List ℕ → Option ProcRequest
unfolding same_string
shell_request junk nextcmd =
    let spawn : Option ProcRequest = elim (parse_request nextcmd) [
      | none ↦ none
      | some (argc, argv) ↦ some (record { type = proc_spawn; argc = argc; argv = argv })
    ] in
    if same_string nextcmd (b'c' ∷ b'o' ∷ b'r' ∷ b'e' ∷ b's' ∷ b'i' ∷ b'n' ∷ b'f' ∷ b'o' ∷ [])
    then none
    else if same_string nextcmd (b'k' ∷ b'i' ∷ b'l' ∷ b'l' ∷ b'a' ∷ b'l' ∷ b'l' ∷ [])
    then some (record junk { type = proc_killall })
    else if same_string nextcmd (b'p' ∷ b'w' ∷ b'd' ∷ [])
    then none
    else spawn

-- How many messages the shell receives for a request, when the first has this type. `outside` is as for
-- `is_background`, in the shell's memory.
unfoldable pub awaited : (ℕ → ℕ) → ProcRequest → ℕ → ℕ
awaited outside req type =
    if req.type == proc_spawn
    then if type == cmd_ok then if not (is_background outside req) then 2 else 1 else 1
    else 0

-- The exit of a program that was started.
abbrev pub exit_of : ℕ → ℕ → ProcRequest → List (ℕ × ProcRequest)
exit_of type pid exit = if type == cmd_ok then (pid, exit) ∷ [] else []

module _ (file_read : ℕ → ℕ → Contents) (ours theirs : ℕ → ℕ) where
  abbrev refused : ℕ → Server → Server
  refused type s = reply_shell type (record s { shell_waiting = false })
