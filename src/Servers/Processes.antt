-- ===== src/Servers/Processes.antt =====
-- The process server (apps/system/sys_proc.c): the requests of its loop, and `app_spawn`. It acts on the
-- kernel and on memory through `grass` and `earth`. `none` is a server that stops in `FATAL`.
pub mod Waiting
use egos_upstream.Base.{
  ℕ, zero, suc, ◌+◌, ◌-◌, ◌/◌, ◌%◌, ◌^◌, Bool, not, ◌&&◌, Option, none, some, List, [], ◌∷◌, leb,
  ◌==◌, if◌then◌else◌, ◌>>=◌, ltb, for_range,
}
use egos_upstream.Mem.Frames.{Mmu, Contents}
use egos_upstream.Kernel.State.{Kernel, Procs, gpid_all, max_nprocess, is_user, is_unused}
use egos_upstream.Mem.SoftTlb.{soft_tlb_free}
use egos_upstream.Kernel.Process.{proc_alloc, proc_free, proc_set_ready}
use egos_upstream.User.Shell.{Argv, cmd_arg_len, cmd_nargs}
use egos_upstream.User.Elf.{elf_load}
use egos_upstream.Servers.Directory.{dir_lookup}

abbrev pub gpid_shell : ℕ
gpid_shell = 4

-- The types of requests and of replies.
abbrev pub proc_spawn : ℕ
proc_spawn = 0

abbrev pub proc_exit : ℕ
proc_exit = 1

abbrev pub proc_killall : ℕ
proc_killall = 2

abbrev pub cmd_ok : ℕ
cmd_ok = 0

abbrev pub cmd_error : ℕ
cmd_error = 1

pub record ProcRequest : Type 0 where
  pub type : ℕ
  pub argc : ℕ
  pub argv : Argv

-- The server's variables, what it acts on, and the messages that it has sent, latest first: a receiver
-- and the type of a reply.
pub record Server : Type 0 where
  pub kernel : Kernel
  pub mmu : Mmu
  pub app_ino : ℕ
  pub app_pid : ℕ
  pub shell_waiting : Bool
  pub sent : List (ℕ × ℕ)

abbrev pub reply_shell : ℕ → Server → Server
reply_shell type s = record s { sent = (gpid_shell, type) ∷ s.sent }

-- req->argv[req->argc - 1][0] == '&'. With argc 0 the row is before the array: `outside` says with what a
-- row begins that is not one of the array's, in the memory of the program that reads it.
abbrev pub is_background : (ℕ → ℕ) → ProcRequest → Bool
is_background outside req =
    let row = (req.argc + 2 ^ 32 - 1) % 2 ^ 32 in
    (if ltb row cmd_nargs then req.argv row 0 else outside row) == b'&'

-- The pages of the processes that `proc_free` ends: its calls of earth->mmu_free.
unfoldable pub free_pages_body : Procs → ℕ → Option Mmu → Option Mmu
free_pages_body procs i o = o >>= λ mmu.
    if is_user (procs i).pid && not (is_unused (procs i).status)
    then soft_tlb_free (procs i).pid mmu
    else some mmu

unfoldable pub free_pages : ℕ → Procs → Mmu → Option Mmu
unfolding free_pages_body
free_pages pid procs mmu =
    if not (pid == gpid_all)
    then soft_tlb_free pid mmu
    else for_range max_nprocess 0 (free_pages_body procs) (some mmu)

-- grass->proc_free, with its effect on memory.
unfoldable pub grass_proc_free : ℕ → Server → Option Server
unfolding free_pages
grass_proc_free pid s = do
  mmu ← free_pages pid s.kernel.proc_set s.mmu
  some (record s { kernel = proc_free pid s.kernel; mmu = mmu })

-- The characters of a row before its NUL.
unfoldable pub row_from : ℕ → (ℕ → ℕ) → ℕ → List ℕ
row_from zero row i = []
row_from (suc fuel) row i =
    let rest = row_from fuel row (i + 1) in if row i == 0 then [] else row i ∷ rest

-- The rows of `argv` as they stand in memory.
abbrev pub bytes_of : Argv → Contents
bytes_of argv i = argv (i / cmd_arg_len) (i % cmd_arg_len)

-- `file_read` gives what the call leaves in a block, for an inode and an offset. A negative inode
-- number is a program that is not found.
module _ (file_read : ℕ → ℕ → Contents) (outside : ℕ → ℕ) where
  unfoldable pub app_spawn : ProcRequest → Server → Option (ℕ × Server)
  unfolding row_from
  app_spawn req s = do
    bin_ino ← dir_lookup file_read 0 (b'b' ∷ b'i' ∷ b'n' ∷ b'/' ∷ [])
    app_ino ← dir_lookup file_read bin_ino (row_from cmd_arg_len (req.argv 0) 0)
    let found = record s { app_ino = app_ino }
    let argc = if is_background outside req then (req.argc + 2 ^ 32 - 1) % 2 ^ 32 else req.argc
    let load = (do
      (app_pid, kernel) ← proc_alloc s.kernel
      mmu ← elf_load app_pid (file_read app_ino) argc (some (bytes_of req.argv)) s.mmu
      some (
        cmd_ok,
        record found { app_pid = app_pid; kernel = proc_set_ready app_pid kernel; mmu = mmu },
      ))
    if leb (2 ^ 31) app_ino then some (cmd_error, found) else load

  -- One turn of the loop, for a request from `sender`. The reply is made in the buffer of the request,
  -- so the one for an exit has the type of the request.
  unfoldable pub serve : ℕ → ProcRequest → Server → Option Server
  unfolding app_spawn grass_proc_free
  serve sender req s =
      let spawned = (do
        (type, s') ← app_spawn req s
        some (
            reply_shell type (record s' {
              shell_waiting = not (is_background outside req) && (type == cmd_ok);
            }))) in
      let answered = (do
        freed ← grass_proc_free sender s
        some (
            if freed.shell_waiting && (freed.app_pid == sender)
            then reply_shell proc_exit freed
            else freed)) in
      if req.type == proc_spawn
      then spawned
      else if req.type == proc_exit
      then answered
      else if req.type == proc_killall
      then grass_proc_free gpid_all s
      else none
