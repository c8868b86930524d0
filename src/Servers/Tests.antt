-- ===== src/Servers/Tests.antt =====
-- Concrete runs of the servers.
use egos_upstream.Base.{
  ltb, ◌∙◌, ℕ, ◌+◌, ◌-◌, ◌^◌, ◌≡◌, refl, ap, inl, Bool, true, false, not, ◌&&◌, Option, none, some,
  List, [], ◌∷◌, ◌++◌, arith, ◌==◌, if◌then◌else◌, eq_of_==, length, for_range, find_from,
}
use egos_upstream.Mem.Frames.{
  Mmu, Contents, pmalloc, pmalloc_at, pgid_to_paddr, paddr_to_pgid, mmu_alloc,
}
use egos_upstream.Mem.Bitmap.{bitmap_set, bitmap_test}
use egos_upstream.Mem.SoftTlb.Free.{OwnsNothing}
use egos_upstream.Mem.SoftTlb.{soft_tlb_map}
use egos_upstream.Kernel.State.{Kernel, Syscall, unused}
use egos_upstream.Kernel.Process.{proc_alloc, proc_alloc_at}
use egos_upstream.Fs.Store.{Block, Disk}
use egos_upstream.Fs.Disks.{file_sys_disk_start, rom_disk, rom_disk-Readable}
use egos_upstream.Fs.Init.{treedisk_init}
use egos_upstream.Fs.Read.Lookup.{file_block}
use egos_upstream.User.Elf.{elf_load, load_segments, half_at, map_rest, map_page}
use egos_upstream.User.Shell.Batch.{char_at}
use egos_upstream.Servers.Files.{serve_file, file_read, IsAnswer, file_read-IsAnswer}
use egos_upstream.Servers.Directory.{strlen, dir_lookup, matches, entry_at, atoi, digits}
use egos_upstream.Servers.Processes.{
  ProcRequest, Server, proc_spawn, proc_exit, proc_killall, cmd_ok, gpid_shell, row_from, app_spawn,
  is_background,
}
use egos_upstream.User.Shell.{parse_request, parse_loop}
use egos_upstream.Servers.WorkingDir.{WorkDir, spelled, cd, moved, cd-moved}
use egos_upstream.Servers.Shell.{shell_request, same_string}
use egos_upstream.Servers.Processes.Waiting.{serve_all, owed, serve_all-owed}
use egos_upstream.Servers.Directory.Entries.{spaces, lookup, Entry, entries_text, AreEntries}
use egos_upstream.User.Print.{Platform}
use egos_upstream.User.Print.Log.{buf_size}
use egos_upstream.Servers.Programs.{new_line, chars_from, ls, without_numbers, ls_lem}
use egos_upstream.Servers.Directory.Lookup.{result_of, dir_lookup-lookup}
use egos_upstream.Servers.Directory.Bytes.{
  Spells-char_at, AreSet-entries, are_plain, are_plain-IsPlain,
}

-- A file system with one inode block, and a file of one block.
abbrev disk : Disk
disk b =
    if b == 0
    then (λ i. if i == 0 then 1 else 0)
    else if b == 1
    then (λ i. if i == 0 then 2 else if i == 1 then 1 else 0)
    else (λ i. 42)

-- The ROM that holds it.
abbrev rom : Disk
rom b = disk (b - file_sys_disk_start)

file_read-IsAnswer_example :
    (answer : ℕ × Block) × (file_read
        (serve_file (treedisk_init rom_disk 0) (λ req i. 0) rom)
        (λ i. 0)
        0
        0
      ≡ some answer)
    × IsAnswer (file_block ((rom_disk-Readable 0).view rom) 0 0) answer
file_read-IsAnswer_example =
    file_read-IsAnswer rom_disk 0 (rom_disk-Readable 0) (λ req i. 0) (λ i. 0) rom 0 0

-- The root directory has bin/, and that has the program a.
abbrev files : ℕ → ℕ → Contents
files ino offset =
    if ino == 0
    then char_at (b'b' ∷ b'i' ∷ b'n' ∷ b'/' ∷ b' ' ∷ b' ' ∷ b'5' ∷ b' ' ∷ [])
    else if ino == 5
    then char_at (b'b' ∷ b'a' ∷ b' ' ∷ b'8' ∷ b' ' ∷ b'a' ∷ b' ' ∷ b'6' ∷ b' ' ∷ [])
    else (λ i. 0)

dir_lookup_a : dir_lookup files 5 (b'a' ∷ []) ≡ some 6
unfolding dir_lookup entry_at matches atoi digits char_at find_from
dir_lookup_a = refl

abbrev no_call : Syscall
no_call = record { type = 0; sender = 0; receiver = 0; content = λ i. 0; status = 0 }

abbrev kernel : Kernel
kernel = record {
  core_in_kernel = 0;
  core_to_proc_idx = λ core. 0;
  proc_set = λ i. record {
    pid = 0;
    syscall = no_call;
    status = unused;
    mepc = 0;
    saved_registers = λ i. 0;
  };
  user = λ pid. no_call;
  calls = [];
  tty = [];
  msip = λ core. 0;
}

abbrev mmu : Mmu
mmu = record {
  bitmap = λ i. 0;
  page_info_table = λ i. record { pid = 0; vpage_no = 0 };
  curr_vm_pid = 1;
  mem = λ p o. 0;
}

abbrev server : Server
server = record {
  kernel = kernel;
  mmu = mmu;
  app_ino = 0;
  app_pid = 0;
  shell_waiting = false;
  sent = [];
}

-- Nothing but null bytes outside a request.
abbrev no_more : ℕ → ℕ
no_more row = 0

-- The command a.
abbrev spawn : ProcRequest
spawn = record {
  type = proc_spawn;
  argc = 1;
  argv = λ n i. if (n == 0) && (i == 0) then b'a' else 0;
}

abbrev of_type : ℕ → ProcRequest
of_type type = record { type = type; argc = 0; argv = λ n i. 0 }

abbrev starts : Option (ℕ × Server) → Bool
starts none = false
starts (some (type, s)) = type == cmd_ok

starts-spawn : starts (app_spawn files no_more spawn server) ≡ true
unfolding app_spawn row_from dir_lookup entry_at matches atoi digits char_at find_from proc_alloc
    proc_alloc_at elf_load load_segments half_at map_rest map_page mmu_alloc pmalloc pmalloc_at
    pgid_to_paddr paddr_to_pgid bitmap_set bitmap_test for_range soft_tlb_map
starts-spawn = refl

some_of_starts : (o : Option (ℕ × Server)) → starts o ≡ true → (s : Server) × (o ≡ some (cmd_ok, s))
some_of_starts none e = cc
some_of_starts (some (type, s)) e = (s, ap (λ type. some (type, s)) (eq_of_== type cmd_ok e))

spawned : (s : Server) × (app_spawn files no_more spawn server ≡ some (cmd_ok, s))
spawned = some_of_starts (app_spawn files no_more spawn server) starts-spawn

serve_all-owed_example :
    (s' : Server) × (serve_all files no_more
        ((4, spawn)
          ∷ (((4, of_type proc_killall) ∷ []) ++ ((spawned.0.app_pid, of_type proc_exit) ∷ [])))
        server
      ≡ some s')
    × (s'.sent ≡ owed (not (is_background no_more spawn)) ++ ((gpid_shell, cmd_ok) ∷ server.sent))
    × OwnsNothing spawned.0.app_pid s'.mmu
serve_all-owed_example =
    serve_all-owed files no_more 4 spawn server spawned.0 ((4, of_type proc_killall) ∷ [])
      (of_type proc_exit) refl spawned.1 (inl refl, tt) refl

type_of : Option ProcRequest → ℕ
type_of none = 3
type_of (some req) = req.type

shell_request_pwd : type_of (shell_request spawn (b'p' ∷ b'w' ∷ b'd' ∷ [])) ≡ 3
unfolding shell_request same_string type_of
shell_request_pwd = refl

shell_request_ls : type_of (shell_request spawn (b'l' ∷ b's' ∷ [])) ≡ proc_spawn
unfolding shell_request same_string type_of parse_request parse_loop
shell_request_ls = refl

abbrev at_root : WorkDir
at_root = record { workdir_ino = 0; workdir = spelled [] }

abbrev bin : List ℕ
bin = b'b' ∷ b'i' ∷ b'n' ∷ []

bin_found : dir_lookup files 0 (bin ++ (b'/' ∷ [])) ≡ some 5
unfolding dir_lookup entry_at matches atoi digits char_at find_from
bin_found = refl

cd-moved_example :
    cd files bin at_root
    ≡ some (
        if 5 == 2 ^ 32 - 1
        then (2 ^ 32 - 1, at_root)
        else (0, record { workdir_ino = 5; workdir = spelled (moved bin []) }))
cd-moved_example =
    cd-moved files bin [] at_root 5 tt (omega arith, (omega arith, (omega arith, tt))) refl
      bin_found

-- The entries of the directory with the program a, as `files` has it.
abbrev two_entries : List Entry
two_entries =
    record { name = b'b' ∷ b'a' ∷ []; blanks = 1; number = b'8' ∷ [] }
    ∷ record { name = b'a' ∷ []; blanks = 1; number = b'6' ∷ [] }
    ∷ []

two-AreEntries : AreEntries two_entries
unfolding are_plain
two-AreEntries = (
  record {
    named = (refl, are_plain-IsPlain (b'b' ∷ b'a' ∷ []) refl);
    parted = omega arith;
    counted = omega arith;
    numbered = (refl, tt);
  },
  (
    record {
      named = (refl, are_plain-IsPlain (b'a' ∷ []) refl);
      parted = omega arith;
      counted = omega arith;
      numbered = (refl, tt);
    },
    tt,
  ),
)

files-two : (i : ℕ) → files 5 0 i ≡ char_at (entries_text two_entries) i
unfolding entries_text spaces
files-two i = refl

two_length : length (entries_text two_entries) ≡ 9
unfolding entries_text spaces
two_length = refl

dir_lookup-lookup_example :
    dir_lookup files 5 (b'a' ∷ []) ≡ some (result_of (lookup (b'a' ∷ []) two_entries))
unfolding are_plain
dir_lookup-lookup_example =
    dir_lookup-lookup files 5 (b'a' ∷ []) two_entries (refl, are_plain-IsPlain (b'a' ∷ []) refl)
      two-AreEntries
      (Spells-char_at (files 5 0) 0 (entries_text two_entries)
        (AreSet-entries two_entries two-AreEntries)
        (λ i le. files-two (0 + i) ∙ ap (char_at (entries_text two_entries)) (zero_plus i)))
      (rw two_length (omega arith)) (rw two_length (omega arith))
  where
    zero_plus : (i : ℕ) → 0 + i ≡ i
    zero_plus i = omega arith

-- The length of the text of `files 5`.
five_length : strlen (files 5 0) ≡ some 9
unfolding char_at find_from
five_length = refl

abbrev platform : Platform
platform = record {
  Double = ℕ;
  itoa = λ n base. (b'0' + n) ∷ [];
  is_negative = λ v. false;
  negate = λ v. v;
  scale = λ v. v;
}

ls_lem_example : ls platform files 5 1 ≡ (
    if ltb (9 + 2) buf_size
    then some (
      0,
      (files 5 0 0 ∷ without_numbers (files 5 0 0 == b' ') (chars_from 8 (files 5 0) 1))
          ++ new_line,
    )
    else none)
ls_lem_example = ls_lem platform files 5 8 five_length
