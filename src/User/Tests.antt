-- ===== src/User/Tests.antt =====
-- Concrete runs of the user side.
use egos_upstream.Base.{
  ◌*◌, inl, ℕ, suc, ◌+◌, ◌≡◌, refl, Bool, true, false, Option, none, some, List, [], ◌∷◌, arith,
  ◌==◌, if◌then◌else◌, length,
}
use egos_upstream.User.Terminal.{term_read}
use egos_upstream.User.Terminal.Editor.{edit, Edits, term_read-edit}
use egos_upstream.User.Shell.{Argv, parse_request}
use egos_upstream.User.Shell.Accepts.{parse_request_total}
use egos_upstream.User.Shell.Parse.{words_from, words, Rows, parse_request-words}
use egos_upstream.User.Shell.{parse_loop, store}
use egos_upstream.User.Shell.Batch.{
  Batch, line_cmds, is_batch, char_at, strnlen, tokens_from, take, tail, run_cmds,
  run_cmds-line_cmds,
}
use egos_upstream.User.Print.{Platform, format_to_str}
use egos_upstream.User.Print.Shown.{
  Piece, literal, str, dec, hex, percent, dbl, is_plain, are_plain, format_of, args_of, shown,
  format_to_str-shown,
}
use egos_upstream.Mem.Frames.{Mmu, Contents}
use egos_upstream.Kernel.State.{Kernel, done, curr_proc_idx, curr_pid}
use egos_upstream.Kernel.Ipc.{proc_try_syscall}
use egos_upstream.Kernel.Scheduler.Yield.{IsValid}
use egos_upstream.Kernel.Entry.{accept_syscall}
use egos_upstream.Kernel.Tests.{no_call, quiet_kernel, quiet-IsValid}
use egos_upstream.User.Syscalls.{send_call, HasPid, send_call-delivered}

-- "ls &"
abbrev line : List ℕ
line = b'l' ∷ b's' ∷ b' ' ∷ b'&' ∷ []

abbrev line_argv : Argv
line_argv = store (store (store (store (λ n i. 0) 0 0 b'l') 0 1 b's') 0 2 0) 1 0 b'&'

line_parses : parse_request line ≡ some (2, line_argv)
unfolding parse_request parse_loop
line_parses = refl

parse_request-words_example : (2 ≡ length (words line)) × Rows line_argv 0 (words line)
parse_request-words_example = parse_request-words line 2 line_argv line_parses

abbrev platform : Platform
platform = record {
  Double = ℕ;
  itoa = λ n base. (b'0' + n) ∷ [];
  is_negative = λ v. false;
  negate = λ v. v;
  scale = λ v. v;
}

-- "a%d%x%s%%%f!", with 7, 7, "b" and 3
abbrev pieces : List (Piece platform)
pieces =
    literal (b'a' ∷ [])
    ∷ dec 7
    ∷ hex 7
    ∷ str (b'b' ∷ [])
    ∷ percent
    ∷ dbl 3
    ∷ literal (b'!' ∷ [])
    ∷ []

pieces_plain : are_plain platform pieces ≡ true
unfolding are_plain is_plain
pieces_plain = refl

format_to_str-shown_example :
    format_to_str platform (format_of platform pieces) (args_of platform pieces)
    ≡ some (shown platform pieces, [])
format_to_str-shown_example = format_to_str-shown platform pieces pieces_plain

-- "(ls;pwd)"
abbrev batch_line : List ℕ
batch_line = b'(' ∷ b'l' ∷ b's' ∷ b';' ∷ b'p' ∷ b'w' ∷ b'd' ∷ b')' ∷ []

abbrev no_cmds : Batch
no_cmds = record { cmds = λ i. []; cmd_idx = none; count = 0 }

line_cmds-batch_line : line_cmds batch_line ≡ (b'l' ∷ b's' ∷ []) ∷ (b'p' ∷ b'w' ∷ b'd' ∷ []) ∷ []
unfolding line_cmds is_batch char_at strnlen tokens_from take tail
line_cmds-batch_line = refl

run_cmds-line_cmds_example :
    (s' : Batch) × (run_cmds (suc (length (line_cmds batch_line))) batch_line no_cmds
      ≡ some (line_cmds batch_line, s'))
    × (s'.cmd_idx ≡ none)
run_cmds-line_cmds_example =
    run_cmds-line_cmds batch_line no_cmds refl (rw line_cmds-batch_line (omega arith))
      (rw line_cmds-batch_line (omega arith, (omega arith, tt)))

-- An executable with one segment of 600 bytes at APPS_ENTRY.
abbrev program : ℕ → Contents
program block i =
    if i == 28
    then 52
    else if i == 44
    then 1
    else if i == 57
    then 2
    else if i == 62
    then 0x20
    else if i == 63
    then 0x80
    else if i == 68
    then 88
    else if i == 69
    then 2
    else 0

abbrev empty_mmu : Mmu
empty_mmu = record {
  bitmap = λ i. if i == 0 then 1 else 0;
  page_info_table = λ i.
      if i == 0 then record { pid = 1; vpage_no = 0x80200 } else record { pid = 0; vpage_no = 0 };
  curr_vm_pid = 1;
  mem = λ p o. 0;
}

abbrev loads : Option Mmu → Bool
loads none = false
loads (some s) = true

words-line : words line ≡ (b'l' ∷ b's' ∷ []) ∷ (b'&' ∷ []) ∷ []
unfolding words words_from
words-line = refl

parse_request_total_example :
    (argv : Argv) × (parse_request line ≡ some (length (words line), argv))
    × Rows argv 0 (words line)
parse_request_total_example =
    parse_request_total line (rw words-line (omega arith, (omega arith, tt)))
      (rw words-line (omega arith))

-- l, x, Backspace, s, Enter
abbrev keys : List ℕ
keys = b'l' ∷ b'x' ∷ 0x7f ∷ b's' ∷ 0x0d ∷ []

term_read-edit_example : Edits 512 (λ i. 0) (term_read 512 keys (λ i. 0) []) (edit 511 [] keys)
term_read-edit_example = term_read-edit 512 (omega arith) (omega arith) (λ i. 0) keys []

edit-keys : edit 511 [] keys ≡ some (b's' ∷ b'l' ∷ [], true, [])
unfolding edit
edit-keys = refl

-- Process 1 has called sys_send with four bytes for process 2, which waits for a message.
abbrev message : ℕ → ℕ
message i = i * i

abbrev sender_kernel : Kernel
sender_kernel = record quiet_kernel { user = λ pid. send_call 2 message 4 no_call }

sender-IsValid : IsValid sender_kernel
sender-IsValid = record {
  waiting = record {
    sends = quiet-IsValid.waiting.sends;
    served = quiet-IsValid.waiting.served;
    named = quiet-IsValid.waiting.named;
  };
  numbered = quiet-IsValid.numbered;
  in_table = quiet-IsValid.in_table;
  alone = quiet-IsValid.alone;
}

two-HasPid : HasPid sender_kernel 2 2
two-HasPid = record {
  above = omega arith;
  below = omega arith;
  hit = refl;
  earliest = λ j lo lt. ground arith;
}

send_call-delivered_example :
    (k1 : Kernel) × (proc_try_syscall
        (curr_proc_idx (accept_syscall 0 sender_kernel))
        (accept_syscall 0 sender_kernel)
      ≡ some k1)
    × ((k1.proc_set 2).syscall.status ≡ done)
    × ((k1.proc_set 2).syscall.sender ≡ curr_pid sender_kernel)
    × ((k1.proc_set 2).syscall.content 3 ≡ message 3)
    × ((k1.user (curr_pid sender_kernel)).status ≡ done)
send_call-delivered_example =
    send_call-delivered 0 sender_kernel 2 4 2 3 message no_call sender-IsValid refl refl two-HasPid
      (λ e. ground arith) (refl, refl, inl refl) (omega arith) (omega arith)
