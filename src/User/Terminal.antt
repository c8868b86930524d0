-- ===== src/User/Terminal.antt =====
-- The kernel's side of terminal input and output: `term_read` and `term_write`
-- (library/syscall/servers.c), and the requests that apps/system/sys_terminal.c serves with them.
-- What is typed is a list of characters; output is the list of the characters written so far, latest
-- first.
pub mod Editor
pub mod Client
use egos_upstream.Base.{
  ℕ, zero, suc, ◌+◌, ◌-◌, ◌^◌, ◌%◌, Option, none, some, List, [], ◌∷◌, ltb, ◌==◌, if◌then◌else◌,
  update,
}

abbrev pub Buffer : Type 0
Buffer = ℕ → ℕ

-- Enter and Backspace.
abbrev pub enter : ℕ
enter = 0x0d

abbrev pub backspace : ℕ
backspace = 0x7f

-- earth->tty_write for each character of a string, in order
unfoldable pub term_write : List ℕ → List ℕ → List ℕ
term_write [] out = out
term_write (c ∷ cs) out = term_write cs (c ∷ out)

-- len - 1, as a uint
abbrev pub last_index : ℕ → ℕ
last_index len = (len + 2 ^ 32 - 1) % 2 ^ 32

-- What a call comes back with: its result, the buffer, what has not been read yet, and the output.
pub record Line : Type 0 where
  pub result : ℕ
  pub buf : Buffer
  pub rest : List ℕ
  pub out : List ℕ

-- One turn of the loop for each character; `none` waits for one. A character 0 is not echoed. The source takes 2 from `i` on a
-- Backspace, or 1 at the start of the line, before the loop adds 1.
unfoldable pub term_read_loop : ℕ → List ℕ → ℕ → Buffer → List ℕ → Option Line
unfolding term_write
term_read_loop len [] i buf out =
    if ltb i (last_index len)
    then none
    else some (record { result = len; buf = update buf (last_index len) 0; rest = []; out = out })
term_read_loop len (c ∷ cs) i buf out =
    let buf' = update buf i c in
    let i' = if i == 0 then 0 else i - 1 in
    let out' = if i == 0 then out else term_write (0x08 ∷ b' ' ∷ 0x08 ∷ []) out in
    let erased = term_read_loop len cs i' buf' out' in
    let typed = term_read_loop len cs (i + 1) buf' (if c == 0 then out else c ∷ out) in
    if ltb i (last_index len)
    then if c == enter
      then some (record {
        result = if i == 0 then 0 else i + 1;
        buf = update buf' i 0;
        rest = cs;
        out = term_write (0x0a ∷ 0x0d ∷ []) out;
      })
      else if c == backspace
      then erased
      else typed
    else some
        (record { result = len; buf = update buf (last_index len) 0; rest = c ∷ cs; out = out })

unfoldable pub term_read : ℕ → List ℕ → Buffer → List ℕ → Option Line
unfolding term_read_loop
term_read len typed buf out = term_read_loop len typed 0 buf out

-- The requests of other programs: TERM_INPUT and TERM_OUTPUT.
abbrev pub term_buf_size : ℕ
term_buf_size = 512

abbrev pub term_input : ℕ
term_input = 0

abbrev pub term_output : ℕ
term_output = 1

pub record TermRequest : Type 0 where
  pub type : ℕ
  pub len : ℕ
  pub buf : Buffer

-- The first characters of a buffer.
unfoldable pub first_chars : ℕ → Buffer → List ℕ
first_chars zero buf = []
first_chars (suc n) buf = buf 0 ∷ first_chars n (λ i. buf (i + 1))

-- One turn of the loop of the terminal server. A reply to the sender, if there is one, is made in the
-- buffer of the request. The rest of the input and the output follow.
pub data Served : Type 0 where
  stopped waits : Served
  replied : ℕ → Buffer → List ℕ → List ℕ → Served
  written : List ℕ → List ℕ → Served

-- What the reply's characters hold before they are read is `stale` of the request's words.
unfoldable pub serve_term : (TermRequest → Buffer) → TermRequest → List ℕ → List ℕ → Served
unfolding term_write term_read first_chars
serve_term stale req typed out =
    let input : Served = elim (term_read req.len typed (stale req) out) [
      | none ↦ waits
      | some l ↦ replied l.result l.buf l.rest l.out
    ] in
    if ltb term_buf_size req.len
    then stopped
    else if req.type == term_input
    then input
    else if req.type == term_output
    then written typed (term_write (first_chars req.len req.buf) out)
    else stopped
