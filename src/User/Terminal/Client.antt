-- ===== src/User/Terminal/Client.antt =====
-- The terminal as a program uses it: term_read and term_write (library/syscall/servers.c, when not compiled
-- for the kernel), which ask the terminal server.
use egos_upstream.Base.{
  ℕ, zero, suc, ◌+◌, ◌≤◌, ◌<◌, ◌≡◌, refl, ap, ◌∙◌, false, Option, none, some, List, ◌∷◌, arith, ltb,
  ltb_of_lt, if◌then◌else◌,
}
use egos_upstream.User.Terminal.{
  Buffer, term_buf_size, term_input, term_output, TermRequest, first_chars, written, serve_term,
  term_write,
}

-- memcpy
abbrev pub copied : Buffer → Buffer → ℕ → Buffer
copied dst src len i = if ltb i len then src i else dst i

-- The request of term_read; `junk` is what the stack holds in its buffer.
abbrev pub read_request : Buffer → ℕ → TermRequest
read_request junk len = record { type = term_input; len = len; buf = junk }

-- What term_read makes of a reply: the buffer and the length.
abbrev pub read_reply : Buffer → ℕ → Buffer → Buffer × ℕ
read_reply buf len reply = (copied buf reply len, len)

-- The request of term_write. A text longer than the request's buffer is copied past its end: `none`.
unfoldable pub write_request : Buffer → Buffer → ℕ → Option TermRequest
write_request junk str len =
    if ltb term_buf_size len
    then none
    else some (record { type = term_output; len = len; buf = copied junk str len })

first_chars-ext :
    (n : ℕ) (b b' : Buffer) → ((i : ℕ) → i < n → b i ≡ b' i) → first_chars n b ≡ first_chars n b'
unfolding first_chars
first_chars-ext zero b b' e = refl
first_chars-ext (suc n) b b' e =
    ap (λ c. c ∷ first_chars n (λ i. b (i + 1))) (e 0 (omega arith))
    ∙ ap (λ cs. b' 0 ∷ cs)
        (first_chars-ext n (λ i. b (i + 1)) (λ i. b' (i + 1)) (λ i lt. e (i + 1) (omega arith)))

-- A text of at most 512 characters that a program writes comes out of the terminal as it is, whatever the
-- input that waits.
pub write_request-serve_term :
    (stale : TermRequest → Buffer) (junk str : Buffer) (len : ℕ) (typed out : List ℕ)
    → len ≤ term_buf_size
    → (req : TermRequest) × (write_request junk str len ≡ some req)
      × (serve_term stale req typed out ≡ written typed (term_write (first_chars len str) out))
unfolding write_request serve_term
write_request-serve_term stale junk str len typed out fits =
    let over : ltb term_buf_size len ≡ false = ground arith in
    let same : first_chars len (copied junk str len) ≡ first_chars len str =
      first_chars-ext len (copied junk str len) str (λ i lt. rw (ltb_of_lt i len lt) refl) in
    (
      record { type = term_output; len = len; buf = copied junk str len },
      rw over refl,
      rw over (ap (λ cs. written typed (term_write cs out)) same),
    )
