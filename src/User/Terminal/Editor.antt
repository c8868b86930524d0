-- ===== src/User/Terminal/Editor.antt =====
-- `term_read` edits a line: it does what a stack of characters would.
use egos_upstream.Base.{
  ℕ, suc, ◌+◌, ◌-◌, ◌^◌, ◌≤◌, ◌<◌, ◌≡◌, refl, ◌∙◌, inl, inr, Bool, true, false, ◌&&◌, Option, none,
  some, List, [], ◌∷◌, arith, ltb, ◌==◌, if◌then◌else◌, Bool-cases, update, update_self, update_ne,
  length,
}
use egos_upstream.User.Terminal.{
  Buffer, Line, enter, backspace, last_index, term_read_loop, term_read,
}

-- The line is a list of characters, the latest first.
abbrev pub erase : List ℕ → List ℕ
erase [] = []
erase (c ∷ line) = line

-- The line when Enter ends it or `room` characters fill it, whether Enter did, and the input after it.
unfoldable pub edit : ℕ → List ℕ → List ℕ → Option (List ℕ × Bool × List ℕ)
edit room line [] = if ltb (length line) room then none else some (line, false, [])
edit room line (c ∷ cs) =
    let erased = edit room (erase line) cs in
    let typed = edit room (c ∷ line) cs in
    if ltb (length line) room
    then if c == enter then some (line, true, cs) else if c == backspace then erased else typed
    else some (line, false, c ∷ cs)

-- The buffer holds the line from its start.
abbrev pub Spells : List ℕ → Buffer → Type 0
Spells [] buf = Unit
Spells (c ∷ line) buf = (buf (length line) ≡ c) × Spells line buf

-- The result of `term_read` for such a line.
pub record HasLine (len : ℕ) (before : Buffer) (line : List ℕ) (entered : Bool) (rest : List ℕ)
    (l : Line) : Type 0 where
  pub result : l.result ≡ (if entered && (length line == 0) then 0 else length line + 1)
  pub spelled : Spells line l.buf
  pub ends : l.buf (length line) ≡ 0
  pub fits : length line < len
  pub unread : l.rest ≡ rest
  pub frame : (k : ℕ) → len ≤ k → l.buf k ≡ before k

unfoldable pub Edits : ℕ → Buffer → Option Line → Option (List ℕ × Bool × List ℕ) → Type 0
Edits len before none none = Unit
Edits len before none (some line) = ⊥
Edits len before (some l) none = ⊥
Edits len before (some l) (some (line, entered, rest)) = HasLine len before line entered rest l

Spells-update :
    (line : List ℕ) (buf : Buffer) (i v : ℕ)
    → length line ≤ i
    → Spells line buf
    → Spells line (update buf i v)
Spells-update [] buf i v le s = tt
Spells-update (c ∷ line) buf i v le s =
    (update_ne buf v (omega arith) ∙ s.0, Spells-update line buf i v (omega arith) s.1)

index_erase :
    (line : List ℕ) → (if length line == 0 then 0 else length line - 1) ≡ length (erase line)
index_erase [] = refl
index_erase (c ∷ line) = ground arith

length-erase : (line : List ℕ) → length (erase line) ≤ length line
length-erase [] = omega arith
length-erase (c ∷ line) = omega arith

Spells-erase : (line : List ℕ) (buf : Buffer) → Spells line buf → Spells (erase line) buf
Spells-erase [] buf s = tt
Spells-erase (c ∷ line) buf s = s.1

module _ (len : ℕ) (pos : 1 ≤ len) (bound : len < 2 ^ 32) (before : Buffer) where
  room : last_index len ≡ len - 1
  room = omega arith

  full_HasLine :
      (line : List ℕ) (buf : Buffer) (rest out : List ℕ)
      → (length line ≤ len - 1)
      → Spells line buf
      → ((k : ℕ) → len ≤ k → buf k ≡ before k)
      → ltb (length line) (len - 1) ≡ false
      → HasLine len before line false rest
          (record { result = len; buf = update buf (len - 1) 0; rest = rest; out = out })
  full_HasLine line buf rest out le s frame full = record {
    result = ground arith;
    spelled = Spells-update line buf (len - 1) 0 le s;
    ends = ground arith;
    fits = omega arith;
    unread = refl;
    frame = λ k h. update_ne buf 0 (omega arith) ∙ frame k h;
  }

  enter_HasLine :
      (line : List ℕ) (buf : Buffer) (c : ℕ) (rest out : List ℕ)
      → Spells line buf
      → ((k : ℕ) → len ≤ k → buf k ≡ before k)
      → length line < len - 1
      → HasLine len before line true rest (record {
        result = if length line == 0 then 0 else length line + 1;
        buf = update (update buf (length line) c) (length line) 0;
        rest = rest;
        out = out;
      })
  enter_HasLine line buf c rest out s frame more = record {
    result = refl;
    spelled =
        Spells-update line (update buf (length line) c) (length line) 0 (omega arith)
          (Spells-update line buf (length line) c (omega arith) s);
    ends = update_self (update buf (length line) c) (length line) 0;
    fits = omega arith;
    unread = refl;
    frame = λ k h.
        update_ne (update buf (length line) c) {i = length line} 0 (omega arith)
        ∙ update_ne buf {i = length line} c (omega arith)
        ∙ frame k h;
  }

  -- A turn that writes the character at the end of the line keeps what is before it, and what is past
  -- the buffer.
  typed_frame :
      (line : List ℕ) (buf : Buffer) (c : ℕ)
      → length line < len - 1
      → ((k : ℕ) → len ≤ k → buf k ≡ before k)
      → (k : ℕ) → len ≤ k
      → update buf (length line) c k ≡ before k
  typed_frame line buf c more frame k h = update_ne buf c (omega arith) ∙ frame k h

  loop-Edits :
      (typed line : List ℕ) (buf : Buffer) (out : List ℕ)
      → (length line ≤ len - 1)
      → Spells line buf
      → ((k : ℕ) → len ≤ k → buf k ≡ before k)
      → Edits len before
          (term_read_loop len typed (length line) buf out)
          (edit (len - 1) line typed)
  unfolding term_read_loop edit Edits
  loop-Edits [] line buf out le s frame = elim (Bool-cases (ltb (length line) (len - 1))) [
    | inl more ↦ rw (room, more) tt
    | inr full ↦ rw (room, full) (full_HasLine line buf [] out le s frame full)
  ]
  loop-Edits (c ∷ cs) line buf out le s frame = elim (Bool-cases (ltb (length line) (len - 1))) [
    | inr full ↦ rw (room, full) (full_HasLine line buf (c ∷ cs) out le s frame full)
    | inl more ↦
        let lt : length line < len - 1 = ground arith in
        rw (room, more)
          (elim (Bool-cases (c == enter)) [
            | inl ends ↦ rw ends (enter_HasLine line buf c cs (0x0d ∷ 0x0a ∷ out) s frame lt)
            | inr goes ↦ rw goes (elim (Bool-cases (c == backspace)) [
              | inl back ↦ rw back (
                  rw (index_erase line) (
                    loop-Edits cs (erase line) (update buf (length line) c)
                      (if length line == 0 then out else 0x08 ∷ b' ' ∷ 0x08 ∷ out)
                      (omega (arith, length-erase line))
                      (Spells-erase line (update buf (length line) c)
                        (Spells-update line buf (length line) c (omega arith) s))
                      (typed_frame line buf c lt frame)))
              | inr types ↦
                  let next : length line + 1 ≡ suc (length line) = omega arith in
                  rw (types, next)
                    (loop-Edits cs (c ∷ line) (update buf (length line) c)
                      (if c == 0 then out else c ∷ out) (omega arith)
                      (
                        update_self buf (length line) c,
                        Spells-update line buf (length line) c (omega arith) s,
                      )
                      (typed_frame line buf c lt frame))
            ])
          ])
  ]

  -- With a buffer of `len` characters, 1 at least, `term_read` waits exactly as long as the editor of a
  -- line of at most `len` - 1 characters does. When it returns, the buffer holds the editor's line and
  -- a NUL, the result is 0 for an empty line that Enter ended and else the length with the NUL, the rest
  -- of the input has not been read, and nothing past the buffer has been written.
  pub term_read-edit :
      (typed out : List ℕ)
      → Edits len before (term_read len typed before out) (edit (len - 1) [] typed)
  unfolding term_read
  term_read-edit typed out = loop-Edits typed [] before out (omega arith) tt (λ k h. refl)
