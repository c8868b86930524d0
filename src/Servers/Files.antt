-- ===== src/Servers/Files.antt =====
-- Requests for blocks of files: the loop of apps/system/sys_file.c, and `file_read` of
-- library/syscall/servers.c. `none` is a server that stops in `FATAL`.
use egos_upstream.Base.{
  ℕ, ◌-◌, ◌^◌, ◌≡◌, refl, ◌∙◌, inl, inr, Option, none, some, ◌==◌, if◌then◌else◌, Option-cases,
}
use egos_upstream.Fs.Store.{Block, InodeStore, Readable}
use egos_upstream.Fs.Init.{treedisk_init}
use egos_upstream.Fs.Init.Refine.{read_init-Readable}
use egos_upstream.Fs.Read.Lookup.{file_block}

-- The types of requests, and the status of a reply.
abbrev pub file_read_type : ℕ
file_read_type = 1

abbrev pub file_ok : ℕ
file_ok = 0

abbrev pub file_error : ℕ
file_error = 1

pub record FileRequest : Type 0 where
  pub type : ℕ
  pub ino : ℕ
  pub offset : ℕ
  pub block : Block

pub record FileReply : Type 0 where
  pub status : ℕ
  pub block : Block

-- One turn of the loop: the reply to a request. The reply is made in the buffer that holds the request;
-- a read that fails leaves in it what `stale` makes of the request's words.
unfoldable pub serve_file :
    {S : Type 0} → InodeStore S → (FileRequest → Block) → S → FileRequest → Option FileReply
serve_file fs stale s req =
    if req.type == file_read_type
    then elim (fs.read s req.ino req.offset) [
      | none ↦ some (record { status = file_error; block = stale req })
      | some b ↦ some (record { status = file_ok; block = b })
    ]
    else none

abbrev pub request_for : Block → ℕ → ℕ → FileRequest
request_for junk file_ino offset = record {
  type = file_read_type;
  ino = file_ino;
  offset = offset;
  block = junk;
}

-- What a client gets: the result, 0 or -1, and the block. The client's request has no block of its own:
-- `junk` is what its stack holds there.
unfoldable pub file_read : (FileRequest → Option FileReply) → Block → ℕ → ℕ → Option (ℕ × Block)
file_read serve junk file_ino offset = elim (serve (request_for junk file_ino offset)) [
  | none ↦ none
  | some reply ↦ some (if reply.status == file_ok then 0 else 2 ^ 32 - 1, reply.block)
]

-- An answer to a client that says what is in the file.
pub data IsAnswer : Option Block → ℕ × Block → Type 0 where
  there : (b : Block) → IsAnswer (some b) (0, b)
  missing : (b : Block) → IsAnswer none (2 ^ 32 - 1, b)

module _ {S : Type 0} (fs : InodeStore S) (stale : FileRequest → Block) (junk : Block) (s : S) where
  file_read-some :
      (file_ino offset : ℕ) (b : Block)
      → fs.read s file_ino offset ≡ some b
      → file_read (serve_file fs stale s) junk file_ino offset ≡ some (0, b)
  unfolding file_read serve_file
  file_read-some file_ino offset b e = rw e refl

  file_read-none :
      (file_ino offset : ℕ)
      → fs.read s file_ino offset ≡ none
      → file_read (serve_file fs stale s) junk file_ino offset
        ≡ some (2 ^ 32 - 1, stale (request_for junk file_ino offset))
  unfolding file_read serve_file
  file_read-none file_ino offset e = rw e refl

module _ {S : Type 0} (below : InodeStore S) (ino : ℕ) (ok : Readable below ino) where
  -- A client that reads through the file server, over a treedisk on a store that can be read, as the
  -- ROM disk of the server can, always gets an answer: 0 with the block at the offset if the file has one there, and otherwise -1.
  pub file_read-IsAnswer :
      (stale : FileRequest → Block) (junk : Block) (s : S) (file_ino offset : ℕ)
      → (answer : ℕ × Block) × (file_read
            (serve_file (treedisk_init below ino) stale s)
            junk
            file_ino
            offset
          ≡ some answer)
        × IsAnswer (file_block (ok.view s) file_ino offset) answer
  file_read-IsAnswer stale junk s file_ino offset =
      let reads = read_init-Readable below ino ok s file_ino offset in
      elim (Option-cases (file_block (ok.view s) file_ino offset)) [
        | inl e ↦ (
          (2 ^ 32 - 1, stale (request_for junk file_ino offset)),
          file_read-none (treedisk_init below ino) stale junk s file_ino offset (reads ∙ e),
          rw e (missing _),
        )
        | inr (b, e) ↦ (
          (0, b),
          file_read-some (treedisk_init below ino) stale junk s file_ino offset b (reads ∙ e),
          rw e (there b),
        )
      ]
