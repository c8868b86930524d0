-- ===== src/Fs/Store.antt =====
-- Inode stores (library/file/inode.h), and the effects of a client of one.
-- A block of 512 bytes is read as its 128 words of 32 bits: superblock, inodes, free list and indirect
-- blocks are such words, and the data of files is only copied.
use egos_upstream.Base.{ℕ, ◌≡◌, Option, none, some, update}

abbrev pub Block : Type 0
Block = ℕ → ℕ

abbrev pub refs_per_block : ℕ
refs_per_block = 128

-- A block filled with null bytes.
abbrev pub null_block : Block
null_block i = 0

-- struct inode_store, over the state that its `state` pointer leads to. A negative result of `read` or
-- `write`, and a call that does not return, is `none`; the block that `read` fills in is its result.
-- `setsize`, which stops in every store and is called by nobody, is left out.
pub record InodeStore (S : Type 0) : Type 0 where
  pub getsize : S → ℕ → Option ℕ
  pub read : S → ℕ → ℕ → Option Block
  pub write : S → ℕ → ℕ → Block → Option S

-- How a function that uses a store comes back: with a result, with -1, or not at all after a panic.
-- Whatever was written before stays written.
pub data Out (S A : Type 0) : Type 0 where
  ret : A → S → Out S A
  failed : S → Out S A
  panicked : S → Out S A

abbrev pub M : Type 0 → Type 0 → Type 0
M S A = S → Out S A

module _ {S : Type 0} where
  abbrev pub pure : {A : Type 0} → A → M S A
  pure a s = ret a s

  abbrev pub fail : {A : Type 0} → M S A
  fail s = failed s

  abbrev pub panic : {A : Type 0} → M S A
  panic s = panicked s

  infixl 5 ◌>>=◌ ◌>>◌
  abbrev pub ◌>>=◌ : {A B : Type 0} → M S A → (A → M S B) → M S B
  ◌>>=◌ m f s = elim (m s) [ ret a s' ↦ f a s' | failed s' ↦ failed s' | panicked s' ↦ panicked s' ]

  abbrev pub ◌>>◌ : {B : Type 0} → M S (Unit {0}) → M S B → M S B
  m >> k = m >>= λ _. k

-- A step that returns hands its result and state to what follows.
module _ {S A B : Type 0} where
  pub >>=-ret :
      (m : M S A) (f : A → M S B) (s : S) {a : A} {s' : S} → m s ≡ ret a s' → (m >>= f) s ≡ f a s'
  >>=-ret m f s e = rw (e, ◌>>=◌)

module _ {S B : Type 0} where
  pub >>-ret :
      (m : M S (Unit {0})) (k : M S B) (s : S) {s' : S} → m s ≡ ret tt s' → (m >> k) s ≡ k s'
  >>-ret m k s e = >>=-ret m (λ _. k) s e

-- Calls of the store below, on its inode `ino`: an error is passed on as -1, or is a panic.
module _ {S : Type 0} (below : InodeStore S) (ino : ℕ) where
  unfoldable pub read_or_fail : ℕ → M S Block
  read_or_fail offset s = elim (below.read s ino offset) [ none ↦ failed s | some b ↦ ret b s ]

  unfoldable pub read_or_panic : ℕ → M S Block
  read_or_panic offset s = elim (below.read s ino offset) [ none ↦ panicked s | some b ↦ ret b s ]

  unfoldable pub write_or_fail : ℕ → Block → M S (Unit {0})
  write_or_fail offset b s = elim (below.write s ino offset b) [
    | none ↦ failed s
    | some s' ↦ ret tt s'
  ]

  unfoldable pub write_or_panic : ℕ → Block → M S (Unit {0})
  write_or_panic offset b s = elim (below.write s ino offset b) [
    | none ↦ panicked s
    | some s' ↦ ret tt s'
  ]

-- Blocks by their number.
abbrev pub Disk : Type 0
Disk = ℕ → Block

-- What a client that only reads relies on of the inode `ino` of a store: `read` gives the blocks of an
-- array.
pub record Readable {S : Type 0} (below : InodeStore S) (ino : ℕ) : Type 0 where
  pub view : S → Disk
  pub reads : (s : S) (offset : ℕ) → below.read s ino offset ≡ some (view s offset)

-- What a client relies on of the inode `ino` of a store that has no errors: it is an array of blocks, of
-- which `read` gives one and `write` changes one.
pub record Reliable {S : Type 0} (below : InodeStore S) (ino : ℕ) : Type 0 where
  pub view : S → Disk
  pub after : S → ℕ → Block → S
  pub reads : (s : S) (offset : ℕ) → below.read s ino offset ≡ some (view s offset)
  pub writes :
      (s : S) (offset : ℕ) (b : Block) → below.write s ino offset b ≡ some (after s offset b)
  pub written :
      (s : S) (offset : ℕ) (b : Block) → view (after s offset b) ≡ update (view s) offset b

abbrev pub readable :
    {S : Type 0} {below : InodeStore S} {ino : ℕ} → Reliable below ino → Readable below ino
readable ok = record { view = ok.view; reads = ok.reads }

module _ {S : Type 0} (below : InodeStore S) (ino : ℕ) (ok : Readable below ino) where
  pub read_or_fail-Readable :
      (s : S) (offset : ℕ) → read_or_fail below ino offset s ≡ ret (ok.view s offset) s
  unfolding read_or_fail
  read_or_fail-Readable s offset = rw (ok.reads s offset, read_or_fail)

module _ {S : Type 0} (below : InodeStore S) (ino : ℕ) (ok : Reliable below ino) where
  pub read_or_fail_lem :
      (s : S) (offset : ℕ) → read_or_fail below ino offset s ≡ ret (ok.view s offset) s
  read_or_fail_lem s offset = read_or_fail-Readable below ino (readable ok) s offset

  pub read_or_panic_lem :
      (s : S) (offset : ℕ) → read_or_panic below ino offset s ≡ ret (ok.view s offset) s
  unfolding read_or_panic
  read_or_panic_lem s offset = rw (ok.reads s offset, read_or_panic)

  pub write_or_panic_lem :
      (s : S) (offset : ℕ) (b : Block)
      → write_or_panic below ino offset b s ≡ ret tt (ok.after s offset b)
  unfolding write_or_panic
  write_or_panic_lem s offset b = rw (ok.writes s offset b, write_or_panic)

  pub write_or_fail_lem :
      (s : S) (offset : ℕ) (b : Block)
      → write_or_fail below ino offset b s ≡ ret tt (ok.after s offset b)
  unfolding write_or_fail
  write_or_fail_lem s offset b = rw (ok.writes s offset b, write_or_fail)
