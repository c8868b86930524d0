-- ===== src/Fs/Init.antt =====
-- `treedisk_init` (library/file/file1.c): a treedisk is an inode store in its turn.
pub mod Refine
use egos_upstream.Base.{ℕ, ◌-◌, ◌^◌, Option, none, some}
use egos_upstream.Fs.Store.{Block, InodeStore, Out, ret, failed, panicked}
use egos_upstream.Fs.Read.{treedisk_read, treedisk_getsize}
use egos_upstream.Fs.Write.{treedisk_write}

-- A file's block, when the read returns 0. As in every store a panic, which does not return, is none.
unfoldable pub read_result : {S : Type 0} → Out S Block → Option Block
read_result (ret b s) = some b
read_result (failed s) = none
read_result (panicked s) = none

unfoldable pub write_result : {S : Type 0} → Out S (Unit {0}) → Option S
write_result (ret u s) = some s
write_result (failed s) = none
write_result (panicked s) = none

-- -1 is 2 ^ 32 - 1.
unfoldable pub size_result : {S : Type 0} → Out S ℕ → Option ℕ
size_result (ret n s) = some n
size_result (failed s) = some (2 ^ 32 - 1)
size_result (panicked s) = none

-- The file system in the inode `below_ino` of the store below.
unfoldable pub treedisk_init : {S : Type 0} → InodeStore S → ℕ → InodeStore S
unfolding treedisk_read treedisk_write treedisk_getsize read_result write_result size_result
treedisk_init below below_ino = record {
  getsize = λ s ino. size_result (treedisk_getsize below below_ino ino s);
  read = λ s ino offset. read_result (treedisk_read below below_ino ino offset s);
  write = λ s ino offset b. write_result (treedisk_write below below_ino ino offset b s);
}
