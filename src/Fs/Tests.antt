-- ===== src/Fs/Tests.antt =====
-- Concrete runs of the file system, on the ramdisk.
use egos_upstream.Base.{
  ℕ, ◌+◌, ◌≤◌, ◌<◌, ◌≡◌, ◌++◌, length, refl, sym, ap, ◌≢◌, ◌⊎◌, inl, inr, some, List, [], ◌∷◌,
  arith, ◌==◌, if◌then◌else◌,
}
use mathlib.Core.Path.{subst}
use egos_upstream.Fs.Store.{Disk, null_block, Out, ret, failed, panicked}
use egos_upstream.Fs.Disks.{ramdisk, ramdisk-Reliable}
use egos_upstream.Fs.Layout.{levels_of, n_inodeblocks}
use egos_upstream.Fs.Freelist.{Snapshot, treedisk_alloc_block, setup_freelist}
use egos_upstream.Fs.Freelist.Alloc.{IsFreelist, Allocated, treedisk_alloc_block_total}
use egos_upstream.Fs.Freelist.Chain.{occurrences, free_blocks}
use egos_upstream.Fs.Create.{treedisk_create}
use egos_upstream.Fs.Create.Refine.{no_files, inode_blocks_for, treedisk_create_total}
use egos_upstream.Fs.Write.{treedisk_write}
use egos_upstream.Fs.Write.Refine.{treedisk_write-file_write}
use egos_upstream.Fs.Init.{treedisk_init}
use egos_upstream.Fs.Init.Refine.{treedisk_init-file_write}
use egos_upstream.Fs.System.{inodes, IsFs, file_write}
use egos_upstream.Fs.Freelist.Setup.{HoldsRange, setup_freelist-HoldsRange}
use egos_upstream.Fs.Read.{treedisk_read}
use egos_upstream.Fs.Read.Lookup.{
  IsDepth, levels_of-IsDepth, answer, file_block, treedisk_read-file_block,
}
use egos_upstream.Fs.Mkfs.Image.{Host, is_elf, starts_with, program_name, write_image}
use egos_upstream.Fs.Mkfs.Made.{
  elfs, elf_blocks, programs_text, bin_text, image_files, write_image_total,
}
use egos_upstream.User.Shell.Batch.{take}

-- Block 0 is the superblock, with one inode block and the free list at block 3, which holds 4 and 5.
-- Inode 0 is a file of one block, block 2.
abbrev disk : Disk
disk b =
    if b == 0
    then (λ i. if i == 0 then 1 else if i == 1 then 3 else 0)
    else if b == 1
    then (λ i. if i == 0 then 2 else if i == 1 then 1 else 0)
    else if b == 2
    then (λ i. 42)
    else if b == 3
    then (λ i. if i == 1 then 4 else if i == 2 then 5 else 0)
    else null_block

abbrev snapshot : Snapshot
snapshot = record { superblock = disk 0; inodeblock = disk 1; inode_blockno = 1 }

one_block-IsFreelist : IsFreelist disk snapshot (3 ∷ [])
one_block-IsFreelist = record { chain = (refl, omega arith, refl); distinct = (tt, tt) }

treedisk_alloc_block_total_example :
    ((Path (List ℕ) (3 ∷ []) []) × (treedisk_alloc_block ramdisk 0 snapshot disk ≡ panicked disk))
    ⊎ ((x : ℕ) × (snapshot' : Snapshot) × (s' : Disk) × (bs' : List ℕ) × (treedisk_alloc_block
            ramdisk 0 snapshot disk
          ≡ ret (x, snapshot') s')
        × Allocated disk (3 ∷ []) snapshot x s' bs' snapshot')
treedisk_alloc_block_total_example =
    treedisk_alloc_block_total ramdisk 0 (ramdisk-Reliable 0) disk snapshot (3 ∷ [])
      one_block-IsFreelist

nothing-HoldsRange : HoldsRange 3 3 disk [] 0
unfolding occurrences free_blocks
nothing-HoldsRange = record {
  chain = refl;
  distinct = tt;
  below = tt;
  counts = λ y ne. ground arith;
  total = refl;
}

setup_freelist-HoldsRange_example :
    (head' : ℕ) × (s' : Disk) × (bs' : List ℕ) × (setup_freelist ramdisk 0 297 null_block 0 3 300
        disk
      ≡ ret head' s')
    × HoldsRange 3 300 s' bs' head'
    × ((c : ℕ) → c < 3 → s' c ≡ disk c)
setup_freelist-HoldsRange_example =
    setup_freelist-HoldsRange ramdisk 0 (ramdisk-Reliable 0) 3 297 null_block 0 3 300 disk []
      (omega arith) (omega arith) (omega arith) (omega arith) nothing-HoldsRange

treedisk_read-file_block_example :
    treedisk_read ramdisk 0 0 0 disk ≡ answer (file_block disk 0 0) disk
treedisk_read-file_block_example = treedisk_read-file_block ramdisk 0 (ramdisk-Reliable 0) 0 0 disk

levels_of-IsDepth_example : IsDepth 4095 (levels_of 4095)
levels_of-IsDepth_example = levels_of-IsDepth 4095 (omega arith)

-- A ramdisk of zeros, and the file system for 128 inodes made on it.
abbrev zeros : Disk
zeros b = null_block

treedisk_create_total_example :
    ((4096 < inode_blocks_for 128 + 2)
      × (treedisk_create ramdisk 0 null_block 128 zeros ≡ failed zeros))
    ⊎ ((inode_blocks_for 128 + 2 ≤ 4096)
        × (n_inodeblocks (zeros 0) ≢ 0)
        × (treedisk_create ramdisk 0 null_block 128 zeros ≡ ret tt zeros))
    ⊎ ((inode_blocks_for 128 + 2 ≤ 4096)
        × (n_inodeblocks (zeros 0) ≡ 0)
        × (s' : Disk) × (bs' : List ℕ) × (treedisk_create ramdisk 0 null_block 128 zeros
            ≡ ret tt s')
        × IsFs s' bs'
        × (n_inodeblocks (s' 0) ≡ inode_blocks_for 128)
        × (free_blocks s' bs' + (inode_blocks_for 128 + 1) ≡ 4096)
        × (file_block s' ≡ no_files))
treedisk_create_total_example =
    treedisk_create_total ramdisk 0 (ramdisk-Reliable 0) null_block 128 4096 zeros refl
      (omega arith)

pub state_of : {S A : Type 0} → Out S A → S
state_of (ret a s) = s
state_of (failed s) = s
state_of (panicked s) = s

abbrev pub formatted : Disk
formatted = state_of (treedisk_create ramdisk 0 null_block 128 zeros)

abbrev pub HasRoom : Disk → Type 0
HasRoom disk = (bs : List ℕ) × IsFs disk bs × (inodes disk ≡ 128) × (99 ≤ free_blocks disk bs)

pub formatted-HasRoom : HasRoom formatted
unfolding state_of
formatted-HasRoom = elim treedisk_create_total_example [
  | inl (few, e) ↦ absurd (omega arith)
  | inr (inl (enough, ne, e)) ↦ absurd (ne refl)
  | inr (inr (enough, new, s', bs', e, fs, count, room, files)) ↦
      subst HasRoom (sym (ap state_of e)) (bs', fs, omega arith, omega arith)
]

treedisk_write-file_write_example :
    (s' : Disk) × (bs' : List ℕ) × (treedisk_write ramdisk 0 3 5000 (λ i. 42) formatted ≡ ret tt s')
    × IsFs s' bs'
    × (n_inodeblocks (s' 0) ≡ n_inodeblocks (formatted 0))
    × (free_blocks formatted formatted-HasRoom.0 ≤ free_blocks s' bs' + 11)
    × (file_block s' ≡ file_write (file_block formatted) 3 5000 (λ i. 42))
treedisk_write-file_write_example =
    treedisk_write-file_write ramdisk 0 (ramdisk-Reliable 0) formatted formatted-HasRoom.0 3 5000
      (λ i. 42) formatted-HasRoom.1 (omega (arith, formatted-HasRoom.2)) (omega arith)
      (omega (arith, formatted-HasRoom.3))

treedisk_init-file_write_example :
    (s' : Disk) × ((treedisk_init ramdisk 0).write formatted 3 5000 (λ i. 42) ≡ some s')
    × ((treedisk_init ramdisk 0).read s'
        ≡ file_write ((treedisk_init ramdisk 0).read formatted) 3 5000 (λ i. 42))
treedisk_init-file_write_example =
    treedisk_init-file_write ramdisk 0 (ramdisk-Reliable 0) formatted formatted-HasRoom.0 3 5000
      (λ i. 42) formatted-HasRoom.1 (omega (arith, formatted-HasRoom.2)) (omega arith)
      (omega (arith, formatted-HasRoom.3))

-- A host with one program of one block, beside a file that is none.
abbrev small_host : Host
small_host = record {
  dirents = (b'.' ∷ b'.' ∷ []) ∷ (b'a' ∷ b'.' ∷ b'e' ∷ b'l' ∷ b'f' ∷ []) ∷ [];
  load_file = λ name. (500, λ b i. b + i);
  sprintf_entry = λ name ino. name ++ (b' ' ∷ (b'0' + ino) ∷ b' ' ∷ []);
  behind = λ i. 0;
}

small_text : length (bin_text small_host) ≡ 19
unfolding programs_text is_elf starts_with program_name take
small_text = refl

write_image_total_example :
    (s' : Disk) × (bs' : List ℕ) × (write_image (treedisk_init ramdisk 0) small_host formatted
      ≡ some s')
    × IsFs s' bs'
    × (file_block s' ≡ image_files small_host (file_block formatted))
unfolding elfs elf_blocks is_elf starts_with
write_image_total_example =
    write_image_total ramdisk 0 (ramdisk-Reliable 0) small_host formatted formatted-HasRoom.0
      formatted-HasRoom.1 (λ d. omega arith) (omega (arith, formatted-HasRoom.2))
      (omega (arith, formatted-HasRoom.3)) (rw small_text (omega arith))
