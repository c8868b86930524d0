-- ===== src/Fs/Disks.antt =====
-- The stores that stand on a device: the ROM disk of apps/system/sys_file.c and earth/dev_disk.c, the
-- ramdisk of tools/mkfs.c, and mydisk of library/file/file0.c over another store.
use egos_upstream.Base.{ℕ, ◌+◌, ◌*◌, ◌%◌, ◌^◌, refl, none, some, update}
use egos_upstream.Fs.Store.{Disk, InodeStore, Reliable, Readable}

abbrev pub file_sys_disk_start : ℕ
file_sys_disk_start = 4096

-- FILE_SYS_DISK_SIZE / BLOCK_SIZE
abbrev pub file_sys_disk_blocks : ℕ
file_sys_disk_blocks = 4096

-- `ramread` and `ramwrite` copy a block out of and into `fs`; `getsize` is a constant. Neither checks the
-- offset, so the state is memory from `fs` on, in blocks: the first `file_sys_disk_blocks` of them are the
-- array, and what C leaves undefined behind it is more of the same memory.
abbrev pub ramdisk : InodeStore Disk
ramdisk = record {
  getsize = λ disk ino. some file_sys_disk_blocks;
  read = λ disk ino offset. some (disk offset);
  write = λ disk ino offset b. some (update disk offset b);
}

abbrev pub ramdisk-Reliable : (ino : ℕ) → Reliable ramdisk ino
ramdisk-Reliable ino = record {
  view = λ disk. disk;
  after = λ disk offset b. update disk offset b;
  reads = λ disk offset. refl;
  writes = λ disk offset b. refl;
  written = λ disk offset b. refl;
}

-- The store of sys_file: the disk's blocks from FILE_SYS_DISK_START on, in a ROM that cannot be written
-- (`disk_write` stops in `FATAL`, which is `none`).
abbrev pub rom_disk : InodeStore Disk
rom_disk = record {
  getsize = λ disk ino. some file_sys_disk_blocks;
  read = λ disk ino offset. some (disk ((file_sys_disk_start + offset) % 2 ^ 32));
  write = λ disk ino offset b. none;
}

abbrev pub rom_disk-Readable : (ino : ℕ) → Readable rom_disk ino
rom_disk-Readable ino = record {
  view = λ disk offset. disk ((file_sys_disk_start + offset) % 2 ^ 32);
  reads = λ disk offset. refl;
}

-- DUMMY_DISK_OFFSET
abbrev pub dummy_disk_offset : ℕ → ℕ → ℕ
dummy_disk_offset ino offset = (ino * 128 + offset) % 2 ^ 32

-- `mydisk_init`: each inode is a stretch of 128 blocks of inode 0 below. `mydisk_getsize` does not
-- return.
abbrev pub mydisk_init : {S : Type 0} → InodeStore S → InodeStore S
mydisk_init below = record {
  getsize = λ s ino. none;
  read = λ s ino offset. below.read s 0 (dummy_disk_offset ino offset);
  write = λ s ino offset b. below.write s 0 (dummy_disk_offset ino offset) b;
}
