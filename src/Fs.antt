-- ===== src/Fs.antt =====
-- The file system: inode stores (library/file/inode.h), the stores of apps/system/sys_file.c,
-- tools/mkfs.c and library/file/file0.c, and treedisk (library/file/file1.c).
pub mod Store
pub mod Disks
pub mod Layout
pub mod Freelist
pub mod Read
pub mod Write
pub mod Create
pub mod Tree
pub mod System
pub mod Init
pub mod Mkfs
pub mod Tests
