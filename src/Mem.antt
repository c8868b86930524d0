-- ===== src/Mem.antt =====
-- Memory management (earth/mem_alloc.c, earth/cpu_mmu.c, earth/mem_soft_tlb.c).
pub mod Bitmap
pub mod Frames
pub mod SoftTlb
pub mod Ownership
mod Tests
