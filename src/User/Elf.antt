-- ===== src/User/Elf.antt =====
-- The loader of ELF executables (library/elf/elf.c), over the memory managers of Mem. `none` is the
-- `FATAL` of a page allocator with no page left. The message that is printed is left out.
pub mod Mapping
pub mod Isolation
use egos_upstream.Base.{
  ℕ, ◌+◌, ◌-◌, ◌*◌, ◌/◌, ◌%◌, ◌^◌, ◌&&◌, Option, none, some, ltb, leb, ◌==◌, if◌then◌else◌, ◌>>=◌,
  for_range,
}
use egos_upstream.Mem.Frames.{Mmu, Pages, Contents, page_of, page_size, clear_page, mmu_alloc}
use egos_upstream.Mem.SoftTlb.{page_id_to_addr, soft_tlb_map}
use egos_upstream.Kernel.Scheduler.{apps_arg}
use egos_upstream.User.Shell.{cmd_nargs, cmd_arg_len}

abbrev pub ram_start : ℕ
ram_start = 0x80000000

abbrev pub block_size : ℕ
block_size = 512

abbrev pub syscall_arg : ℕ
syscall_arg = 0x80301000

abbrev pub apps_stack_top : ℕ
apps_stack_top = 0x80400000

-- Little-endian numbers in a buffer.
unfoldable pub half_at : Contents → ℕ → ℕ
half_at b i = b i + 2 ^ 8 * b (i + 1)

unfoldable pub word_at : Contents → ℕ → ℕ
unfolding half_at
word_at b i = half_at b i + 2 ^ 16 * half_at b (i + 2)

-- The fields of struct elf32_program_header that the loader reads.
pub record Segment : Type 0 where
  pub p_offset : ℕ
  pub p_vaddr : ℕ
  pub p_filesz : ℕ
  pub p_memsz : ℕ

-- pheader[i], from e_phoff in the first block
unfoldable pub segment_at : Contents → ℕ → Segment
unfolding word_at
segment_at hbuf i =
    let at = word_at hbuf 28 + i * 32 in
    record {
      p_offset = word_at hbuf (at + 4);
      p_vaddr = word_at hbuf (at + 8);
      p_filesz = word_at hbuf (at + 16);
      p_memsz = word_at hbuf (at + 20);
    }

-- memcpy(addr, src, size) within a page
unfoldable pub copy_bytes : ℕ → Contents → ℕ → Pages → Pages
copy_bytes addr src size mem p o =
    if (p == page_of addr) && (leb (addr % page_size) o && ltb o (addr % page_size + size))
    then src (o - addr % page_size)
    else mem p o

unfoldable pub put_word : ℕ → ℕ → Pages → Pages
unfolding copy_bytes
put_word addr v mem = copy_bytes addr (λ i. v / 2 ^ (8 * i) % 2 ^ 8) 4 mem

-- ppage_id = earth->mmu_alloc(); earth->mmu_map(pid, pageno, ppage_id)
unfoldable pub map_page : ℕ → ℕ → Mmu → Option (ℕ × Mmu)
map_page pid pageno s = do
  (ppage_id, s') ← mmu_alloc s
  some (ppage_id, soft_tlb_map pid pageno ppage_id s')

-- The same, and memset(PAGE_ID_TO_ADDR(ppage_id), 0, PAGE_SIZE).
unfoldable pub map_zero_page : ℕ → ℕ → Mmu → Option (ℕ × Mmu)
unfolding map_page
map_zero_page pid pageno s = do
  (ppage_id, s') ← map_page pid pageno s
  some (ppage_id, record s' { mem = clear_page s'.mem (page_id_to_addr ppage_id) })

-- `curr_pageno` and `ppage_id` of the loop over the blocks of a segment.
pub record Loading : Type 0 where
  pub curr_pageno : ℕ
  pub ppage_id : ℕ
  pub mmu : Mmu

-- A new page at the start of every eighth block.
unfoldable pub start_page : ℕ → ℕ → Loading → Option Loading
unfolding map_zero_page
start_page pid off l =
    let mapped = (do
      (ppage_id, mmu') ← map_zero_page pid l.curr_pageno l.mmu
      some (record { curr_pageno = l.curr_pageno + 1; ppage_id = ppage_id; mmu = mmu' })) in
    if off % page_size == 0 then mapped else some l

-- The body of the loop, for block `j`, at which `off` is j * BLOCK_SIZE.
unfoldable pub load_block : ℕ → (ℕ → Contents) → Segment → ℕ → Option Loading → Option Loading
unfolding start_page copy_bytes
load_block pid reader seg j o = do
  before ← o
  l ← start_page pid (j * block_size) before
  let off = j * block_size
  let size = if ltb (off + block_size) seg.p_filesz then block_size else seg.p_filesz - off
  let dst = page_id_to_addr l.ppage_id + off % page_size
  some (record l {
    mmu = record l.mmu {
      mem = copy_bytes dst (reader (seg.p_offset / block_size + j)) size l.mmu.mem;
    };
  })

unfoldable pub load_bss : ℕ → ℕ → Option Mmu → Option Mmu
unfolding map_zero_page
load_bss pid pageno o = do s ← o; (ppage_id, s') ← map_zero_page pid pageno s; some s'

-- One program header. The blocks of the file are loaded first; the pages up to the one of the end are
-- then mapped. A segment below RAM_START is left out.
unfoldable pub load_segment : ℕ → (ℕ → Contents) → Segment → Mmu → Option Mmu
unfolding load_block load_bss
load_segment pid reader seg s =
    let first = seg.p_vaddr / page_size in
    let end_pageno = (seg.p_vaddr + seg.p_memsz) % 2 ^ 32 / page_size in
    let blocks = (seg.p_filesz + (block_size - 1)) / block_size in
    let loaded = (do
      l ←
          for_range blocks 0 (load_block pid reader seg)
            (some (record { curr_pageno = first; ppage_id = 0; mmu = s }))
      for_range (end_pageno - l.curr_pageno) l.curr_pageno (load_bss pid) (some l.mmu)) in
    if ltb seg.p_vaddr ram_start then some s else loaded

unfoldable pub load_segments : ℕ → (ℕ → Contents) → Contents → Mmu → Option Mmu
unfolding load_segment segment_at half_at
load_segments pid reader hbuf s =
    for_range (half_at hbuf 44) 0 (λ i o. o >>= load_segment pid reader (segment_at hbuf i))
      (some s)

-- argc, argv and the strings, in the page at `addr`. `argv` is none when the caller passes NULL.
unfoldable pub write_args : ℕ → ℕ → Option Contents → Pages → Pages
unfolding copy_bytes put_word
write_args addr argc argv mem =
    let argv_addr = addr + 4 in
    let args_addr = argv_addr + 4 * cmd_nargs in
    let with_argc = put_word addr argc mem in
    let with_args : Pages = elim argv [
      | none ↦ with_argc
      | some rows ↦ copy_bytes args_addr rows (argc * cmd_arg_len) with_argc
    ] in
    for_range argc 0
      (λ i. put_word (argv_addr + 4 * i) (apps_arg + 4 + 4 * cmd_nargs + i * cmd_arg_len)) with_args

-- The pages of the arguments, of the system call, and of the stack.
unfoldable pub map_rest : ℕ → ℕ → Option Contents → Mmu → Option Mmu
unfolding map_page write_args
map_rest pid argc argv s = do
  (args_page, s1) ← map_page pid (apps_arg / page_size) s
  let s2 = record s1 { mem = write_args (page_id_to_addr args_page) argc argv s1.mem }
  (sc_page, s3) ← map_page pid (syscall_arg / page_size) s2
  (stack1, s4) ← map_page pid (apps_stack_top / page_size - 1) s3
  (stack2, s5) ← map_page pid (apps_stack_top / page_size - 2) s4
  some s5

unfoldable pub elf_load : ℕ → (ℕ → Contents) → ℕ → Option Contents → Mmu → Option Mmu
unfolding load_segments map_rest
elf_load pid reader argc argv s = load_segments pid reader (reader 0) s >>= map_rest pid argc argv
