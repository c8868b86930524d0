-- ===== src/Mem/Frames.antt =====
-- The page allocator of earth/mem_alloc.c, and `mmu_alloc` of earth/cpu_mmu.c.
-- Addresses are 32-bit numbers, memory is an array of pages (address / PAGE_SIZE), each an array of
-- bytes. `none` is `FATAL`, which never returns. The two lock functions are empty in the source.
pub mod Laws
use egos_upstream.Base.{
  ◌>>=◌, ℕ, ◌+◌, ◌-◌, ◌*◌, ◌/◌, ◌%◌, ◌^◌, Bool, true, Option, none, some, ltb, ◌==◌, if◌then◌else◌,
  update, find_from,
}
use egos_upstream.Mem.Bitmap.{Bitmap, bitmap_set, bitmap_clear, bitmap_test}

abbrev pub ram_end : ℕ
ram_end = 0x80800000

abbrev pub apps_pages_base : ℕ
apps_pages_base = 0x80400000

abbrev pub page_size : ℕ
page_size = 4096

abbrev pub apps_pages_cnt : ℕ
apps_pages_cnt = (ram_end - apps_pages_base) / page_size

abbrev pub Contents : Type 0
Contents = ℕ → ℕ

abbrev pub Pages : Type 0
Pages = ℕ → Contents

-- An entry of `page_info_table`: the process that owns the page, and where it stands there.
pub record Page : Type 0 where
  pub pid : ℕ
  pub vpage_no : ℕ

-- `bitmap`, `page_info_table`, the static `curr_vm_pid`, and memory.
pub record Mmu : Type 0 where
  pub bitmap : Bitmap
  pub page_info_table : ℕ → Page
  pub curr_vm_pid : ℕ
  pub mem : Pages

-- The page that holds an address.
abbrev pub page_of : ℕ → ℕ
page_of addr = addr % 2 ^ 32 / page_size

unfoldable pub pgid_to_paddr : ℕ → Option ℕ
pgid_to_paddr pgid =
    if ltb pgid apps_pages_cnt then some (apps_pages_base + pgid * page_size) else none

unfoldable pub paddr_to_pgid : ℕ → Option ℕ
paddr_to_pgid paddr =
    let pgid = (paddr + 2 ^ 32 - apps_pages_base) % 2 ^ 32 / page_size in
    if paddr % page_size == 0 then (if ltb pgid apps_pages_cnt then some pgid else none) else none

-- memset(paddr, 0, PAGE_SIZE) at the start of a page
abbrev pub clear_page : Pages → ℕ → Pages
clear_page mem paddr = update mem (page_of paddr) (λ _. 0)

-- The body of the loop of `pmalloc`, at the first page that is not in use.
unfoldable pub pmalloc_at : Bool → ℕ → Mmu → Option (ℕ × Mmu)
unfolding pgid_to_paddr
pmalloc_at clear i s = do
  let s' = record s { bitmap = bitmap_set s.bitmap i }
  ret ← pgid_to_paddr i
  some (ret, (if clear then record s' { mem = clear_page s.mem ret } else s'))

unfoldable pub pmalloc : Bool → Mmu → Option (ℕ × Mmu)
unfolding pmalloc_at
pmalloc clear s = do
  i ← find_from apps_pages_cnt 0 (λ i. bitmap_test s.bitmap i == 0)
  pmalloc_at clear i s

unfoldable pub pfree : ℕ → Mmu → Option Mmu
unfolding paddr_to_pgid
pfree paddr s = do
  pgid ← paddr_to_pgid paddr
  some (record s { bitmap = bitmap_clear s.bitmap pgid })

unfoldable pub mmu_alloc : Mmu → Option (ℕ × Mmu)
unfolding pmalloc paddr_to_pgid
mmu_alloc s = do (paddr, s') ← pmalloc true s; pgid ← paddr_to_pgid paddr; some (pgid, s')
