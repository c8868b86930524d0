-- ===== src/Mem/SoftTlb.antt =====
-- The software TLB (earth/mem_soft_tlb.c): a process's pages are copied to its virtual addresses when
-- it is switched in, and back to their frames when it is switched out.
-- A pid is the 32-bit pattern of an int, so -1 is 2 ^ 32 - 1.
pub mod Free
pub mod Views
use egos_upstream.Base.{ℕ, ◌+◌, ◌*◌, Option, some, ◌>>=◌, ◌==◌, if◌then◌else◌, update, for_range}
use egos_upstream.Mem.Frames.{
  Mmu, Page, Pages, apps_pages_base, apps_pages_cnt, page_size, page_of, pfree,
}

-- PAGE_NO_TO_ADDR and PAGE_ID_TO_ADDR
abbrev pub page_no_to_addr : ℕ → ℕ
page_no_to_addr x = x * page_size

abbrev pub page_id_to_addr : ℕ → ℕ
page_id_to_addr x = apps_pages_base + x * page_size

-- memcpy(dst, src, PAGE_SIZE) between starts of pages
abbrev pub copy_page : Pages → ℕ → ℕ → Pages
copy_page mem dst src = update mem (page_of dst) (mem (page_of src))

-- page_info_table[i].pid = 0
abbrev pub disown : ℕ → Mmu → Mmu
disown i s = record s {
  page_info_table = update s.page_info_table i (record (s.page_info_table i) { pid = 0 });
}

-- The body of the loop of `soft_tlb_free`.
unfoldable pub free_body : ℕ → ℕ → Option Mmu → Option Mmu
free_body pid i o = o >>= λ s.
    if (s.page_info_table i).pid == pid then pfree (page_id_to_addr i) (disown i s) else some s

unfoldable pub soft_tlb_free : ℕ → Mmu → Option Mmu
soft_tlb_free pid s = for_range apps_pages_cnt 0 (free_body pid) (some s)

unfoldable pub soft_tlb_map : ℕ → ℕ → ℕ → Mmu → Mmu
soft_tlb_map pid vpage_no ppage_id s = record s {
  page_info_table = update s.page_info_table ppage_id (record { pid = pid; vpage_no = vpage_no });
}

-- The body of the loop that unmaps the current process.
unfoldable pub unmap_body : (ℕ → Page) → ℕ → ℕ → Pages → Pages
unmap_body table curr i mem =
    if (table i).pid == curr
    then copy_page mem (page_id_to_addr i) (page_no_to_addr (table i).vpage_no)
    else mem

-- The body of the loop that maps the next one.
unfoldable pub map_body : (ℕ → Page) → ℕ → ℕ → Pages → Pages
map_body table pid i mem =
    if (table i).pid == pid
    then copy_page mem (page_no_to_addr (table i).vpage_no) (page_id_to_addr i)
    else mem

unfoldable pub soft_tlb_switch : ℕ → Mmu → Mmu
soft_tlb_switch pid s =
    let out = for_range apps_pages_cnt 0 (unmap_body s.page_info_table s.curr_vm_pid) s.mem in
    let into = for_range apps_pages_cnt 0 (map_body s.page_info_table pid) out in
    if pid == s.curr_vm_pid then s else record s { mem = into; curr_vm_pid = pid }

-- The address, in the address space of `pid`.
unfoldable pub soft_tlb_translate : ℕ → ℕ → Mmu → ℕ × Mmu
soft_tlb_translate pid vaddr s = (vaddr, soft_tlb_switch pid s)
