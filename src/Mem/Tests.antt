-- ===== src/Mem/Tests.antt =====
-- Concrete runs of the memory managers.
use egos_upstream.Base.{
  ℕ, ◌+◌, ◌<◌, ◌≡◌, refl, ◌≢◌, ◌⊎◌, inl, inr, Bool, true, not, none, some, arith, ◌==◌,
  if◌then◌else◌, Bool-cases, passes_below, passes_below_at,
}
use egos_upstream.Mem.Bitmap.{Bitmap, bitmap_test, used, IsBytes}
use egos_upstream.Mem.Frames.{Page, Mmu, apps_pages_cnt, pgid_to_paddr, mmu_alloc}
use egos_upstream.Mem.Frames.Laws.{IsLeastFree, IsTaken, taken, mmu_alloc_total}
use egos_upstream.Mem.SoftTlb.{soft_tlb_free, soft_tlb_switch}
use egos_upstream.Mem.SoftTlb.Free.{IsFreed, soft_tlb_free_total}
use egos_upstream.Mem.Ownership.{Reaches, frees, switches, start, after, IsOwned, Reaches-mmu_alloc}
use egos_upstream.Mem.SoftTlb.Views.{IsMapped, view, view-soft_tlb_switch}

-- Pages 0 to 2 are in use.
abbrev three_used : Bitmap
three_used i = if i == 0 then 7 else 0

three_used-IsBytes : IsBytes three_used
three_used-IsBytes i = ground arith

-- Process 1 has pages 0 and 1, process 2 page 2; both map virtual page 0x80200.
abbrev two_processes : ℕ → Page
two_processes i =
    if i == 0
    then record { pid = 1; vpage_no = 0x80200 }
    else if i == 1
    then record { pid = 1; vpage_no = 0x80300 }
    else if i == 2
    then record { pid = 2; vpage_no = 0x80200 }
    else record { pid = 0; vpage_no = 0 }

abbrev mmu : Mmu
mmu = record {
  bitmap = three_used;
  page_info_table = two_processes;
  curr_vm_pid = 1;
  mem = λ p o. p + o;
}

two_processes-IsMapped : IsMapped two_processes
two_processes-IsMapped = record {
  below = λ i lt own. ground arith;
  distinct = λ i j li lj own same page. ground arith;
}

third_page : pgid_to_paddr 3 ≡ some 0x80403000
unfolding pgid_to_paddr
third_page = refl

mmu_alloc_total_example :
    ((pgid : ℕ) × (mmu_alloc mmu ≡ some (pgid, taken mmu pgid))
      × IsLeastFree mmu pgid
      × IsTaken mmu (taken mmu pgid) pgid)
    ⊎ ((mmu_alloc mmu ≡ none) × ((k : ℕ) → k < apps_pages_cnt → used mmu.bitmap k ≡ true))
mmu_alloc_total_example = mmu_alloc_total mmu three_used-IsBytes

soft_tlb_free_total_example :
    (s' : Mmu) × (soft_tlb_free 1 mmu ≡ some s') × IsFreed 1 mmu apps_pages_cnt s'
soft_tlb_free_total_example = soft_tlb_free_total 1 mmu three_used-IsBytes

view-soft_tlb_switch_example :
    ((soft_tlb_switch 2 mmu).curr_vm_pid ≡ 2) × (view (soft_tlb_switch 2 mmu) 0 ≡ view mmu 0)
view-soft_tlb_switch_example =
    view-soft_tlb_switch mmu 2 0 two_processes-IsMapped (omega arith) (omega arith) (omega arith)
      (omega arith)

agrees : ℕ → Bool
agrees k =
    if used mmu.bitmap k
    then not ((mmu.page_info_table k).pid == 0)
    else (mmu.page_info_table k).pid == 0

agrees_below : passes_below agrees apps_pages_cnt ≡ true
unfolding passes_below agrees used bitmap_test
agrees_below = refl

mmu-IsOwned : IsOwned mmu
unfolding agrees
mmu-IsOwned = record {
  bytes = three_used-IsBytes;
  owned = λ k lt.
      let both : agrees k ≡ true = passes_below_at agrees apps_pages_cnt k agrees_below lt in
      elim (Bool-cases (used mmu.bitmap k)) [
        | inl in_use ↦ ground arith
        | inr unused ↦ ground arith
      ];
}

-- Process 1 ends, and process 2 is switched to.
freed : Mmu
freed = (soft_tlb_free_total 1 mmu three_used-IsBytes).0

mmu-Reaches : Reaches mmu (soft_tlb_switch 2 freed)
unfolding freed
mmu-Reaches =
    after freed (soft_tlb_switch 2 freed)
      (after mmu freed start
        (frees 1 freed (omega arith) (soft_tlb_free_total 1 mmu three_used-IsBytes).1))
      (switches 2)

Reaches-mmu_alloc_example :
    let s' = soft_tlb_switch 2 freed in
    IsOwned s'
    × (((pgid : ℕ) × (s'' : Mmu) × (mmu_alloc s' ≡ some (pgid, s''))
          × (pgid < apps_pages_cnt)
          × ((s'.page_info_table pgid).pid ≡ 0)
          × ((k : ℕ) → k < pgid → (s'.page_info_table k).pid ≢ 0))
        ⊎ ((mmu_alloc s' ≡ none) × ((k : ℕ) → k < apps_pages_cnt → (s'.page_info_table k).pid ≢ 0)))
Reaches-mmu_alloc_example = Reaches-mmu_alloc mmu (soft_tlb_switch 2 freed) mmu-Reaches mmu-IsOwned
