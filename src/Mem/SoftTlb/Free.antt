-- ===== src/Mem/SoftTlb/Free.antt =====
-- What `soft_tlb_free` gives back.
use egos_upstream.Base.{
  ℕ, ◌+◌, ◌<◌, ◌≡◌, ◌≢◌, refl, false, ◌&&◌, some, inl, inr, arith, ◌==◌, ltb, if◌then◌else◌,
  for_range_inv, Bool-cases,
}
use egos_upstream.Mem.Bitmap.{bitmap_clear, used, IsBytes, used-bitmap_clear, bitmap_clear-IsBytes}
use egos_upstream.Mem.Frames.{Mmu, apps_pages_cnt, pfree}
use egos_upstream.Mem.Frames.Laws.{paddr_to_pgid-pgid_to_paddr, pgid_to_paddr_lem}
use egos_upstream.Mem.SoftTlb.{page_id_to_addr, disown, free_body, soft_tlb_free}

pub pfree_at :
    (i : ℕ) (s : Mmu)
    → i < apps_pages_cnt
    → pfree (page_id_to_addr i) s ≡ some (record s { bitmap = bitmap_clear s.bitmap i })
unfolding pfree
pfree_at i s lt = rw (paddr_to_pgid-pgid_to_paddr i (page_id_to_addr i) (pgid_to_paddr_lem i lt))

-- Of the pages below `k`, those of `pid` are free and belong to nobody; all else is as in `s`.
pub record IsFreed (pid : ℕ) (s : Mmu) (k : ℕ) (s' : Mmu) : Type 0 where
  pub bits :
      (j : ℕ)
      → used s'.bitmap j
        ≡ (if ltb j k && ((s.page_info_table j).pid == pid) then false else used s.bitmap j)
  pub pids :
      (j : ℕ)
      → (s'.page_info_table j).pid
        ≡ (if ltb j k && ((s.page_info_table j).pid == pid) then 0 else (s.page_info_table j).pid)
  pub vpages : (j : ℕ) → (s'.page_info_table j).vpage_no ≡ (s.page_info_table j).vpage_no
  pub bytes : IsBytes s'.bitmap
  pub memory : s'.mem ≡ s.mem
  pub current : s'.curr_vm_pid ≡ s.curr_vm_pid

free_body-IsFreed :
    (pid : ℕ) (s : Mmu) (k : ℕ) (s' : Mmu)
    → k < apps_pages_cnt
    → IsFreed pid s k s'
    → (s'' : Mmu) × (free_body pid k (some s') ≡ some s'') × IsFreed pid s (k + 1) s''
unfolding free_body
free_body-IsFreed pid s k s' lt h = elim (Bool-cases ((s'.page_info_table k).pid == pid)) [
  | inl own ↦ (
    record (disown k s') { bitmap = bitmap_clear s'.bitmap k },
    rw own (pfree_at k (disown k s') lt),
    record {
      bits = λ j. ground (arith, used-bitmap_clear s'.bitmap k j, h.bytes, h.bits j, h.pids k);
      pids = λ j. ground (arith, h.pids j, h.pids k);
      vpages = λ j. ground (arith, h.vpages j);
      bytes = bitmap_clear-IsBytes s'.bitmap k h.bytes;
      memory = h.memory;
      current = h.current;
    },
  )
  | inr not_own ↦ (
    s',
    rw not_own,
    record {
      bits = λ j. ground (arith, h.bits j, h.pids k);
      pids = λ j. ground (arith, h.pids j, h.pids k);
      vpages = h.vpages;
      bytes = h.bytes;
      memory = h.memory;
      current = h.current;
    },
  )
]

-- On a bitmap of bytes `soft_tlb_free` always returns: every page of the process becomes free and belongs to nobody, and
-- nothing else changes, memory and the other processes' pages included.
pub soft_tlb_free_total :
    (pid : ℕ) (s : Mmu)
    → IsBytes s.bitmap
    → (s' : Mmu) × (soft_tlb_free pid s ≡ some s') × IsFreed pid s apps_pages_cnt s'
unfolding soft_tlb_free
soft_tlb_free_total pid s bytes =
    for_range_inv (λ k o. (s' : Mmu) × (o ≡ some s') × IsFreed pid s k s') (free_body pid)
      apps_pages_cnt 0 apps_pages_cnt
      (λ k o lo hi (s', e, h). rw e (free_body-IsFreed pid s k s' (omega arith) h)) (some s) refl
      (s, refl, ground arith)

-- No page belongs to the process.
abbrev pub OwnsNothing : ℕ → Mmu → Type 0
OwnsNothing pid s = (j : ℕ) → j < apps_pages_cnt → (s.page_info_table j).pid ≢ pid

-- Whatever the bitmap holds, `soft_tlb_free` returns, and the process owns nothing afterwards.
pub soft_tlb_free-some :
    (pid : ℕ) (s : Mmu)
    → (s' : Mmu) × (soft_tlb_free pid s ≡ some s') × (pid ≢ 0 → OwnsNothing pid s')
unfolding soft_tlb_free free_body
soft_tlb_free-some pid s =
    for_range_inv
      (λ k o.
        (s' : Mmu) × (o ≡ some s') × (pid ≢ 0 → (j : ℕ) → j < k → (s'.page_info_table j).pid ≢ pid))
      (free_body pid) apps_pages_cnt 0 apps_pages_cnt
      (λ k o lo hi (s', e, gone). rw e (elim (Bool-cases ((s'.page_info_table k).pid == pid)) [
        | inl own ↦ (
          record (disown k s') { bitmap = bitmap_clear s'.bitmap k },
          rw own (pfree_at k (disown k s') (omega arith)),
          λ ne j lt same. ground (arith, gone ne j),
        )
        | inr not_own ↦ (s', rw not_own refl, λ ne j lt same. ground (arith, gone ne j))
      ]))
      (some s) refl (s, refl, λ ne j lt same. absurd (omega arith))
