-- ===== src/Mem/Ownership.antt =====
-- Pages have owners: what the page allocator and the software TLB keep between them, over any run.
use egos_upstream.Base.{
  ℕ, ◌<◌, ◌≡◌, sym, ap, ◌∙◌, ◌≢◌, ◌⊎◌, inl, inr, not, Option, none, some, arith, ◌==◌, Bool-cases,
}
use mathlib.Core.Path.{subst}
use egos_upstream.Mem.Bitmap.{used, IsBytes, bitmap_set-IsBytes}
use egos_upstream.Mem.Frames.{Mmu, Pages, apps_pages_cnt, mmu_alloc}
use egos_upstream.Mem.Frames.Laws.{IsTaken, taken, mmu_alloc_total}
use egos_upstream.Mem.SoftTlb.{soft_tlb_free, soft_tlb_map, soft_tlb_switch}
use egos_upstream.Mem.SoftTlb.Free.{soft_tlb_free_total}

-- What the kernel and the loader do with memory: a page is allocated and mapped at once, a process's
-- pages are freed, another process is switched to, and programs write.
pub data Step (s : Mmu) : Mmu → Type 0 where
  maps :
      (pid vpage_no pgid : ℕ) (s' : Mmu)
      → pid ≢ 0
      → mmu_alloc s ≡ some (pgid, s')
      → Step s (soft_tlb_map pid vpage_no pgid s')
  frees : (pid : ℕ) (s' : Mmu) → pid ≢ 0 → soft_tlb_free pid s ≡ some s' → Step s s'
  switches : (pid : ℕ) → Step s (soft_tlb_switch pid s)
  writes : (mem : Pages) → Step s (record s { mem = mem })

pub data Reaches (s : Mmu) : Mmu → Type 0 where
  start : Reaches s s
  after : (s1 s2 : Mmu) → Reaches s s1 → Step s1 s2 → Reaches s s2

-- A page is in use exactly if it belongs to a process.
pub record IsOwned (s : Mmu) : Type 0 where
  pub bytes : IsBytes s.bitmap
  pub owned : (k : ℕ) → k < apps_pages_cnt → used s.bitmap k ≡ not ((s.page_info_table k).pid == 0)

or_else : {A : Type 0} → A → Option A → A
or_else a none = a
or_else a (some b) = b

same_result : {A : Type 0} (o : Option A) (a b : A) → o ≡ some a → o ≡ some b → a ≡ b
unfolding or_else
same_result o a b e e' = ap (or_else a) (sym e ∙ e')

map_taken-IsOwned :
    (pid vpage_no pgid : ℕ) (s : Mmu)
    → pid ≢ 0
    → IsOwned s
    → IsTaken s (taken s pgid) pgid
    → IsOwned (soft_tlb_map pid vpage_no pgid (taken s pgid))
unfolding soft_tlb_map
map_taken-IsOwned pid vpage_no pgid s ne h t = record {
  bytes = bitmap_set-IsBytes s.bitmap pgid h.bytes;
  owned = λ k lt. elim (Bool-cases (pgid == k)) [
    | inl here ↦ ground (arith, t.bits k)
    | inr other ↦ ground (arith, t.bits k, h.owned k lt)
  ];
}

maps-IsOwned :
    (s : Mmu) (pid vpage_no pgid : ℕ) (s' : Mmu)
    → pid ≢ 0
    → mmu_alloc s ≡ some (pgid, s')
    → IsOwned s
    → IsOwned (soft_tlb_map pid vpage_no pgid s')
maps-IsOwned s pid vpage_no pgid s' ne e h = elim (mmu_alloc_total s h.bytes) [
  | inl (pgid', e', least, t) ↦
      let same = same_result (mmu_alloc s) (pgid', taken s pgid') (pgid, s') e' e in
      subst (λ r. IsOwned (soft_tlb_map pid vpage_no r.0 r.1)) same
        (map_taken-IsOwned pid vpage_no pgid' s ne h t)
  | inr (full, all) ↦ cc
]

frees-IsOwned :
    (s : Mmu) (pid : ℕ) (s' : Mmu)
    → pid ≢ 0
    → soft_tlb_free pid s ≡ some s'
    → IsOwned s
    → IsOwned s'
frees-IsOwned s pid s' ne e h =
    let (s'', e'', f) = soft_tlb_free_total pid s h.bytes in
    let same = same_result (soft_tlb_free pid s) s'' s' e'' e in
    subst IsOwned same
      (record { bytes = f.bytes; owned = λ k lt. ground (arith, f.bits k, f.pids k, h.owned k lt) })

switches-IsOwned : (s : Mmu) (pid : ℕ) → IsOwned s → IsOwned (soft_tlb_switch pid s)
unfolding soft_tlb_switch
switches-IsOwned s pid h = elim (Bool-cases (pid == s.curr_vm_pid)) [
  | inl same ↦ rw same h
  | inr other ↦ rw other (record { bytes = h.bytes; owned = h.owned })
]

Step-IsOwned : (s s' : Mmu) → Step s s' → IsOwned s → IsOwned s'
Step-IsOwned s s' (maps pid vpage_no pgid s1 ne e) h = maps-IsOwned s pid vpage_no pgid s1 ne e h
Step-IsOwned s s' (frees pid s1 ne e) h = frees-IsOwned s pid s1 ne e h
Step-IsOwned s s' (switches pid) h = switches-IsOwned s pid h
Step-IsOwned s s' (writes mem) h = record { bytes = h.bytes; owned = h.owned }

Reaches-IsOwned : (s s' : Mmu) → Reaches s s' → IsOwned s → IsOwned s'
Reaches-IsOwned s s' start h = h
Reaches-IsOwned s s' (after s1 s2 before step) h =
    Step-IsOwned s1 s2 step (Reaches-IsOwned s s1 before h)

-- After any number of pages mapped, processes freed, switches and writes by programs, from a state in
-- which a page is in use exactly if a process owns it: that still holds, and `mmu_alloc` takes the
-- least page that no process owns, or stops the kernel when processes own all pages.
pub Reaches-mmu_alloc :
    (s s' : Mmu)
    → Reaches s s'
    → IsOwned s
    → IsOwned s'
      × (((pgid : ℕ) × (s'' : Mmu) × (mmu_alloc s' ≡ some (pgid, s''))
            × (pgid < apps_pages_cnt)
            × ((s'.page_info_table pgid).pid ≡ 0)
            × ((k : ℕ) → k < pgid → (s'.page_info_table k).pid ≢ 0))
          ⊎ ((mmu_alloc s' ≡ none)
              × ((k : ℕ) → k < apps_pages_cnt → (s'.page_info_table k).pid ≢ 0)))
Reaches-mmu_alloc s s' reach h =
    let h' = Reaches-IsOwned s s' reach h in
    (
      h',
      elim (mmu_alloc_total s' h'.bytes) [
        | inl (pgid, e, least, t) ↦ inl (
          pgid,
          taken s' pgid,
          e,
          least.in_range,
          ground (arith, least.free, h'.owned pgid least.in_range),
          λ k lt. ground (arith, least.least k lt, h'.owned k (omega (arith, least.in_range))),
        )
        | inr (e, full) ↦ inr (e, λ k lt. ground (arith, full k lt, h'.owned k lt))
      ],
    )
