-- ===== src/Mem/Frames/Laws.antt =====
-- What the page allocator promises.
use egos_upstream.Base.{
  ℕ, ◌+◌, ◌*◌, ◌<◌, ◌≡◌, refl, Bool, true, false, not, none, some, ◌⊎◌, inl, inr, arith, ◌==◌,
  if◌then◌else◌, find_from, find_from-none, find_from-some, Option-cases,
}
use egos_upstream.Mem.Bitmap.{bitmap_test, bitmap_set, used, IsBytes, used-bitmap_set}
use egos_upstream.Mem.Frames.{
  Mmu, apps_pages_base, apps_pages_cnt, page_size, page_of, pgid_to_paddr, paddr_to_pgid, pmalloc,
  pmalloc_at, mmu_alloc, clear_page,
}

-- From the address of a page `paddr_to_pgid` gives its page id again.
pub paddr_to_pgid-pgid_to_paddr :
    (pgid paddr : ℕ) → pgid_to_paddr pgid ≡ some paddr → paddr_to_pgid paddr ≡ some pgid
unfolding pgid_to_paddr paddr_to_pgid
paddr_to_pgid-pgid_to_paddr pgid paddr h = ground arith

pub pgid_to_paddr_lem :
    (pgid : ℕ)
    → pgid < apps_pages_cnt
    → pgid_to_paddr pgid ≡ some (apps_pages_base + pgid * page_size)
unfolding pgid_to_paddr
pgid_to_paddr_lem pgid h = ground arith

-- The least free page.
pub record IsLeastFree (s : Mmu) (pgid : ℕ) : Type 0 where
  pub in_range : pgid < apps_pages_cnt
  pub free : used s.bitmap pgid ≡ false
  pub least : (k : ℕ) → k < pgid → used s.bitmap k ≡ true

-- What `mmu_alloc` changes: the page becomes used and its bytes 0; nothing else changes.
pub record IsTaken (s s' : Mmu) (pgid : ℕ) : Type 0 where
  pub bits : (k : ℕ) → used s'.bitmap k ≡ (if pgid == k then true else used s.bitmap k)
  pub zero_page : (o : ℕ) → s'.mem (page_of (apps_pages_base + pgid * page_size)) o ≡ 0
  pub others :
      (p o : ℕ)
      → (p == page_of (apps_pages_base + pgid * page_size)) ≡ false
      → s'.mem p o ≡ s.mem p o
  pub table : s'.page_info_table ≡ s.page_info_table
  pub current : s'.curr_vm_pid ≡ s.curr_vm_pid

-- The state after `mmu_alloc` has taken a page.
abbrev pub taken : Mmu → ℕ → Mmu
taken s pgid = record s {
  bitmap = bitmap_set s.bitmap pgid;
  mem = clear_page s.mem (apps_pages_base + pgid * page_size);
}

mmu_alloc_at :
    (s : Mmu) (pgid : ℕ)
    → pgid < apps_pages_cnt
    → find_from apps_pages_cnt 0 (λ i. bitmap_test s.bitmap i == 0) ≡ some pgid
    → mmu_alloc s ≡ some (pgid, taken s pgid)
unfolding mmu_alloc pmalloc pmalloc_at
mmu_alloc_at s pgid lt e =
    let there = pgid_to_paddr_lem pgid lt in
    rw (e, there, paddr_to_pgid-pgid_to_paddr pgid (apps_pages_base + pgid * page_size) there)

taken-IsTaken : (s : Mmu) (pgid : ℕ) → IsBytes s.bitmap → IsTaken s (taken s pgid) pgid
taken-IsTaken s pgid bytes = record {
  bits = λ k. used-bitmap_set s.bitmap pgid k bytes;
  zero_page = λ o. ground arith;
  others = λ p o h. ground arith;
  table = refl;
  current = refl;
}

used_of_test :
    (s : Mmu) (k : ℕ) (b : Bool) → (bitmap_test s.bitmap k == 0) ≡ b → used s.bitmap k ≡ not b
unfolding used
used_of_test s k b h = rw h

-- On a bitmap of bytes `mmu_alloc` takes the least free page, which becomes used and all zero while
-- nothing else changes; or every page is in use and it stops the kernel.
pub mmu_alloc_total :
    (s : Mmu)
    → IsBytes s.bitmap
    → ((pgid : ℕ) × (mmu_alloc s ≡ some (pgid, taken s pgid))
        × IsLeastFree s pgid
        × IsTaken s (taken s pgid) pgid)
      ⊎ ((mmu_alloc s ≡ none) × ((k : ℕ) → k < apps_pages_cnt → used s.bitmap k ≡ true))
unfolding mmu_alloc pmalloc
mmu_alloc_total s bytes =
    let test : ℕ → Bool = λ i. bitmap_test s.bitmap i == 0 in
    elim (Option-cases (find_from apps_pages_cnt 0 test)) [
      | inl e ↦ inr (
        rw e,
        λ k lt.
            used_of_test s k false
              (find_from-none apps_pages_cnt 0 test e k (omega arith) (omega arith)),
      )
      | inr (pgid, e) ↦
          let first = find_from-some apps_pages_cnt 0 test pgid e in
          inl (
            pgid,
            mmu_alloc_at s pgid first.below e,
            record {
              in_range = first.below;
              free = used_of_test s pgid true first.hit;
              least = λ k lt. used_of_test s k false (first.earliest k (omega arith) lt);
            },
            taken-IsTaken s pgid bytes,
          )
    ]
