-- ===== src/Mem/SoftTlb/Views.antt =====
-- Address spaces: what each process finds in its pages, switched in or not.
use egos_upstream.Base.{
  ℕ, ◌+◌, ◌<◌, ◌≡◌, ◌≢◌, refl, ◌&&◌, arith, ◌==◌, ltb, if◌then◌else◌, for_range, for_range_inv,
}
use egos_upstream.Mem.Frames.{Mmu, Page, Pages, Contents, apps_pages_cnt, page_of}
use egos_upstream.Mem.SoftTlb.{
  page_id_to_addr, page_no_to_addr, unmap_body, map_body, soft_tlb_switch,
}

-- The number of the page of memory that is frame `i`.
abbrev pub frame : ℕ → ℕ
frame i = 0x80400 + i

page_of-frame : (i : ℕ) → i < apps_pages_cnt → page_of (page_id_to_addr i) ≡ frame i
page_of-frame i lt = omega arith

page_of-vpage : (v : ℕ) → v < 0x80400 → page_of (page_no_to_addr v) ≡ v
page_of-vpage v lt = omega arith

-- Every mapped page stands below the frames, and a process maps a virtual page once.
pub record IsMapped (table : ℕ → Page) : Type 0 where
  pub below : (i : ℕ) → i < apps_pages_cnt → (table i).pid ≢ 0 → (table i).vpage_no < 0x80400
  pub distinct :
      (i j : ℕ)
      → i < apps_pages_cnt
      → j < apps_pages_cnt
      → (table i).pid ≢ 0
      → (table i).pid ≡ (table j).pid
      → (table i).vpage_no ≡ (table j).vpage_no
      → i ≡ j

-- What the owner of frame `i` finds in it: at its virtual page while it is the current process.
unfoldable pub view : Mmu → ℕ → Contents
view s i =
    if (s.page_info_table i).pid == s.curr_vm_pid
    then s.mem (s.page_info_table i).vpage_no
    else s.mem (frame i)

module _ (table : ℕ → Page) (mapped : IsMapped table) where
  record IsUnmapped (curr : ℕ) (mem : Pages) (k : ℕ) (out : Pages) : Type 0 where
    frames :
        (i : ℕ)
        → i < apps_pages_cnt
        → out (frame i)
          ≡ (if ltb i k && ((table i).pid == curr) then mem (table i).vpage_no else mem (frame i))
    lower : (p : ℕ) → p < 0x80400 → out p ≡ mem p

  unmap_body-IsUnmapped :
      (curr : ℕ) (mem : Pages) (k : ℕ) (out : Pages)
      → curr ≢ 0
      → k < apps_pages_cnt
      → IsUnmapped curr mem k out
      → IsUnmapped curr mem (k + 1) (unmap_body table curr k out)
  unfolding unmap_body
  unmap_body-IsUnmapped curr mem k out ne lt h = record {
    frames = λ i hi. ground (arith, h.frames i hi, h.lower (table k).vpage_no, mapped.below k lt);
    lower = λ p hp. ground (arith, h.lower p hp);
  }

  record IsPlaced (pid : ℕ) (mem : Pages) (k : ℕ) (into : Pages) : Type 0 where
    frames : (i : ℕ) → into (frame i) ≡ mem (frame i)
    placed : (i : ℕ) → i < k → (table i).pid ≡ pid → into (table i).vpage_no ≡ mem (frame i)

  map_body-IsPlaced :
      (pid : ℕ) (mem : Pages) (k : ℕ) (into : Pages)
      → pid ≢ 0
      → k < apps_pages_cnt
      → IsPlaced pid mem k into
      → IsPlaced pid mem (k + 1) (map_body table pid k into)
  unfolding map_body
  map_body-IsPlaced pid mem k into ne lt h = record {
    frames = λ i. ground (arith, h.frames i, mapped.below k lt);
    placed = λ i hi own. ground (
      arith,
      h.placed i,
      h.frames k,
      mapped.below k lt,
      mapped.below i (omega arith),
      mapped.distinct i k (omega arith) lt,
    );
  }

-- Where every owned page is mapped below the frames, each once for its process, and neither process is
-- 0, `soft_tlb_switch` makes the process current, and every owner of a page finds in it what it found
-- before, the process switched out and the one switched in included.
pub view-soft_tlb_switch :
    (s : Mmu) (pid i : ℕ)
    → IsMapped s.page_info_table
    → s.curr_vm_pid ≢ 0
    → pid ≢ 0
    → i < apps_pages_cnt
    → (s.page_info_table i).pid ≢ 0
    → ((soft_tlb_switch pid s).curr_vm_pid ≡ pid) × (view (soft_tlb_switch pid s) i ≡ view s i)
unfolding soft_tlb_switch view
view-soft_tlb_switch s pid i mapped curr_ne pid_ne lt own =
    let table = s.page_info_table in
    let out = for_range apps_pages_cnt 0 (unmap_body table s.curr_vm_pid) s.mem in
    let unmapped : IsUnmapped table mapped s.curr_vm_pid s.mem apps_pages_cnt out =
      for_range_inv (IsUnmapped table mapped s.curr_vm_pid s.mem) (unmap_body table s.curr_vm_pid)
        apps_pages_cnt 0 apps_pages_cnt
        (λ k m lo hi.
          unmap_body-IsUnmapped table mapped s.curr_vm_pid s.mem k m curr_ne (omega arith))
        s.mem refl (record { frames = ground arith; lower = λ p h. refl }) in
    let into = for_range apps_pages_cnt 0 (map_body table pid) out in
    let placed : IsPlaced table mapped pid out apps_pages_cnt into =
      for_range_inv (IsPlaced table mapped pid out) (map_body table pid) apps_pages_cnt 0
        apps_pages_cnt
        (λ k m lo hi. map_body-IsPlaced table mapped pid out k m pid_ne (omega arith)) out refl
        (record { frames = λ j. refl; placed = λ j h. absurd (omega arith) }) in
    ground (arith, unmapped.frames i lt, placed.frames i, placed.placed i lt)
