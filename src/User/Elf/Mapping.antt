-- ===== src/User/Elf/Mapping.antt =====
-- What is kept when the loader maps a page, and how that carries through its steps.
use egos_upstream.Base.{
  ℕ, ◌+◌, ◌*◌, ◌<◌, ◌≡◌, refl, sym, ◌∙◌, ◌≢◌, inl, inr, true, false, Option, none, some, arith,
  Bool-cases, ◌>>=◌, update_ne,
}
use egos_upstream.Mem.Bitmap.{used, IsBytes, bitmap_set-IsBytes}
use egos_upstream.Mem.Frames.{
  Mmu, Pages, apps_pages_cnt, apps_pages_base, page_of, page_size, clear_page,
}
use egos_upstream.Mem.Frames.Laws.{IsLeastFree, IsTaken, taken, mmu_alloc_total}
use egos_upstream.Mem.SoftTlb.{page_id_to_addr, soft_tlb_map}
use egos_upstream.User.Elf.{map_page, map_zero_page}

-- Every page that was in use is so still, with its owner, its virtual page and its bytes.
pub record Keeps (s s' : Mmu) : Type 0 where
  pub bytes : IsBytes s'.bitmap
  pub in_use : (k : ℕ) → used s.bitmap k ≡ true → used s'.bitmap k ≡ true
  pub owners : (k : ℕ) → used s.bitmap k ≡ true → s'.page_info_table k ≡ s.page_info_table k
  pub memory :
      (k : ℕ)
      → k < apps_pages_cnt
      → used s.bitmap k ≡ true
      → s'.mem (page_of (page_id_to_addr k)) ≡ s.mem (page_of (page_id_to_addr k))

-- A page that was free in `s`.
abbrev pub IsFresh : Mmu → ℕ → Type 0
IsFresh s k = (k < apps_pages_cnt) × (used s.bitmap k ≡ false)

pub Keeps-refl : (s : Mmu) → IsBytes s.bitmap → Keeps s s
Keeps-refl s bytes = record {
  bytes = bytes;
  in_use = λ k u. u;
  owners = λ k u. refl;
  memory = λ k lt u. refl;
}

-- Writing into fresh pages.
pub Keeps-mem :
    (s s' : Mmu) (page : ℕ) (mem : Pages)
    → Keeps s s'
    → IsFresh s page
    → ((p : ℕ) → p ≢ page_of (page_id_to_addr page) → mem p ≡ s'.mem p)
    → Keeps s (record s' { mem = mem })
Keeps-mem s s' page mem keeps fresh same = record {
  bytes = keeps.bytes;
  in_use = keeps.in_use;
  owners = keeps.owners;
  memory = λ k lt u. same (page_of (page_id_to_addr k)) (apart k lt u) ∙ keeps.memory k lt u;
}
  where
    apart :
        (k : ℕ)
        → k < apps_pages_cnt
        → used s.bitmap k ≡ true
        → page_of (page_id_to_addr k) ≢ page_of (page_id_to_addr page)
    apart k lt u e =
        let same_page : k ≡ page = omega (arith, fresh.0) in
        let clash : true ≡ false = (sym u ∙ rw same_page fresh.1) in cc

-- What holds of a result, if there is one.
abbrev pub Ensures {ℓ} : {A : Type ℓ} → (A → Type 0) → Option A → Type 0
Ensures P none = Unit
Ensures P (some a) = P a

pub Ensures-bind {ℓ κ} :
    {A : Type ℓ} {B : Type κ} (P : A → Type 0) (Q : B → Type 0) (o : Option A) (f : A → Option B)
    → Ensures P o
    → ((a : A) → P a → Ensures Q (f a))
    → Ensures Q (o >>= f)
Ensures-bind P Q none f h step = tt
Ensures-bind P Q (some a) f h step = step a h

-- The page that is mapped was free, and what was in use is kept.
abbrev pub IsMapped : Mmu → ℕ × Mmu → Type 0
IsMapped s (page, s') = IsFresh s page × Keeps s s'

taken-Keeps :
    (pid pageno : ℕ) (s s' : Mmu) (page : ℕ)
    → Keeps s s'
    → IsLeastFree s' page
    → IsTaken s' (taken s' page) page
    → IsMapped s (page, soft_tlb_map pid pageno page (taken s' page))
unfolding soft_tlb_map
taken-Keeps pid pageno s s' page keeps free t = (
  (
    free.in_range,
    elim (Bool-cases (used s.bitmap page)) [
      | inl u ↦ let clash : true ≡ false = sym (keeps.in_use page u) ∙ free.free in cc
      | inr free_there ↦ free_there
    ],
  ),
  record {
    bytes = bitmap_set-IsBytes s'.bitmap page keeps.bytes;
    in_use = λ k u. ground (arith, t.bits k, keeps.in_use k u);
    owners = λ k u. ground (arith, keeps.owners k u, keeps.in_use k u, free.free);
    memory = λ k lt u.
        update_ne s'.mem (λ o. 0) (λ e. apart k lt (keeps.in_use k u) (sym e))
        ∙ keeps.memory k lt u;
  },
)
  where
    apart :
        (k : ℕ)
        → k < apps_pages_cnt
        → used s'.bitmap k ≡ true
        → page_of (page_id_to_addr k) ≢ page_of (apps_pages_base + page * page_size)
    apart k lt u e =
        let same_page : k ≡ page = omega (arith, free.in_range) in
        let clash : true ≡ false = (sym u ∙ rw same_page free.free) in cc

pub map_page-Keeps :
    (pid pageno : ℕ) (s s' : Mmu) → Keeps s s' → Ensures (IsMapped s) (map_page pid pageno s')
unfolding map_page
map_page-Keeps pid pageno s s' keeps = elim (mmu_alloc_total s' keeps.bytes) [
  | inl (page, e, free, t) ↦ rw e (taken-Keeps pid pageno s s' page keeps free t)
  | inr (e, full) ↦ rw e tt
]

pub map_zero_page-Keeps :
    (pid pageno : ℕ) (s s' : Mmu) → Keeps s s' → Ensures (IsMapped s) (map_zero_page pid pageno s')
unfolding map_zero_page
map_zero_page-Keeps pid pageno s s' keeps =
    Ensures-bind (IsMapped s) (IsMapped s) (map_page pid pageno s') _
      (map_page-Keeps pid pageno s s' keeps)
      (λ (page, s'') (fresh, keeps'). (
        fresh,
        Keeps-mem s s'' page (clear_page s''.mem (page_id_to_addr page)) keeps' fresh
            (λ p ne. update_ne s''.mem (λ o. 0) (λ e. ne (sym e))),
      ))
