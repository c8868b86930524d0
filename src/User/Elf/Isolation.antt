-- ===== src/User/Elf/Isolation.antt =====
-- Loading a program leaves the pages of the other processes alone.
use egos_upstream.Base.{ℕ, ◌≡◌, ◌⊎◌}
use egos_upstream.Mem.Frames.{Mmu}
use egos_upstream.User.Elf.{Loading}
use egos_upstream.User.Elf.Mapping.{Keeps, IsFresh}

-- The state of the loop over the blocks, before block `j`.
abbrev IsLoading : Mmu → ℕ → Loading → Type 0
IsLoading s j l = Keeps s l.mmu × ((j ≡ 0) ⊎ IsFresh s l.ppage_id)
