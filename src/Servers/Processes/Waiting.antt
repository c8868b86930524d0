-- ===== src/Servers/Processes/Waiting.antt =====
-- When the process server answers the shell.
use egos_upstream.Base.{
  ℕ, ◌≡◌, refl, sym, ◌∙◌, ◌≢◌, ◌⊎◌, inl, inr, Bool, true, false, not, Option, some, List, [], ◌∷◌,
  ◌++◌, arith, ◌==◌, if◌then◌else◌, ==_self, ==_false, eq_of_==, ◌≤◌, for_range, Bool-cases, ◌>>=◌,
  ◌&&◌, for_range_inv,
}
use egos_upstream.Mem.Frames.{Mmu, Contents}
use egos_upstream.Kernel.State.{Procs, gpid_all, max_nprocess, is_user, is_unused}
use egos_upstream.Mem.SoftTlb.Free.{OwnsNothing, soft_tlb_free-some}
use egos_upstream.Kernel.Process.{proc_free}
use egos_upstream.Kernel.Lifecycle.{proc_alloc_total}
use egos_upstream.Servers.Processes.{
  gpid_shell, reply_shell, proc_spawn, proc_exit, proc_killall, cmd_ok, ProcRequest, Server,
  is_background, free_pages_body, free_pages, grass_proc_free, app_spawn, serve,
}

-- Requests with their senders, served one after another.
unfoldable pub serve_all :
    (ℕ → ℕ → Contents) → (ℕ → ℕ) → List (ℕ × ProcRequest) → Server → Option Server
serve_all file_read outside [] s = some s
serve_all file_read outside ((sender, req) ∷ reqs) s =
    serve file_read outside sender req s >>= serve_all file_read outside reqs

-- Requests to kill all programs, and exits of processes other than `pid`.
abbrev pub AreOthers : ℕ → List (ℕ × ProcRequest) → Type 0
AreOthers pid [] = Unit
AreOthers pid ((sender, req) ∷ reqs) =
    ((req.type ≡ proc_killall) ⊎ ((req.type ≡ proc_exit) × (sender ≢ pid))) × AreOthers pid reqs

-- What the server owes the shell for a program that was started.
abbrev pub owed : Bool → List (ℕ × ℕ)
owed waiting = if waiting then (gpid_shell, proc_exit) ∷ [] else []

-- Freeing processes always returns, and one that is freed by its pid owns no page afterwards.
free_pages-some :
    (pid : ℕ) (procs : Procs) (mmu : Mmu)
    → (mmu' : Mmu) × (free_pages pid procs mmu ≡ some mmu')
      × (pid ≢ gpid_all → pid ≢ 0 → OwnsNothing pid mmu')
unfolding free_pages free_pages_body
free_pages-some pid procs mmu = elim (Bool-cases (pid == gpid_all)) [
  | inl every ↦
      let (mmu', e) : (m : Mmu) × (for_range max_nprocess 0 (free_pages_body procs) (some mmu)
            ≡ some m) =
        for_range_inv (λ i o. (m : Mmu) × (o ≡ some m)) (free_pages_body procs) max_nprocess 0
          max_nprocess
          (λ i o lo hi (m, e).
            rw e (elim (Bool-cases (is_user (procs i).pid && not (is_unused (procs i).status))) [
              | inl ends ↦
                  let (m', e', gone) = soft_tlb_free-some (procs i).pid m in (m', rw ends e')
              | inr stays ↦ (m, rw stays refl)
            ]))
          (some mmu) refl (mmu, refl) in
      (mmu', rw every e, λ one. absurd (one (eq_of_== pid gpid_all every)))
  | inr one ↦ let (mmu', e, gone) = soft_tlb_free-some pid mmu in (mmu', rw one e, λ _. gone)
]

abbrev freed : ℕ → Server → Server
freed pid s = record s {
  kernel = proc_free pid s.kernel;
  mmu = (free_pages-some pid s.kernel.proc_set s.mmu).0;
}

grass_proc_free-freed : (pid : ℕ) (s : Server) → grass_proc_free pid s ≡ some (freed pid s)
unfolding grass_proc_free
grass_proc_free-freed pid s = rw (free_pages-some pid s.kernel.proc_set s.mmu).1 refl

module _ (file_read : ℕ → ℕ → Contents) (outside : ℕ → ℕ) where
  -- Nothing that concerns the shell has changed.
  abbrev IsSame : Server → Server → Type 0
  IsSame s s' = (s'.sent ≡ s.sent) × (s'.app_pid ≡ s.app_pid) × (s'.shell_waiting ≡ s.shell_waiting)

  other_request :
      (sender : ℕ) (req : ProcRequest) (s : Server)
      → (req.type ≡ proc_killall) ⊎ ((req.type ≡ proc_exit) × (sender ≢ s.app_pid))
      → (s' : Server) × (serve file_read outside sender req s ≡ some s') × IsSame s s'
  unfolding serve
  other_request sender req s (inl kills) =
      (freed gpid_all s, rw kills (grass_proc_free-freed gpid_all s), (refl, refl, refl))
  other_request sender req s (inr (exits, ne)) =
      let apart : (s.app_pid == sender) ≡ false = ==_false s.app_pid sender (λ e. ne (sym e)) in
      elim (Bool-cases s.shell_waiting) [
        | inl waits ↦ (
          freed sender s,
          rw (exits, grass_proc_free-freed sender s, waits, apart) refl,
          (refl, refl, refl),
        )
        | inr not_waits ↦ (
          freed sender s,
          rw (exits, grass_proc_free-freed sender s, not_waits) refl,
          (refl, refl, refl),
        )
      ]

  pub other_requests :
      (reqs last : List (ℕ × ProcRequest)) (s : Server)
      → AreOthers s.app_pid reqs
      → (s' : Server) × (serve_all file_read outside (reqs ++ last) s
          ≡ serve_all file_read outside last s')
        × IsSame s s'
  unfolding serve_all
  other_requests [] last s others = (s, refl, (refl, refl, refl))
  other_requests ((sender, req) ∷ reqs) last s others =
      let (s1, e, (sent, pid, waiting)) = other_request sender req s others.0 in
      let (s2, e2, (sent2, pid2, waiting2)) = other_requests reqs last s1 (rw pid others.1) in
      (s2, rw e e2, (sent2 ∙ sent, pid2 ∙ pid, waiting2 ∙ waiting))

  last_exit :
      (exit : ProcRequest) (pid : ℕ) (s : Server)
      → exit.type ≡ proc_exit
      → s.app_pid ≡ pid
      → pid ≢ gpid_all
      → pid ≢ 0
      → (s' : Server) × (serve_all file_read outside ((pid, exit) ∷ []) s ≡ some s')
        × (s'.sent ≡ owed s.shell_waiting ++ s.sent)
        × OwnsNothing pid s'.mmu
  unfolding serve serve_all
  last_exit exit pid s exits at one real =
      let gone = (free_pages-some pid s.kernel.proc_set s.mmu).2 one real in
      let same : (s.app_pid == pid) ≡ true = rw at (==_self pid) in
      elim (Bool-cases s.shell_waiting) [
        | inl waits ↦ (
          reply_shell proc_exit (freed pid s),
          rw (exits, grass_proc_free-freed pid s, waits, same) refl,
          rw waits refl,
          gone,
        )
        | inr not_waits ↦ (
          freed pid s,
          rw (exits, grass_proc_free-freed pid s, not_waits) refl,
          rw not_waits refl,
          gone,
        )
      ]

  pub spawn_sent :
      (req : ProcRequest) (s s1 : Server) (type : ℕ)
      → app_spawn file_read outside req s ≡ some (type, s1)
      → s1.sent ≡ s.sent
  unfolding app_spawn
  spawn_sent req s s1 type e = ground arith

  -- A program that was started has a pid that `proc_alloc` gave.
  spawn_pid :
      (req : ProcRequest) (s s1 : Server)
      → app_spawn file_read outside req s ≡ some (cmd_ok, s1)
      → (1 ≤ s1.app_pid) × (s1.app_pid ≤ max_nprocess)
  unfolding app_spawn
  spawn_pid req s s1 e = elim (proc_alloc_total s.kernel) [
    | inl (i, least, given) ↦ ground (arith, given, least.above, least.below)
    | inr (stopped, full) ↦ ground (arith, stopped)
  ]

  abbrev started : ProcRequest → Server → Server
  started req s = reply_shell cmd_ok (record s { shell_waiting = not (is_background outside req) })

  serve_spawn :
      (sender : ℕ) (req : ProcRequest) (s s1 : Server)
      → req.type ≡ proc_spawn
      → app_spawn file_read outside req s ≡ some (cmd_ok, s1)
      → serve file_read outside sender req s ≡ some (started req s1)
  unfolding serve
  serve_spawn sender req s s1 spawns e = elim (Bool-cases (is_background outside req)) [
    | inl background ↦ rw (spawns, e, background) refl
    | inr foreground ↦ rw (spawns, e, foreground) refl
  ]

  -- When the server has started a program for the shell, has then served any requests to kill all
  -- programs and exits of other processes, and serves the program's exit, it has gone through all these
  -- requests, and has sent the shell an acceptance, one more message at the exit if the program runs in
  -- the foreground, and nothing else. No page of memory belongs to the program's process then.
  pub serve_all-owed :
      (sender : ℕ) (spawn : ProcRequest) (s s1 : Server) (reqs : List (ℕ × ProcRequest))
      (exit : ProcRequest)
      → spawn.type ≡ proc_spawn
      → app_spawn file_read outside spawn s ≡ some (cmd_ok, s1)
      → AreOthers s1.app_pid reqs
      → exit.type ≡ proc_exit
      → (s' : Server) × (serve_all file_read outside
            ((sender, spawn) ∷ (reqs ++ ((s1.app_pid, exit) ∷ [])))
            s
          ≡ some s')
        × (s'.sent ≡ owed (not (is_background outside spawn)) ++ ((gpid_shell, cmd_ok) ∷ s.sent))
        × OwnsNothing s1.app_pid s'.mmu
  unfolding serve_all
  serve_all-owed sender spawn s s1 reqs exit spawns e others exits =
      let first = serve_spawn sender spawn s s1 spawns e in
      let (s2, e2, (sent, pid, waiting)) =
        other_requests reqs ((s1.app_pid, exit) ∷ []) (started spawn s1) others in
      let (above, below) = spawn_pid spawn s s1 e in
      let (s3, e3, sent3, gone) =
        last_exit exit s1.app_pid s2 exits pid (λ x. omega arith) (λ x. omega arith) in
      (
        s3,
        rw first (e2 ∙ e3),
        sent3 ∙ rw (waiting, sent, spawn_sent spawn s s1 cmd_ok e) refl,
        gone,
      )
