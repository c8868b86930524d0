-- ===== src/Kernel/Entry.antt =====
-- The trap handlers of grass/kernel.c. The registers that the hardware and grass/kernel.s hand over
-- stand in `Trap`, and what the handler leaves for them in `Resume`.
pub mod Handled
pub mod Accepted
pub mod Attempt
pub mod Settled
use egos_upstream.Base.{
  ℕ, ◌+◌, ◌%◌, ◌^◌, Bool, false, none, some, List, [], ◌∷◌, Option, none, some, leb, ◌==◌,
  if◌then◌else◌, update,
}
use egos_upstream.Kernel.State.{
  is_user, pending, mmu_translate, Kernel, curr_proc_idx, curr, curr_pid, call, put,
}
use egos_upstream.Kernel.Process.{proc_set_pending}
use egos_upstream.Kernel.Ipc.{proc_try_syscall}
use egos_upstream.Kernel.Scheduler.{apps_entry, Outcome, ended, fatal, out_of_fuel, proc_yield}

-- mhartid, mepc, the 32 words saved below EGOS_STACK_TOP, and mcause.
pub record Trap : Type 0 where
  pub mhartid : ℕ
  pub mepc : ℕ
  pub registers : ℕ → ℕ
  pub mcause : ℕ

pub record Resume : Type 0 where
  pub mepc : ℕ
  pub registers : ℕ → ℕ

abbrev pub intr_id_soft_m : ℕ
intr_id_soft_m = 3

abbrev pub intr_id_timer : ℕ
intr_id_timer = 7

-- `!tty_input_empty() && (tty_read(&c), c == 0x03)`, and the input that is left.
unfoldable pub read_ctrl_c : List ℕ → Bool × List ℕ
read_ctrl_c [] = (false, [])
read_ctrl_c (c ∷ rest) = (c == 0x03, rest)

unfoldable pub intr_timer : Kernel → Outcome Kernel
unfolding read_ctrl_c proc_yield
intr_timer k =
    let (ctrl_c, rest) = read_ctrl_c k.tty in
    let k' = record k { tty = rest } in
    let killed = put (curr_proc_idx k') (record (curr k') { mepc = apps_entry + 0xC }) k' in
    if is_user (curr_pid k) then (if ctrl_c then ended killed else proc_yield k') else proc_yield k

-- A system call: its arguments come from the memory of the process, and its program counter moves on.
unfoldable pub accept_syscall : ℕ → Kernel → Kernel
unfolding proc_set_pending
accept_syscall hartid k =
    let k1 = call (mmu_translate (curr_pid k)) (record k { msip = update k.msip hartid 0 }) in
    let k2 =
      put (curr_proc_idx k1)
        (record (curr k1) { syscall = record (k1.user (curr_pid k1)) { status = pending } }) k1 in
    let k3 = proc_set_pending (curr_pid k2) k2 in
    put (curr_proc_idx k3) (record (curr k3) { mepc = ((curr k3).mepc + 4) % 2 ^ 32 }) k3

-- `intr_entry` after the first attempt at the system call.
unfoldable pub after_attempt : Option Kernel → Outcome Kernel
unfolding proc_yield
after_attempt none = fatal
after_attempt (some k) = proc_yield k

unfoldable pub intr_soft : ℕ → Kernel → Outcome Kernel
unfolding accept_syscall proc_try_syscall after_attempt
intr_soft hartid k =
    let k' = accept_syscall hartid k in after_attempt (proc_try_syscall (curr_proc_idx k') k')

unfoldable pub intr_entry : ℕ → ℕ → Kernel → Outcome Kernel
unfolding intr_timer intr_soft
intr_entry hartid id k =
    if id == intr_id_timer
    then intr_timer k
    else if id == intr_id_soft_m
    then intr_soft hartid k
    else fatal

-- Every exception stops the kernel.
unfoldable pub excp_entry : ℕ → Kernel → Outcome Kernel
excp_entry id k = fatal

-- The context of the interrupted process is saved first.
unfoldable pub save : Trap → Kernel → Kernel
save t k =
    let k' = record k { core_in_kernel = t.mhartid } in
    put (curr_proc_idx k') (record (curr k') { mepc = t.mepc; saved_registers = t.registers }) k'

abbrev pub restore : Kernel → Resume
restore k = record { mepc = (curr k).mepc; registers = (curr k).saved_registers }

unfoldable pub resume : Outcome Kernel → Outcome (Resume × Kernel)
resume (ended k) = ended (restore k, k)
resume fatal = fatal
resume out_of_fuel = out_of_fuel

unfoldable pub kernel_entry : Trap → Kernel → Outcome (Resume × Kernel)
unfolding save intr_entry excp_entry resume
kernel_entry t k =
    let k' = save t k in
    if leb (2 ^ 31) t.mcause
    then resume (intr_entry t.mhartid (t.mcause % 2 ^ 10) k')
    else resume (excp_entry t.mcause k')
