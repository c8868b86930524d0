-- ===== src/Kernel/Tests.antt =====
-- Concrete runs of the kernel: process 1 runs while 2 waits for a message and 3 sends one to it.
use egos_upstream.Base.{
  ℕ, ◌+◌, ◌^◌, ◌≤◌, ◌<◌, ◌≡◌, refl, ◌≢◌, ◌⊎◌, false, not, ◌&&◌, none, some, [], ◌∷◌, arith, ltb,
  leb, ◌==◌, if◌then◌else◌, update, find_from,
}
use egos_upstream.Kernel.State.{
  max_nprocess, gpid_all, ProcStatus, unused, loading, running, runnable, pending_syscall, is_user,
  is_unused, sys_recv, sys_send, pending, done, Syscall, Process, Procs, Kernel, curr_proc_idx,
}
use egos_upstream.Kernel.Process.{proc_set_status, proc_free, proc_alloc}
use egos_upstream.Kernel.Ipc.{is_dst, proc_try_send, proc_try_recv, proc_try_syscall}
use egos_upstream.Kernel.Ipc.Send.{Delivered, Waits, IsReceiver, proc_try_send_lem}
use egos_upstream.Kernel.Ipc.Recv.{IsWaiting, Received, proc_try_recv_lem}
use egos_upstream.Kernel.Scheduler.{may_run, rotated, round_robin, clear_pending_syscalls}
use egos_upstream.Kernel.Scheduler.RoundRobin.{IsNext, round_robin_lem}
use egos_upstream.Kernel.Scheduler.Clear.{pendings-le, Ends, clear_pending_syscalls-Ends}
use egos_upstream.Kernel.Scheduler.Yield.{IsValid}
use egos_upstream.Kernel.Entry.{Trap, kernel_entry}
use egos_upstream.Kernel.Entry.Handled.{Handles, kernel_entry-Handles}
use egos_upstream.Kernel.Ipc.Stuck.{receives, IsQuiet}
use egos_upstream.Kernel.Scheduler.Settles.{Settles}
use egos_upstream.Kernel.Entry.{accept_syscall}
use egos_upstream.Kernel.Entry.Attempt.{IsRefusable, accept_syscall-Settles}
use egos_upstream.Kernel.Entry.Settled.{ReturnsQuiet, kernel_entry-IsQuiet}
use egos_upstream.Kernel.Lifecycle.{
  IsLeastUnused, allocated, proc_alloc_total, proc_set_status-last, proc_free_lem,
}

abbrev pub no_call : Syscall
no_call = record { type = 0; sender = 0; receiver = 0; content = λ i. 0; status = 0 }

abbrev pub receiving : Syscall
receiving = record {
  type = sys_recv;
  sender = gpid_all;
  receiver = 0;
  content = λ i. 0;
  status = pending;
}

abbrev pub sending : Syscall
sending = record { type = sys_send; sender = 0; receiver = 2; content = λ i. 7; status = pending }

abbrev pub process : ℕ → ProcStatus → Syscall → Process
process pid status sc = record {
  pid = pid;
  syscall = sc;
  status = status;
  mepc = 0;
  saved_registers = λ i. 0;
}

abbrev table : Procs
table i =
    if i == 1
    then process 1 running no_call
    else if i == 2
    then process 2 pending_syscall receiving
    else if i == 3
    then process 3 pending_syscall sending
    else process 0 unused no_call

abbrev pub machine : Procs → Kernel
machine procs = record {
  core_in_kernel = 0;
  core_to_proc_idx = λ core. 1;
  proc_set = procs;
  user = λ pid. no_call;
  calls = [];
  tty = 3 ∷ [];
  msip = λ core. 1;
}

abbrev three : Kernel
three = machine table

three-IsWaiting : IsWaiting three
three-IsWaiting = record {
  sends = λ i. ground arith;
  served = λ i. ground arith;
  named = λ i. ground arith;
}

three-IsValid : IsValid three
three-IsValid = record {
  waiting = three-IsWaiting;
  numbered = λ i le. ground arith;
  in_table = omega arith;
  alone = λ i le. ground arith;
}

-- A timer interrupt.
abbrev timer : Trap
timer = record { mhartid = 0; mepc = 12; registers = λ i. 5; mcause = 2 ^ 31 + 7 }

kernel_entry-Handles_example : Handles (kernel_entry timer three)
kernel_entry-Handles_example = kernel_entry-Handles timer three three-IsValid refl refl

clear_pending_syscalls-Ends_example : Ends three (clear_pending_syscalls 17 three)
clear_pending_syscalls-Ends_example =
    clear_pending_syscalls-Ends 17 three three-IsWaiting
      (omega (arith, pendings-le max_nprocess table))

-- Process 2 waits for a message, and process 1, which runs, has made a call that sends it one.
abbrev pub quiet_table : Procs
quiet_table i =
    if i == 1
    then process 1 running no_call
    else if i == 2
    then process 2 pending_syscall receiving
    else process 0 unused no_call

abbrev pub quiet_kernel : Kernel
quiet_kernel = record (machine quiet_table) { user = λ pid. sending }

pub quiet-IsValid : IsValid quiet_kernel
quiet-IsValid = record {
  waiting = record {
    sends = λ i. ground arith;
    served = λ i. ground arith;
    named = λ i. ground arith;
  };
  numbered = λ i le. ground arith;
  in_table = omega arith;
  alone = λ i le. ground arith;
}

quiet_table-IsQuiet : IsQuiet quiet_table
quiet_table-IsQuiet p lt waits = receives (ground arith) (ground arith)

-- A software interrupt.
abbrev trapped : Trap
trapped = record { mhartid = 0; mepc = 12; registers = λ i. 5; mcause = 2 ^ 31 + 3 }

kernel_entry-IsQuiet_example : ReturnsQuiet (kernel_entry trapped quiet_kernel)
kernel_entry-IsQuiet_example =
    kernel_entry-IsQuiet trapped quiet_kernel quiet-IsValid quiet_table-IsQuiet refl refl

accept_syscall-Settles_example :
    ((proc_try_syscall
          (curr_proc_idx (accept_syscall 0 quiet_kernel))
          (accept_syscall 0 quiet_kernel)
        ≡ none)
      × IsRefusable (accept_syscall 0 quiet_kernel))
    ⊎ ((k1 : Kernel) × (proc_try_syscall
            (curr_proc_idx (accept_syscall 0 quiet_kernel))
            (accept_syscall 0 quiet_kernel)
          ≡ some k1)
        × Settles k1)
accept_syscall-Settles_example =
    accept_syscall-Settles 0 quiet_kernel quiet-IsValid quiet_table-IsQuiet refl

-- Process 2 after it has been served.
abbrev served_table : Procs
served_table =
    update table 2 (process 2 pending_syscall (record receiving { sender = 3; status = done }))

abbrev served_kernel : Kernel
served_kernel = machine served_table

proc_try_recv_lem_example :
    ((served_table 2).syscall.status ≡ pending) × (proc_try_recv 2 served_kernel ≡ served_kernel)
    ⊎ ((served_table 2).syscall.status ≢ pending)
      × Received served_kernel 2 (proc_try_recv 2 served_kernel)
proc_try_recv_lem_example = proc_try_recv_lem served_kernel 2

proc_try_send_lem_example :
    ((d : ℕ) × IsReceiver three 3 d
      × Waits (three.proc_set d) (three.proc_set 3)
      × ((k' : Kernel) × (proc_try_send 3 three ≡ some k') × Delivered three 3 d k'))
    ⊎ ((d : ℕ) × IsReceiver three 3 d
        × (Waits (three.proc_set d) (three.proc_set 3) → ⊥)
        × (proc_try_send 3 three ≡ some three))
    ⊎ (((d : ℕ) → d < max_nprocess → is_dst three.proc_set 3 d ≡ false)
        × (proc_try_send 3 three ≡ none))
proc_try_send_lem_example = proc_try_send_lem three 3

round_robin_lem_example :
    ((i : ℕ) × IsNext three i
      × (round_robin three ≡ rotated three i)
      × (round_robin three < max_nprocess))
    ⊎ ((round_robin three ≡ max_nprocess)
        × ((idx : ℕ) → idx < max_nprocess → may_run (three.proc_set idx).status ≡ false))
round_robin_lem_example = round_robin_lem three (omega arith)

proc_alloc_total_example :
    ((i : ℕ) × IsLeastUnused three i × (proc_alloc three ≡ some (i, allocated i three)))
    ⊎ ((proc_alloc three ≡ none)
        × ((j : ℕ) → 1 ≤ j → j ≤ max_nprocess → (three.proc_set j).status ≢ unused))
proc_alloc_total_example = proc_alloc_total three

proc_free_lem_example : (proc_free gpid_all three).proc_set 3 ≡ (
    if ltb 3 max_nprocess
      && (if gpid_all == gpid_all
          then is_user (three.proc_set 3).pid && not (is_unused (three.proc_set 3).status)
          else ((three.proc_set 3).pid == gpid_all))
    then record (three.proc_set 3) { status = unused }
    else three.proc_set 3)
proc_free_lem_example = proc_free_lem gpid_all three 3

-- Fifteen processes, of which the first runs.
abbrev full_table : Procs
full_table i =
    if i == 1
    then process 1 running no_call
    else if leb 1 i && ltb i 16
    then process i runnable no_call
    else process 0 unused no_call

abbrev full_kernel : Kernel
full_kernel = machine full_table

full-IsValid : IsValid full_kernel
full-IsValid = record {
  waiting = record {
    sends = λ i. ground arith;
    served = λ i. ground arith;
    named = λ i. ground arith;
  };
  numbered = λ i le. ground arith;
  in_table = omega arith;
  alone = λ i le. ground arith;
}

full_alloc : proc_alloc full_kernel ≡ some (max_nprocess, allocated max_nprocess full_kernel)
unfolding proc_alloc find_from
full_alloc = refl

proc_set_status-last_example :
    (((allocated max_nprocess full_kernel).proc_set max_nprocess).status ≡ loading)
    × ((status : ProcStatus) (i : ℕ)
        → (proc_set_status max_nprocess status (allocated max_nprocess full_kernel)).proc_set i
          ≡ (allocated max_nprocess full_kernel).proc_set i)
proc_set_status-last_example =
    proc_set_status-last full_kernel (allocated max_nprocess full_kernel) full-IsValid full_alloc
